-- ===== src/Json.antt =====
-- JSON values, as `json.loads` gives them and `json.dumps` takes them: an object keeps its keys in order.
use agent_gear.Common.{
  String, Bool, Option, none, some, List, [], ◌∷◌, ◌≡◌, refl, ap, str_eq, if◌then◌else◌,
}
use agent_gear.Floats.{Float}

mutual
  pub data Json : Type 0 where
    null : Json
    boolean : Bool → Json
    number : Float → Json
    text : String → Json
    array : Items → Json
    object : Fields → Json

  pub data Items : Type 0 where
    nothing : Items
    item : Json → Items → Items

  pub data Fields : Type 0 where
    empty : Fields
    field : String → Json → Fields → Fields

-- `entry.get(key)`, where `none` says that the key is not there.
unfoldable pub get : String → Fields → Option Json
get key empty = none
get key (field name value rest) = if str_eq name key then some value else get key rest

unfoldable pub to_list : Items → List Json
to_list nothing = []
to_list (item x rest) = x ∷ to_list rest

unfoldable pub from_list : List Json → Items
from_list [] = nothing
from_list (x ∷ rest) = item x (from_list rest)

pub to_list-from_list : (xs : List Json) → to_list (from_list xs) ≡ xs
unfolding to_list from_list
to_list-from_list [] = refl
to_list-from_list (x ∷ xs) = ap (λ ys. x ∷ ys) (to_list-from_list xs)

-- A list of texts as an array.
unfoldable pub texts : List String → Items
texts [] = nothing
texts (s ∷ rest) = item (text s) (texts rest)

abbrev pub and_text : Json → Option (List String) → Option (List String)
and_text (text s) (some rest) = some (s ∷ rest)
and_text _ _ = none

-- The texts of an array of texts alone.
unfoldable pub strings_of : Items → Option (List String)
strings_of nothing = some []
strings_of (item x rest) = and_text x (strings_of rest)

pub strings_of-texts : (ss : List String) → strings_of (texts ss) ≡ some ss
unfolding strings_of texts
strings_of-texts [] = refl
strings_of-texts (s ∷ ss) = rw (strings_of-texts ss) refl
