-- ===== src/Common/Lists.antt =====
-- Lists measured by native numbers, their last element, and predicates by recursion.
use Prim.Native.Nat.{ℕ, suc, ◌+◌}
use mathlib.Core.Path.{◌≡◌, refl}
use mathlib.Core.Bool.{Bool, true, false, ◌&&◌}
use mathlib.Core.Option.{Option, none, some}
use mathlib.Core.List.{List, [], ◌∷◌, ◌++◌}
use native.Mathlib.Omega.{arith}

module _ {ℓ} {A : Type ℓ} where
  abbrev pub length : List A → ℕ
  length [] = 0
  length (x ∷ xs) = suc (length xs)

  abbrev pub is_empty : List A → Bool
  is_empty [] = true
  is_empty (x ∷ xs) = false

  -- `xs[-1]`, if there is one.
  unfoldable pub get_last? : List A → Option A
  get_last? [] = none
  get_last? (x ∷ []) = some x
  get_last? (x ∷ y ∷ xs) = get_last? (y ∷ xs)

  -- `xs[-1] = v`; nothing is written to an empty list.
  unfoldable pub set_last : A → List A → List A
  set_last v [] = []
  set_last v (x ∷ []) = v ∷ []
  set_last v (x ∷ y ∷ xs) = x ∷ set_last v (y ∷ xs)

  unfoldable pub all : (A → Bool) → List A → Bool
  all p [] = true
  all p (x ∷ xs) = p x && all p xs

  pub length-append : (xs ys : List A) → length (xs ++ ys) ≡ length xs + length ys
  length-append [] ys = omega arith
  length-append (x ∷ xs) ys = omega (arith, length-append xs ys)

  pub get_last?-append_one : (xs : List A) (x : A) → get_last? (xs ++ x ∷ []) ≡ some x
  unfolding get_last?
  get_last?-append_one [] x = refl
  get_last?-append_one (y ∷ []) x = refl
  get_last?-append_one (y ∷ z ∷ xs) x = get_last?-append_one (z ∷ xs) x

  pub length-set_last : (v : A) (xs : List A) → length (set_last v xs) ≡ length xs
  unfolding set_last
  length-set_last v [] = refl
  length-set_last v (x ∷ []) = refl
  length-set_last v (x ∷ y ∷ xs) = omega (arith, length-set_last v (y ∷ xs))

-- A predicate on every element computes to a tuple.
abbrev pub All {ℓ κ} : {A : Type ℓ} → (A → Type κ) → List A → Type κ
All P [] = Unit
All P (x ∷ xs) = P x × All P xs
