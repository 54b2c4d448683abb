-- ===== src/Checkpoints.antt =====
-- checkpoints.py, with the part of safe_json_store.py that it stands on: the segments of one execution.
-- An object that is not a checkpoint makes `_construct_entry` raise ValueError, which is `none` here.
pub mod Codec
pub mod Layout
pub mod Appending
pub mod Packing
pub mod History
pub mod Corruption
pub mod Locking
pub mod Interleaving
mod Tests
use agent_gear.Common.{
  ℕ, zero, suc, ◌+◌, String, Bool, true, false, not, ◌&&◌, Option, none, some, List, [], ◌∷◌, ◌++◌,
  leb, ltb, length, is_empty, all, get_last?, map, reverse, Dict, lookup, insert, if◌then◌else◌,
}
use agent_gear.Errors.{Error, Result, ok, err, corrupt_storage, unicode_decode}
use agent_gear.Errors.Exec.{Exec, pure, raise, gets, modify, lift, ◌>>=◌, ◌>>◌}
use agent_gear.Floats.{Float, float_of}
use agent_gear.Models.Records.{Checkpoint, make_checkpoint}
use agent_gear.Json.{
  Json, null, number, text, array, object, Fields, empty, field, get, to_list, from_list, texts,
  strings_of,
}
use agent_gear.PathSecurity.{validate_persistence_safe_id}

abbrev pub optional_text : Option String → Json
optional_text none = null
optional_text (some s) = text s

-- `_to_dict`
unfoldable pub to_dict : Checkpoint → Json
unfolding texts
to_dict c = object (
    field "execution_id" (text c.execution_id) (
      field "phase" (text c.phase) (
        field "completed" (array (texts c.completed)) (
          field "pending" (array (texts c.pending)) (
            field "last_good_state" (optional_text c.last_good_state)
              (field "at_seconds" (number (float_of c.at_seconds)) empty))))))

abbrev pub and_then {ℓ κ} : {A : Type ℓ} {B : Type κ} → Option A → (A → Option B) → Option B
and_then none f = none
and_then (some a) f = f a

-- A required text.
abbrev pub text_of : Option Json → Option String
text_of (some (text s)) = some s
text_of _ = none

-- A list of texts, which may be missing.
abbrev pub strings_or_none : Option Json → Option (List String)
strings_or_none none = some []
strings_or_none (some (array items)) = strings_of items
strings_or_none _ = none

-- A text or null, which may be missing.
abbrev pub optional_of : Option Json → Option (Option String)
optional_of none = some none
optional_of (some null) = some none
optional_of (some (text s)) = some (some s)
optional_of _ = none

-- A number, or zero where it is missing.
abbrev pub number_of : Option Json → Option Float
number_of none = some (float_of 0)
number_of (some (number f)) = some f
number_of _ = none

-- What the constructor returns; its exception becomes a ValueError.
abbrev pub returned {ℓ} : {A : Type ℓ} → Result A → Option A
returned (ok a) = some a
returned (err e) = none

-- `_construct_entry`
unfoldable pub construct_entry : Json → Option Checkpoint
unfolding get strings_of make_checkpoint
construct_entry (object entry) = and_then (text_of (get "execution_id" entry)) λ execution_id.
    and_then (text_of (get "phase" entry)) λ phase.
      and_then (strings_or_none (get "completed" entry)) λ completed.
        and_then (strings_or_none (get "pending" entry)) λ pending.
          and_then (optional_of (get "last_good_state" entry)) λ last_good_state.
            and_then (number_of (get "at_seconds" entry)) λ at.
              returned (make_checkpoint execution_id phase completed pending last_good_state at)
construct_entry _ = none

abbrev pub and_entry : Option Checkpoint → Option (List Checkpoint) → Option (List Checkpoint)
and_entry (some c) (some rest) = some (c ∷ rest)
and_entry _ _ = none

-- The entries of a segment, if each is a checkpoint.
unfoldable pub construct_entries : List Json → Option (List Checkpoint)
unfolding construct_entry
construct_entries [] = some []
construct_entries (x ∷ rest) = and_entry (construct_entry x) (construct_entries rest)

-- What a file holds: a JSON document, a text that is not JSON, or bytes that are not a text in UTF-8.
pub data File : Type 0 where
  document : Json → File
  unparsable undecodable : File

-- The segment files of one execution, by their numbers, in the order of the directory.
abbrev pub Segments : Type 0
Segments = Dict File

abbrev pub if_constructed : List Json → Option (List Checkpoint) → Option (List Json)
if_constructed entries none = none
if_constructed entries (some cs) = some entries

-- `_validate_segment_schema`, which returns the document when each entry is a checkpoint
unfoldable pub validate_segment : File → Option (List Json)
unfolding construct_entries to_list
validate_segment (document (array items)) =
    if_constructed (to_list items) (construct_entries (to_list items))
validate_segment _ = none

-- `_SEGMENT_CAPACITY`
abbrev pub segment_capacity : ℕ
segment_capacity = 100

-- The name has six digits.
abbrev pub is_numbered : ℕ → Bool
is_numbered n = leb n 999999

unfoldable pub insert_sorted : ℕ → List ℕ → List ℕ
insert_sorted n [] = n ∷ []
insert_sorted n (m ∷ rest) = if leb n m then n ∷ m ∷ rest else m ∷ insert_sorted n rest

-- `_segment_numbers`: the numbers of the names that the pattern accepts, sorted.
unfoldable pub segment_numbers : Segments → List ℕ
unfolding insert_sorted
segment_numbers [] = []
segment_numbers ((n, f) ∷ rest) =
    let numbers = segment_numbers rest in if is_numbered n then insert_sorted n numbers else numbers

-- The file is renamed, so that the store no longer sees it.
unfoldable pub quarantine : ℕ → Segments → Segments
quarantine n [] = []
quarantine n ((m, f) ∷ rest) =
    let others = quarantine n rest in if leb n m && leb m n then others else (m, f) ∷ others

-- A value that was found valid; or else the file goes, and CorruptStorageError is raised.
unfoldable pub or_quarantine {ℓ} : {A : Type ℓ} → ℕ → Option A → Exec Segments A
unfolding quarantine
or_quarantine n none s = (err corrupt_storage, quarantine n s)
or_quarantine n (some a) s = (ok a, s)

-- The bytes are decoded outside of the `try`, so that UnicodeDecodeError goes through and the file stays.
unfoldable pub read_file : ℕ → Option File → Exec Segments (Option (List Json))
unfolding or_quarantine validate_segment ◌>>=◌
read_file n none = pure none
read_file n (some undecodable) = raise unicode_decode
read_file n (some f) = or_quarantine n (validate_segment f) >>= λ entries. pure (some entries)

-- `SafeJsonStore.read`: `none` where the file is missing.
unfoldable pub read : ℕ → Exec Segments (Option (List Json))
unfolding read_file lookup
read n s = read_file n (lookup n s) s

abbrev pub or_nothing : Option (List Json) → List Json
or_nothing none = []
or_nothing (some entries) = entries

-- `SafeJsonStore.update` with the mutator of `append`: the write replaces the whole file.
unfoldable pub update : ℕ → Checkpoint → Exec Segments (Unit {0})
unfolding to_dict from_list ◌>>=◌
update n c = do
  current ← read n
  modify (insert n (document (array (from_list (or_nothing current ++ to_dict c ∷ [])))))

-- `numbers[-1] if numbers else 1`
abbrev pub last_or_one : Option ℕ → ℕ
last_or_one none = 1
last_or_one (some n) = n

-- The segment that takes the next checkpoint: the newest, or a new one where that is full.
unfoldable pub choose_target : Exec Segments ℕ
unfolding segment_numbers read get_last? ◌>>=◌
choose_target = do
  target ← gets (λ s. last_or_one (get_last? (segment_numbers s)))
  current ← read target
  pure (if leb segment_capacity (length (or_nothing current)) then suc target else target)

-- `append`, which holds the lock of the execution from the choice of its target to its end
unfoldable pub append : Checkpoint → Exec Segments (Unit {0})
unfolding choose_target update validate_persistence_safe_id ◌>>=◌
append c = do
  lift (validate_persistence_safe_id c.execution_id)
  target ← choose_target
  update target c

-- The entries of a document that was read; one that is no checkpoint puts the file in quarantine.
unfoldable pub entries_of : ℕ → List Json → Exec Segments (List Checkpoint)
unfolding construct_entries or_quarantine
entries_of n entries = or_quarantine n (construct_entries entries)

unfoldable pub load : List ℕ → Exec Segments (List Checkpoint)
unfolding read entries_of ◌>>=◌
load [] = pure []
load (n ∷ rest) = do
  data_read ← read n
  cs ← entries_of n (or_nothing data_read)
  more ← load rest
  pure (cs ++ more)

-- `all`
unfoldable pub all_checkpoints : Exec Segments (List Checkpoint)
unfolding segment_numbers load
all_checkpoints s = load (segment_numbers s) s

abbrev pub first_or {ℓ} :
    {A : Type ℓ} → Option A → Exec Segments (Option A) → Exec Segments (Option A)
first_or none rest = rest
first_or (some a) rest = pure (some a)

-- The last checkpoint of the first of these segments that has one.
unfoldable pub find_latest : List ℕ → Exec Segments (Option Checkpoint)
unfolding read entries_of get_last? ◌>>=◌
find_latest [] = pure none
find_latest (n ∷ rest) = do
  data_read ← read n
  cs ← entries_of n (or_nothing data_read)
  first_or (get_last? cs) (find_latest rest)

-- `latest`, which begins with the newest segment
unfoldable pub latest : Exec Segments (Option Checkpoint)
unfolding segment_numbers find_latest
latest s = find_latest (reverse (segment_numbers s)) s
