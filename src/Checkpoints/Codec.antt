-- ===== src/Checkpoints/Codec.antt =====
-- A checkpoint through JSON and back.
use mathlib.Core.Path.{subst}
use agent_gear.Common.{
  String, Bool, true, false, Option, none, some, List, [], ◌∷◌, ◌≡◌, refl, All, map, is_blank, not,
  arith,
}
use agent_gear.Errors.{ok, invalid_observation}
use agent_gear.Errors.Checks.{Yields, Yields-bind, ok_injective, raise_if, raise_if_some}
use agent_gear.Floats.{Float, float_of, require_non_negative_float}
use agent_gear.Models.Records.{Checkpoint, make_checkpoint}
use agent_gear.Json.{get, strings_of-texts, from_list, to_list-from_list, array}
use agent_gear.Checkpoints.{
  document, optional_of, optional_text, to_dict, construct_entry, construct_entries, File,
  validate_segment,
}

abbrev pub is_filled : Option String → Bool
is_filled none = true
is_filled (some s) = not (is_blank s)

-- What the constructor of a checkpoint checks.
abbrev pub IsCheckpoint : Checkpoint → Type 0
IsCheckpoint c =
    (is_blank c.execution_id ≡ false)
    × (is_blank c.phase ≡ false)
    × (is_filled c.last_good_state ≡ true)

filled_accepted :
    (o : Option String) → is_filled o ≡ true → raise_if_some is_blank o invalid_observation ≡ ok tt
filled_accepted none h = refl
filled_accepted (some s) h = ground arith

optional_of-optional_text : (o : Option String) → optional_of (some (optional_text o)) ≡ some o
optional_of-optional_text none = refl
optional_of-optional_text (some s) = refl

pub make_checkpoint-valid :
    (c : Checkpoint)
    → IsCheckpoint c
    → make_checkpoint c.execution_id c.phase c.completed c.pending c.last_good_state
        (float_of c.at_seconds)
      ≡ ok c
unfolding make_checkpoint require_non_negative_float
make_checkpoint-valid c (named, phased, filled) =
    rw (named, phased, filled_accepted c.last_good_state filled) refl

pub construct_entry-to_dict :
    (c : Checkpoint) → IsCheckpoint c → construct_entry (to_dict c) ≡ some c
unfolding construct_entry to_dict get
construct_entry-to_dict c h =
    rw
      (
        strings_of-texts c.completed,
        strings_of-texts c.pending,
        optional_of-optional_text c.last_good_state,
        make_checkpoint-valid c h,
      )
      refl

-- The document of a segment.
abbrev pub segment : List Checkpoint → File
segment cs = document (array (from_list (map to_dict cs)))

pub construct_entries-to_dict :
    (cs : List Checkpoint) → All IsCheckpoint cs → construct_entries (map to_dict cs) ≡ some cs
unfolding construct_entries
construct_entries-to_dict [] h = refl
construct_entries-to_dict (c ∷ cs) (h, hs) =
    rw (construct_entry-to_dict c h, construct_entries-to_dict cs hs) refl

pub validate_segment-segment :
    (cs : List Checkpoint)
    → All IsCheckpoint cs
    → validate_segment (segment cs) ≡ some (map to_dict cs)
unfolding validate_segment
validate_segment-segment cs h =
    rw (to_list-from_list (map to_dict cs), construct_entries-to_dict cs h) refl

filled_of :
    (o : Option String) → raise_if_some is_blank o invalid_observation ≡ ok tt → is_filled o ≡ true
filled_of none h = refl
filled_of (some s) h = ground arith

named_of : (s : String) → raise_if (is_blank s) invalid_observation ≡ ok tt → is_blank s ≡ false
named_of s h = ground arith

make_checkpoint-IsCheckpoint :
    (execution_id phase : String) (completed pending : List String)
    (last_good_state : Option String) (at : Float)
    → Yields IsCheckpoint (make_checkpoint execution_id phase completed pending last_good_state at)
unfolding make_checkpoint
make_checkpoint-IsCheckpoint execution_id phase completed pending last_good_state at =
    Yields-bind IsCheckpoint (raise_if (is_blank execution_id) invalid_observation) _ λ _ n.
      Yields-bind IsCheckpoint (raise_if (is_blank phase) invalid_observation) _ λ _ p.
        Yields-bind IsCheckpoint (require_non_negative_float invalid_observation at) _ λ _ _.
          Yields-bind IsCheckpoint (raise_if_some is_blank last_good_state invalid_observation) _
            λ _ l. λ q e.
              subst IsCheckpoint (ok_injective _ q e)
                (named_of execution_id n, named_of phase p, filled_of last_good_state l)

-- Reading back what `_to_dict` writes for any checkpoint that its constructor returned gives that
-- checkpoint.
pub construct_entry-roundtrip :
    (execution_id phase : String) (completed pending : List String)
    (last_good_state : Option String) (at : Float) (c : Checkpoint)
    → make_checkpoint execution_id phase completed pending last_good_state at ≡ ok c
    → construct_entry (to_dict c) ≡ some c
construct_entry-roundtrip execution_id phase completed pending last_good_state at c h =
    construct_entry-to_dict c
      (make_checkpoint-IsCheckpoint execution_id phase completed pending last_good_state at c h)
