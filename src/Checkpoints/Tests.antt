-- ===== src/Checkpoints/Tests.antt =====
-- Checkpoints of one execution, and a directory of one segment.
use agent_gear.Common.{
  ◌≡◌, refl, none, some, [], ◌∷◌, get_last?, lookup, ◌++◌, insert, arith, is_blank,
}
use agent_gear.Errors.{ok}
use agent_gear.Floats.{float_of, require_non_negative_float}
use agent_gear.Models.Records.{Checkpoint, make_checkpoint}
use agent_gear.PathSecurity.{validate_persistence_safe_id, text_length, has_illegal}
use agent_gear.Checkpoints.{
  Segments, read, unparsable, append, to_dict, construct_entry, choose_target, update,
  all_checkpoints, latest, segment_numbers, insert_sorted, last_or_one, validate_segment,
}
use agent_gear.Checkpoints.Codec.{construct_entry-roundtrip}
use agent_gear.Checkpoints.Layout.{Blocks, layout}
use agent_gear.Checkpoints.Packing.{concat, IsPacked}
use agent_gear.Checkpoints.History.{IsStorable, append_all, append_all-IsHistory}
use agent_gear.Checkpoints.Corruption.{IsPutAside, append-corrupt}
use agent_gear.Checkpoints.Locking.{
  System, Reach, here, next, beginning, acquire, choose, write, with_phase, entered, chosen,
  written,
}
use agent_gear.Checkpoints.Interleaving.{interleaved-IsPacked}

abbrev first : Checkpoint
first = record {
  execution_id = "run-1";
  phase = "build";
  completed = "parse" ∷ [];
  pending = "link" ∷ [];
  last_good_state = some "abc";
  at_seconds = 5;
}

abbrev second : Checkpoint
second = record first { phase = "test"; last_good_state = none; at_seconds = 9 }

first-IsStorable : IsStorable first
unfolding validate_persistence_safe_id is_blank text_length has_illegal
first-IsStorable = ((refl, refl, refl), refl)

second-IsStorable : IsStorable second
unfolding validate_persistence_safe_id is_blank text_length has_illegal
second-IsStorable = ((refl, refl, refl), refl)

construct_entry-roundtrip_example : construct_entry (to_dict first) ≡ some first
unfolding make_checkpoint require_non_negative_float is_blank
construct_entry-roundtrip_example =
    construct_entry-roundtrip "run-1" "build" ("parse" ∷ []) ("link" ∷ []) (some "abc") (float_of 5)
      first refl

append_all-IsHistory_example :
    (blocks : Blocks) × (append_all (first ∷ second ∷ []) [] ≡ (ok tt, layout 1 blocks))
    × IsPacked blocks
    × (all_checkpoints (layout 1 blocks) ≡ (ok (first ∷ second ∷ []), layout 1 blocks))
    × (latest (layout 1 blocks) ≡ (ok (get_last? (first ∷ second ∷ [])), layout 1 blocks))
append_all-IsHistory_example =
    append_all-IsHistory (first ∷ second ∷ []) (first-IsStorable, (second-IsStorable, tt))
      (omega arith)

abbrev damaged : Segments
damaged = (1, unparsable) ∷ []

damaged_target : last_or_one (get_last? (segment_numbers damaged)) ≡ 1
unfolding get_last? segment_numbers insert_sorted
damaged_target = refl

damaged_found : lookup 1 damaged ≡ some unparsable
unfolding lookup
damaged_found = refl

damaged_refused : validate_segment unparsable ≡ none
unfolding validate_segment
damaged_refused = refl

append-corrupt_example : IsPutAside 1 damaged (append first damaged)
append-corrupt_example =
    append-corrupt first damaged 1 unparsable first-IsStorable.1 damaged_target damaged_found
      damaged_refused

-- Process 0 takes the lock, chooses segment 1, and writes it.
abbrev after_lock : System
after_lock = record beginning {
  holder = some 0;
  phase = with_phase 0 (entered first) beginning.phase;
}

abbrev after_choice : System
after_choice = record after_lock {
  disk = [];
  phase = with_phase 0 (chosen first 1) after_lock.phase;
}

abbrev after_write : System
after_write = record after_choice {
  disk = layout 1 ((first ∷ []) ∷ []);
  phase = with_phase 0 written after_choice.phase;
  history = [] ++ first ∷ [];
}

first_choice : choose_target [] ≡ (ok 1, [])
unfolding choose_target segment_numbers get_last? lookup
first_choice = refl

first_write : update 1 first [] ≡ (ok tt, layout 1 ((first ∷ []) ∷ []))
unfolding update lookup insert layout read
first_write = refl

after_write-reached : Reach after_write
after_write-reached =
    next after_choice after_write
      (next after_lock after_choice
        (next beginning after_lock here (acquire beginning 0 first refl refl first-IsStorable.0))
        (choose after_lock 0 first 1 [] refl first_choice))
      (write after_choice 0 first 1 (layout 1 ((first ∷ []) ∷ [])) refl first_write)

interleaved-IsPacked_example :
    (blocks : Blocks) × (after_write.disk ≡ layout 1 blocks)
    × IsPacked blocks
    × (concat blocks ≡ after_write.history)
interleaved-IsPacked_example = interleaved-IsPacked after_write after_write-reached (omega arith)
