-- ===== src/Checkpoints/Corruption.antt =====
-- A segment that is not a list of checkpoints.
use agent_gear.Common.{ℕ, ◌≡◌, ◌≢◌, refl, none, some, [], ◌∷◌, get_last?, lookup, arith}
use agent_gear.Errors.{Result, ok, err, corrupt_storage, unicode_decode}
use agent_gear.Errors.Exec.{◌>>=◌}
use agent_gear.Models.Records.{Checkpoint}
use agent_gear.PathSecurity.{validate_persistence_safe_id}
use agent_gear.Checkpoints.{
  Segments, File, document, unparsable, undecodable, segment_numbers, validate_segment, append,
  choose_target, read, read_file, or_quarantine, quarantine, last_or_one,
}

lookup-quarantine_self : (n : ℕ) (s : Segments) → lookup n (quarantine n s) ≡ none
unfolding lookup quarantine
lookup-quarantine_self n [] = refl
lookup-quarantine_self n ((m, f) ∷ s) = ground (arith, lookup-quarantine_self n s)

lookup-quarantine_other : (n k : ℕ) (s : Segments) → k ≢ n → lookup k (quarantine n s) ≡ lookup k s
unfolding lookup quarantine
lookup-quarantine_other n k [] h = refl
lookup-quarantine_other n k ((m, f) ∷ s) h = ground (arith, lookup-quarantine_other n k s h)

-- The file is put aside, and every other one is as it was.
abbrev pub IsPutAside : ℕ → Segments → Result (Unit {0}) × Segments → Type 0
IsPutAside n s (answer, after) =
    (answer ≡ err corrupt_storage)
    × (lookup n after ≡ none)
    × ((k : ℕ) → k ≢ n → lookup k after ≡ lookup k s)

-- What `append` answers for a newest segment that is not a list of checkpoints, and what it leaves.
abbrev pub IsRefused : ℕ → Segments → File → Result (Unit {0}) × Segments → Type 0
IsRefused n s (document d) outcome = IsPutAside n s outcome
IsRefused n s unparsable outcome = IsPutAside n s outcome
IsRefused n s undecodable outcome = outcome ≡ (err unicode_decode, s)

module _ (c : Checkpoint) (s : Segments) (n : ℕ) where
  put_aside :
      (f : File)
      → validate_persistence_safe_id c.execution_id ≡ ok c.execution_id
      → last_or_one (get_last? (segment_numbers s)) ≡ n
      → lookup n s ≡ some f
      → read_file n (some f) s ≡ (err corrupt_storage, quarantine n s)
      → IsPutAside n s (append c s)
  unfolding append choose_target read ◌>>=◌
  put_aside f safe last at refused =
      rw (safe, last, at, refused)
        (refl, lookup-quarantine_self n s, λ k. lookup-quarantine_other n k s)

  -- If the newest segment is not a list of checkpoints, `append` of a checkpoint whose identifier may
  -- name a file appends nothing. Where the segment holds another JSON document or a text that is not
  -- JSON, `append` raises CorruptStorageError, that segment is put aside, and every other one is as it
  -- was. Where its bytes are not a text in UTF-8, `append` raises UnicodeDecodeError, and every segment
  -- is as it was, the damaged one included.
  pub append-corrupt :
      (f : File)
      → validate_persistence_safe_id c.execution_id ≡ ok c.execution_id
      → last_or_one (get_last? (segment_numbers s)) ≡ n
      → lookup n s ≡ some f
      → validate_segment f ≡ none
      → IsRefused n s f (append c s)
  unfolding append choose_target read read_file or_quarantine ◌>>=◌
  append-corrupt (document d) safe last at bad = put_aside (document d) safe last at (rw bad refl)
  append-corrupt unparsable safe last at bad = put_aside unparsable safe last at refl
  append-corrupt undecodable safe last at bad = rw (safe, last, at) refl
