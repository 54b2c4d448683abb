-- ===== src/Models/Messages.antt =====
-- The texts that the program builds and keeps: notes of transitions, stall reasons, errors, causes.
-- A message is kept by its parts, since the number formats of its f-string decide nothing; whether
-- the rendered text is blank does, and is computed.
use agent_gear.Common.{ℕ, String, Bool, false, List, is_blank, is_empty}
use agent_gear.Errors.{Error}

-- The entries of `StallVerdict.reasons`, with the values that they print.
pub data StallReason : Type 0 where
  no_progress : ℕ → ℕ → StallReason
  identical_failures : ℕ → String → StallReason
  circular_attempts : String → ℕ → StallReason
  slow_trivial_commands : ℕ → StallReason

-- The entries of the reasons of `LoopGuard.exceeded`, with the counter and its bound, and the reason
-- that `begin_recovery` gives itself.
pub data GuardReason : Type 0 where
  identical_failure_streak no_progress_cycles total_attempts : ℕ → ℕ → GuardReason
  model_escalations recovery_attempts : ℕ → ℕ → GuardReason

pub data Message : Type 0 where
  -- a text of the caller, or a literal
  text : String → Message
  -- f"started: {task}"
  started : String → Message
  -- "; ".join(reasons)
  stall_reasons : List StallReason → Message
  guard_reasons : List GuardReason → Message
  -- f"recovering via {strategy}", f"recovered via …", f"recovery via … failed"
  recovering_via recovered_via recovery_failed : String → Message
  -- f"attempt {number}: {strategy}"
  attempt : ℕ → String → Message
  -- str(exc)
  raised : Error → Message
  -- the three answers of `_default_recommendation`
  recommend_review recommend_human : Message
  recommend_after : List String → Message

-- `not message.strip()` of the rendered message: no format is blank by itself, and a join of no
-- reasons is the empty text.
unfoldable pub is_blank_message : Message → Bool
is_blank_message (text s) = is_blank s
is_blank_message (stall_reasons rs) = is_empty rs
is_blank_message (guard_reasons rs) = is_empty rs
is_blank_message _ = false
