-- ===== src/Models/Records.antt =====
-- The watchdog's records of models.py, each with a constructor that makes the checks of the record's
-- `__post_init__`.
use agent_gear.Common.{ℕ, String, not, Option, List, ℤ, ltb, all, is_blank}
use agent_gear.Errors.{Result, ok, invalid_observation, invalid_blocked_report, task_profile}
use agent_gear.Errors.Checks.{◌>>=◌, ◌>>◌, raise_if, raise_if_some}
use agent_gear.Floats.{
  Float, require_non_negative_float, require_non_negative_int, require_positive_int,
}
use agent_gear.Models.{ExecutionState, ProgressSignalKind, RecoveryResult, RecoveryEpisodeOutcome}
use agent_gear.Models.Messages.{Message, is_blank_message}

-- `evidence` is an annotation that no code reads, and is left out.
pub record ProgressEvent : Type 0 where
  pub kind : ProgressSignalKind
  pub description : Message
  pub at_seconds : ℕ

unfoldable pub make_progress_event : ProgressSignalKind → Message → Float → Result ProgressEvent
unfolding is_blank_message require_non_negative_float
make_progress_event kind description at = do
  raise_if (is_blank_message description) invalid_observation
  t ← require_non_negative_float invalid_observation at
  ok (record { kind = kind; description = description; at_seconds = t })

pub record Checkpoint : Type 0 where
  pub execution_id : String
  pub phase : String
  pub completed : List String
  pub pending : List String
  pub last_good_state : Option String
  pub at_seconds : ℕ

unfoldable pub make_checkpoint :
    String → String → List String → List String → Option String → Float → Result Checkpoint
unfolding require_non_negative_float
make_checkpoint execution_id phase completed pending last_good_state at = do
  raise_if (is_blank execution_id) invalid_observation
  raise_if (is_blank phase) invalid_observation
  t ← require_non_negative_float invalid_observation at
  raise_if_some is_blank last_good_state invalid_observation
  ok (record {
    execution_id = execution_id;
    phase = phase;
    completed = completed;
    pending = pending;
    last_good_state = last_good_state;
    at_seconds = t;
  })

pub record RecoveryAttempt : Type 0 where
  pub reason : String
  pub strategy : String
  pub attempt_number : ℕ
  pub result : RecoveryResult
  pub at_seconds : ℕ

unfoldable pub make_recovery_attempt :
    String → String → ℤ → RecoveryResult → Float → Result RecoveryAttempt
unfolding require_positive_int require_non_negative_float
make_recovery_attempt reason strategy attempt_number result at = do
  raise_if (is_blank reason) invalid_observation
  raise_if (is_blank strategy) invalid_observation
  n ← require_positive_int invalid_observation attempt_number
  t ← require_non_negative_float invalid_observation at
  ok (record {
    reason = reason;
    strategy = strategy;
    attempt_number = n;
    result = result;
    at_seconds = t;
  })

pub record RecoveryEpisode : Type 0 where
  pub episode_number : ℕ
  pub stall_reason : Message
  pub attempts : List RecoveryAttempt
  pub outcome : RecoveryEpisodeOutcome
  pub opened_at : ℕ
  pub closed_at : ℕ

unfoldable pub make_recovery_episode :
    ℤ
    → Message
    → List RecoveryAttempt
    → RecoveryEpisodeOutcome
    → Float
    → Float
    → Result RecoveryEpisode
unfolding require_positive_int require_non_negative_float
make_recovery_episode episode_number stall_reason attempts outcome opened_at closed_at = do
  n ← require_positive_int task_profile episode_number
  opened ← require_non_negative_float invalid_observation opened_at
  closed ← require_non_negative_float invalid_observation closed_at
  raise_if (ltb closed opened) invalid_observation
  ok (record {
    episode_number = n;
    stall_reason = stall_reason;
    attempts = attempts;
    outcome = outcome;
    opened_at = opened;
    closed_at = closed;
  })

pub record BlockedReport : Type 0 where
  pub blocker : Message
  pub root_cause : Message
  pub last_successful_checkpoint : Option Checkpoint
  pub attempts : ℕ
  pub strategies_tried : List String
  pub evidence : List Message
  pub files_affected : List String
  pub recommended_human_action : Message

unfoldable pub make_blocked_report :
    Message
    → Message
    → Option Checkpoint
    → ℤ
    → List String
    → List Message
    → List String
    → Message
    → Result BlockedReport
unfolding require_non_negative_int
make_blocked_report blocker cause checkpoint attempts strategies evidence files action = do
  raise_if (is_blank_message blocker) invalid_blocked_report
  raise_if (is_blank_message cause) invalid_blocked_report
  n ← require_non_negative_int invalid_blocked_report attempts
  raise_if (not (all (λ s. not (is_blank s)) strategies)) invalid_blocked_report
  raise_if (not (all (λ m. not (is_blank_message m)) evidence)) invalid_blocked_report
  raise_if (not (all (λ s. not (is_blank s)) files)) invalid_blocked_report
  raise_if (is_blank_message action) invalid_blocked_report
  ok (record {
    blocker = blocker;
    root_cause = cause;
    last_successful_checkpoint = checkpoint;
    attempts = n;
    strategies_tried = strategies;
    evidence = evidence;
    files_affected = files;
    recommended_human_action = action;
  })

pub record Heartbeat : Type 0 where
  pub execution_id : String
  pub state : ExecutionState
  pub current_task : String
  pub current_subtask : Option String
  pub last_real_progress_at : ℕ
  pub last_progress_evidence : Option Message
  pub attempt_count : ℕ
  pub current_strategy : Option String
  pub last_error : Option Message
  pub pending_work : List String

unfoldable pub make_heartbeat :
    String
    → ExecutionState
    → String
    → Option String
    → Float
    → Option Message
    → ℤ
    → Option String
    → Option Message
    → List String
    → Result Heartbeat
unfolding require_non_negative_float require_non_negative_int
make_heartbeat execution_id state task subtask progress_at evidence attempts strategy error work =
    do
      raise_if (is_blank execution_id) invalid_observation
      raise_if (is_blank task) invalid_observation
      t ← require_non_negative_float invalid_observation progress_at
      n ← require_non_negative_int invalid_observation attempts
      raise_if_some is_blank subtask invalid_observation
      raise_if_some is_blank_message evidence invalid_observation
      raise_if_some is_blank strategy invalid_observation
      raise_if_some is_blank_message error invalid_observation
      ok (record {
        execution_id = execution_id;
        state = state;
        current_task = task;
        current_subtask = subtask;
        last_real_progress_at = t;
        last_progress_evidence = evidence;
        attempt_count = n;
        current_strategy = strategy;
        last_error = error;
        pending_work = work;
      })
