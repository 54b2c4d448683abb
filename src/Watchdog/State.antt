-- ===== src/Watchdog/State.antt =====
-- The fields of `ExecutionWatchdog`, and its checks of time and of the state.
use agent_gear.Common.{ℕ, String, Bool, true, false, not, Option, none, some, List, ltb}
use agent_gear.Errors.{Error, Result, ok, invalid_observation, invalid_state_transition}
use agent_gear.Errors.Checks.{◌>>=◌, ◌>>◌, raise_if}
use agent_gear.Errors.Exec.{Exec, asks, zoom}
use agent_gear.Floats.{Float, require_non_negative_float}
use agent_gear.Models.{ModelTier, ReasoningEffort, ExecutionState, running, testing, reviewing}
use agent_gear.Models.Messages.{Message}
use agent_gear.Models.Records.{
  Checkpoint, RecoveryAttempt, RecoveryEpisode, BlockedReport, Heartbeat,
}
use agent_gear.Config.{Policy}
use agent_gear.StateMachine.{StateMachine}
use agent_gear.Progress.{ProgressTracker}
use agent_gear.Stall.{ActivityRecord}
use agent_gear.Recovery.{LoopGuard}
use agent_gear.Budget.{Ledger}

-- The state in memory, which is the authority on the execution.
pub record Core : Type 0 where
  pub execution_id : String
  pub policy : Policy
  pub tier : ModelTier
  pub reasoning : ReasoningEffort
  pub context_budget_tokens : ℕ
  pub escalations_used : ℕ
  pub machine : StateMachine
  pub progress : ProgressTracker
  pub loop_guard : LoopGuard
  pub budget : Ledger
  pub activities : List ActivityRecord
  pub checkpoints : List Checkpoint
  pub recovery_attempts : List RecoveryAttempt
  pub tried_strategies : List String
  pub episode_number : ℕ
  pub episode_opened_at : Option ℕ
  pub episode_stall_reason : Message
  pub recovery_history : List RecoveryEpisode
  pub blocked_report : Option BlockedReport
  pub started_at : Option ℕ
  pub last_observed_at : Option ℕ
  pub current_task : String
  pub last_progress_evidence : Option Message
  pub last_error : Option Message
  -- the estimate of the plan that `from_plan` was given, in tokens and in cost
  pub planned_initial : Option (ℕ × ℕ)

-- `_heartbeat_writer.write` and `_checkpoint_store.append`: actions on a disk of any type, which may
-- raise.
pub record Persistence (Disk : Type 0) : Type 0 where
  pub write : Heartbeat → Exec Disk (Unit {0})
  pub append : Checkpoint → Exec Disk (Unit {0})

pub record Watchdog (Disk : Type 0) : Type 0 where
  pub core : Core
  pub persistence : Option (Persistence Disk)
  pub disk : Disk
  pub heartbeat_dirty : Bool
  pub heartbeat_sync_error : Option Error
  pub last_heartbeat_at_seconds : Option ℕ

abbrev pub state_of : Core → ExecutionState
state_of c = c.machine.state

-- Runs an action on one of the objects that the watchdog owns.
unfoldable pub on_machine {ℓ} : {A : Type ℓ} → Exec StateMachine A → Exec Core A
unfolding zoom
on_machine = zoom (λ c. c.machine) (λ m c. record c { machine = m })

unfoldable pub on_budget {ℓ} : {A : Type ℓ} → Exec Ledger A → Exec Core A
unfolding zoom
on_budget = zoom (λ c. c.budget) (λ l c. record c { budget = l })

unfoldable pub on_progress {ℓ} : {A : Type ℓ} → Exec ProgressTracker A → Exec Core A
unfolding zoom
on_progress = zoom (λ c. c.progress) (λ p c. record c { progress = p })

-- `state in _ACTIVE_STATES`
abbrev pub is_active : ExecutionState → Bool
is_active running = true
is_active testing = true
is_active reviewing = true
is_active _ = false

-- `last_observed_at is not None and at_seconds < last_observed_at`
abbrev pub is_past : ℕ → Option ℕ → Bool
is_past at none = false
is_past at (some last) = ltb at last

unfoldable pub validate_time : Float → Core → Result ℕ
validate_time at c = do
  t ← require_non_negative_float invalid_observation at
  raise_if (is_past t c.last_observed_at) invalid_observation
  ok t

-- The same, as an action that changes nothing.
unfoldable pub checked_time : Float → Exec Core ℕ
unfolding validate_time asks
checked_time at = asks (validate_time at)

unfoldable pub commit_time : ℕ → Core → Core
commit_time t c = record c { last_observed_at = some t }

unfoldable pub require_active_state : Core → Result (Unit {0})
require_active_state c = raise_if (not (is_active (state_of c))) invalid_state_transition

unfoldable pub checked_active : Exec Core (Unit {0})
unfolding require_active_state asks
checked_active = asks require_active_state
