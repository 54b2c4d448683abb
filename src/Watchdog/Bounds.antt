-- ===== src/Watchdog/Bounds.antt =====
-- The bound on recovery attempts: ordinary work keeps it.
pub mod Attempts
pub mod Recovering
use agent_gear.Common.{
  ℕ, ◌+◌, ◌<◌, ◌≤◌, ◌≡◌, refl, String, Bool, true, false, not, ◌||◌, Option, none, some, List, ℤ,
  arith, pos, Bool-cases, inl, inr, length,
}
use agent_gear.Errors.{Error, Result, ok, err}
use agent_gear.Errors.Exec.{Exec, modify, pure, ◌>>=◌, ◌>>◌}
use agent_gear.Errors.Preserves.{
  Preserves, preserves_rules, Leads, lead_weaken, lead_first, lead_after,
}
use agent_gear.Floats.{Float}
use agent_gear.Config.{Policy}
use agent_gear.Models.{
  ModelTier, ReasoningEffort, ExecutionState, ProgressSignalKind, RecoveryResult,
  RecoveryEpisodeOutcome,
}
use agent_gear.Models.Messages.{Message}
use agent_gear.Models.Records.{ProgressEvent, Checkpoint, RecoveryAttempt}
use agent_gear.Budget.{Ledger, BudgetReservation}
use agent_gear.StateMachine.{StateMachine}
use agent_gear.Progress.{ProgressTracker}
use agent_gear.Stall.{StallVerdict}
use agent_gear.Escalation.{EscalationDecision, EscalationSignals}
use agent_gear.Recovery.{
  exceeded, can_start_recovery_attempt, record_recovery_attempt_started, record_attempt,
  record_identical_failure, record_no_progress_cycle, guard_progress, guard_escalation,
  start_new_recovery_episode, next_strategy,
}
use agent_gear.Watchdog.State.{
  Core, Watchdog, Persistence, on_machine, on_budget, on_progress, checked_time, checked_active,
  commit_time,
}
use agent_gear.Watchdog.Episodes.{
  open_new_recovery_episode, close_recovery_episode, close_opened, transition_to_blocked,
}
use agent_gear.Watchdog.Work.{
  charge_initial, start_core, advance_core, record_activity_core, record_progress_core,
  record_escalation_core, apply_escalation, checkpoint_of, keep_checkpoint, complete_core, new_core,
}
use agent_gear.Watchdog.Recovering.{
  enter_stall, evaluate_core, give_up, begin_attempt, after_reserve, try_reserve, after_strategy,
  admit_recovery, begin_recovery_core, recover, fail_recovery, resolve_attempt,
  record_recovery_result_core, bound_reasons,
}
use agent_gear.Watchdog.Api.{Event, over, run}
use agent_gear.Watchdog.Frame.Kept.{IsKept}
use agent_gear.Watchdog.Frame.Runs.{run-Preserves}

-- The guard has counted every attempt that the episode has recorded, and its count is within the bound
-- of the policy.
abbrev pub IsBounded : Core → Type 0
IsBounded c =
    (length c.recovery_attempts ≤ c.loop_guard.recovery_attempts)
    × (c.loop_guard.recovery_attempts ≤ c.loop_guard.policy.max_recovery_attempts)

-- An action on the machine, on the ledger or on the progress log leaves the guard.
pub machine-IsBounded {ℓ} :
    {A : Type ℓ} (m : Exec StateMachine A) → Preserves IsBounded (on_machine m)
unfolding on_machine
machine-IsBounded m = record { apply = λ c h. h }

pub budget-IsBounded {ℓ} : {A : Type ℓ} (m : Exec Ledger A) → Preserves IsBounded (on_budget m)
unfolding on_budget
budget-IsBounded m = record { apply = λ c h. h }

pub progress-IsBounded {ℓ} :
    {A : Type ℓ} (m : Exec ProgressTracker A) → Preserves IsBounded (on_progress m)
unfolding on_progress
progress-IsBounded m = record { apply = λ c h. h }

pub time-IsBounded : (at : Float) → Preserves IsBounded (checked_time at)
unfolding checked_time
time-IsBounded at = record { apply = λ c h. h }

pub active-IsBounded : Preserves IsBounded checked_active
unfolding checked_active
active-IsBounded = record { apply = λ c h. h }

pub modify-IsBounded :
    (f : Core → Core)
    → ((c : Core) → (f c).loop_guard.recovery_attempts ≡ c.loop_guard.recovery_attempts)
    → ((c : Core) → (f c).loop_guard.policy ≡ c.loop_guard.policy)
    → ((c : Core) → (f c).recovery_attempts ≡ c.recovery_attempts)
    → Preserves IsBounded (modify f)
unfolding modify
modify-IsBounded f same_count same_policy same_attempts = record {
  apply = λ c h. rw (same_count c, same_policy c, same_attempts c) h;
}

pub commit_time-IsBounded : (t : ℕ) → Preserves IsBounded (modify (commit_time t))
unfolding commit_time
commit_time-IsBounded t = modify-IsBounded _ (λ c. refl) (λ c. refl) (λ c. refl)

pub ruleset bounded_rules = (
  machine-IsBounded, budget-IsBounded, progress-IsBounded, time-IsBounded, active-IsBounded,
  modify-IsBounded, commit_time-IsBounded,
)

charge_initial-IsBounded :
    (tokens : ℤ) (cost : Float) → Preserves IsBounded (charge_initial tokens cost)
unfolding charge_initial
charge_initial-IsBounded tokens cost = search (preserves_rules, bounded_rules) depth 20

pub start_core-IsBounded :
    (task : String) (at : Float) (tokens : ℤ) (cost : Float)
    → Preserves IsBounded (start_core task at tokens cost)
unfolding start_core
start_core-IsBounded task at tokens cost =
    search (preserves_rules, bounded_rules, charge_initial-IsBounded) depth 20

pub advance_core-IsBounded :
    (target : ExecutionState) (at : Float) (note : Message)
    → Preserves IsBounded (advance_core target at note)
unfolding advance_core
advance_core-IsBounded target at note = search (preserves_rules, bounded_rules) depth 20

pub record_activity_core-IsBounded :
    (at : Float) (fingerprint : String) (succeeded is_trivial : Bool) (duration : Float)
    (error : Option String)
    → Preserves IsBounded (record_activity_core at fingerprint succeeded is_trivial duration error)
unfolding record_activity_core record_attempt record_identical_failure
record_activity_core-IsBounded at fingerprint succeeded is_trivial duration error =
    search (preserves_rules, bounded_rules) depth 20

pub record_progress_core-IsBounded :
    (at : Float) (kind : ProgressSignalKind) (description : String)
    → Preserves IsBounded (record_progress_core at kind description)
unfolding record_progress_core guard_progress
record_progress_core-IsBounded at kind description =
    search (preserves_rules, bounded_rules) depth 20

apply_escalation-IsBounded :
    (d : EscalationDecision) (tier : Option ModelTier) (reasoning : Option ReasoningEffort)
    → Preserves IsBounded (apply_escalation d tier reasoning)
unfolding guard_escalation
apply_escalation-IsBounded d none reasoning = search (preserves_rules)
apply_escalation-IsBounded d (some tier) none = search (preserves_rules)
apply_escalation-IsBounded d (some tier) (some reasoning) =
    search (preserves_rules, bounded_rules) depth 20

pub record_escalation_core-IsBounded :
    (at : Float) (signals : EscalationSignals)
    → Preserves IsBounded (record_escalation_core at signals)
unfolding record_escalation_core
record_escalation_core-IsBounded at signals =
    search (preserves_rules, bounded_rules, apply_escalation-IsBounded) depth 20

pub checkpoint_of-IsBounded :
    (at : Float) (phase : String) (done pending : List String) (last_good_state : Option String)
    → Preserves IsBounded (checkpoint_of at phase done pending last_good_state)
unfolding checkpoint_of
checkpoint_of-IsBounded at phase done pending last_good_state =
    search (preserves_rules, bounded_rules) depth 20

pub keep_checkpoint-IsBounded : (cp : Checkpoint) → Preserves IsBounded (keep_checkpoint cp)
unfolding keep_checkpoint
keep_checkpoint-IsBounded cp = search (preserves_rules, bounded_rules) depth 20

pub complete_core-IsBounded :
    (at : Float) (evidence : List String) → Preserves IsBounded (complete_core at evidence)
unfolding complete_core
complete_core-IsBounded at evidence = search (preserves_rules, bounded_rules) depth 20
