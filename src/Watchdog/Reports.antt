-- ===== src/Watchdog/Reports.antt =====
-- An execution that is blocked carries its report: ordinary work keeps that.
pub mod Recovering
use agent_gear.Common.{
  ℕ, ◌+◌, ◌≡◌, refl, String, Bool, true, false, not, ◌&&◌, ◌||◌, ◌⊎◌, Option, none, some, List, ℤ,
  arith, pos, Bool-cases, inl, inr, length,
}
use agent_gear.Errors.{Error, Result, ok, err}
use agent_gear.Errors.Exec.{Exec, modify, pure, raise_if, ◌>>=◌, ◌>>◌}
use agent_gear.Errors.Preserves.{
  Preserves, preserves_rules, Leads, lead_first, bind-Preserves, asks-Preserves,
}
use agent_gear.Floats.{Float}
use agent_gear.Models.{
  ModelTier, ReasoningEffort, ExecutionState, blocked, ProgressSignalKind, RecoveryResult, success,
  failure, pending, RecoveryEpisodeOutcome,
}
use agent_gear.Models.Messages.{Message}
use agent_gear.Models.Records.{Checkpoint, RecoveryAttempt}
use agent_gear.Budget.{Ledger, BudgetReservation}
use agent_gear.StateMachine.{StateMachine, transition}
use agent_gear.StateMachine.History.{transition_cases}
use agent_gear.Progress.{ProgressTracker}
use agent_gear.Stall.{StallVerdict}
use agent_gear.Escalation.{EscalationDecision, EscalationSignals}
use agent_gear.Watchdog.State.{
  Core, Watchdog, state_of, on_machine, on_budget, on_progress, checked_time, checked_active,
  commit_time,
}
use agent_gear.Watchdog.Episodes.{
  open_new_recovery_episode, close_recovery_episode, close_opened, transition_to_blocked,
}
use agent_gear.Watchdog.Work.{
  is_some, is_reserved_target, charge_initial, start_core, advance_core, record_activity_core,
  record_progress_core, record_escalation_core, apply_escalation, checkpoint_of, keep_checkpoint,
  complete_core,
}
use agent_gear.Watchdog.Recovering.{
  is_success, can_resume, enter_stall, evaluate_core, give_up, begin_attempt, after_reserve,
  try_reserve, after_strategy, admit_recovery, begin_recovery_core, recover, fail_recovery,
  resolve_attempt, record_recovery_result_core,
}
use agent_gear.Watchdog.Api.{Event, run}
use agent_gear.Watchdog.Frame.Kept.{IsKept}
use agent_gear.Watchdog.Frame.Runs.{run-Preserves}

abbrev pub is_blocked : ExecutionState → Bool
is_blocked blocked = true
is_blocked _ = false

-- The state is not BLOCKED, or there is a report.
abbrev pub IsReported : Core → Type 0
IsReported c = (is_blocked (state_of c) ≡ false) ⊎ (is_some c.blocked_report ≡ true)

pub move-IsReported :
    (target : ExecutionState) (at : Float) (evidence : List String) (note : Message)
    → is_blocked target ≡ false
    → Preserves IsReported (on_machine (transition target at evidence note))
unfolding on_machine
move-IsReported target at evidence note e = record {
  apply = λ c h.
      transition_cases (λ s. (is_blocked s.state ≡ false) ⊎ (is_some c.blocked_report ≡ true))
        (record { target = target; at = at; evidence = evidence; note = note }) c.machine h
        (λ l. inl e);
}

pub budget-IsReported {ℓ} : {A : Type ℓ} (m : Exec Ledger A) → Preserves IsReported (on_budget m)
unfolding on_budget
budget-IsReported m = record { apply = λ c h. h }

pub progress-IsReported {ℓ} :
    {A : Type ℓ} (m : Exec ProgressTracker A) → Preserves IsReported (on_progress m)
unfolding on_progress
progress-IsReported m = record { apply = λ c h. h }

pub time-IsReported : (at : Float) → Preserves IsReported (checked_time at)
unfolding checked_time
time-IsReported at = record { apply = λ c h. h }

pub active-IsReported : Preserves IsReported checked_active
unfolding checked_active
active-IsReported = record { apply = λ c h. h }

pub modify-IsReported :
    (f : Core → Core)
    → ((c : Core) → (f c).machine ≡ c.machine)
    → ((c : Core) → (f c).blocked_report ≡ c.blocked_report)
    → Preserves IsReported (modify f)
unfolding modify
modify-IsReported f same_machine same_report = record {
  apply = λ c h. rw (same_machine c, same_report c) h;
}

pub commit_time-IsReported : (t : ℕ) → Preserves IsReported (modify (commit_time t))
unfolding commit_time
commit_time-IsReported t = modify-IsReported _ (λ c. refl) (λ c. refl)

-- Nothing after a check that raises is run.
pub raised-IsReported {ℓ} :
    {A : Type ℓ} (e : Error) (f : Unit {0} → Exec Core A)
    → Preserves IsReported (raise_if true e >>= f)
unfolding ◌>>=◌ raise_if
raised-IsReported e f = record { apply = λ c h. h }

pub ruleset reported_rules = (
  move-IsReported, budget-IsReported, progress-IsReported, time-IsReported, active-IsReported,
  modify-IsReported, commit_time-IsReported,
)

charge_initial-IsReported :
    (tokens : ℤ) (cost : Float) → Preserves IsReported (charge_initial tokens cost)
unfolding charge_initial
charge_initial-IsReported tokens cost = search (preserves_rules, reported_rules) depth 20

pub start_core-IsReported :
    (task : String) (at : Float) (tokens : ℤ) (cost : Float)
    → Preserves IsReported (start_core task at tokens cost)
unfolding start_core
start_core-IsReported task at tokens cost =
    search (preserves_rules, reported_rules, charge_initial-IsReported) depth 20

pub advance_core-IsReported :
    (target : ExecutionState) (at : Float) (note : Message)
    → Preserves IsReported (advance_core target at note)
unfolding advance_core
advance_core-IsReported target at note = elim (Bool-cases (is_reserved_target target)) [
  | inl e ↦ rw e (search (preserves_rules, reported_rules, raised-IsReported) depth 20)
  | inr e ↦
      let fine : is_blocked target ≡ false = ground (arith, e) in
      search (preserves_rules, reported_rules, fine) depth 20
]

pub record_activity_core-IsReported :
    (at : Float) (fingerprint : String) (succeeded is_trivial : Bool) (duration : Float)
    (error : Option String)
    → Preserves IsReported (record_activity_core at fingerprint succeeded is_trivial duration error)
unfolding record_activity_core
record_activity_core-IsReported at fingerprint succeeded is_trivial duration error =
    search (preserves_rules, reported_rules) depth 20

pub record_progress_core-IsReported :
    (at : Float) (kind : ProgressSignalKind) (description : String)
    → Preserves IsReported (record_progress_core at kind description)
unfolding record_progress_core
record_progress_core-IsReported at kind description =
    search (preserves_rules, reported_rules) depth 20

apply_escalation-IsReported :
    (d : EscalationDecision) (tier : Option ModelTier) (reasoning : Option ReasoningEffort)
    → Preserves IsReported (apply_escalation d tier reasoning)
apply_escalation-IsReported d none reasoning = search (preserves_rules)
apply_escalation-IsReported d (some tier) none = search (preserves_rules)
apply_escalation-IsReported d (some tier) (some reasoning) =
    search (preserves_rules, reported_rules) depth 20

pub record_escalation_core-IsReported :
    (at : Float) (signals : EscalationSignals)
    → Preserves IsReported (record_escalation_core at signals)
unfolding record_escalation_core
record_escalation_core-IsReported at signals =
    search (preserves_rules, reported_rules, apply_escalation-IsReported) depth 20

pub checkpoint_of-IsReported :
    (at : Float) (phase : String) (done left : List String) (last_good_state : Option String)
    → Preserves IsReported (checkpoint_of at phase done left last_good_state)
unfolding checkpoint_of
checkpoint_of-IsReported at phase done left last_good_state =
    search (preserves_rules, reported_rules) depth 20

pub keep_checkpoint-IsReported : (cp : Checkpoint) → Preserves IsReported (keep_checkpoint cp)
unfolding keep_checkpoint
keep_checkpoint-IsReported cp = search (preserves_rules, reported_rules) depth 20

pub complete_core-IsReported :
    (at : Float) (evidence : List String) → Preserves IsReported (complete_core at evidence)
unfolding complete_core
complete_core-IsReported at evidence = search (preserves_rules, reported_rules) depth 20
