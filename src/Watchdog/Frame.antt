-- ===== src/Watchdog/Frame.antt =====
-- Properties of the machine and of the ledger that every method keeps: those that each transition,
-- each reservation and each commit keeps.
use agent_gear.Common.{ℕ, String, ◌≡◌, refl, Bool, true, false, Option, none, some, List, ℤ}
use agent_gear.Errors.{Error, Result, ok, err}
use agent_gear.Errors.Exec.{Exec, modify, ◌>>=◌}
use agent_gear.Errors.Preserves.{Preserves, preserves_rules}
use agent_gear.Floats.{Float, float_of}
use agent_gear.Models.{
  ModelTier, ReasoningEffort, ExecutionState, RecoveryEpisodeOutcome, ProgressSignalKind,
  RecoveryResult,
}
use agent_gear.Models.Messages.{Message}
use agent_gear.Models.Records.{ProgressEvent, Checkpoint}
use agent_gear.StateMachine.{transition}
use agent_gear.Progress.{record_event}
use agent_gear.Budget.{ReservationKind, reserve, commit}
use agent_gear.Stall.{StallVerdict}
use agent_gear.Escalation.{EscalationSignals, EscalationDecision}
use agent_gear.Watchdog.State.{
  Core, on_machine, on_budget, on_progress, checked_time, checked_active, commit_time,
}
use agent_gear.Watchdog.Episodes.{close_recovery_episode, close_opened, transition_to_blocked}
use agent_gear.Watchdog.Work.{
  charge_initial, start_core, advance_core, record_activity_core, record_progress_core,
  record_escalation_core, apply_escalation, checkpoint_of, keep_checkpoint, complete_core,
}
use agent_gear.Watchdog.Recovering.{
  enter_stall, evaluate_core, give_up, begin_attempt, after_reserve, try_reserve, after_strategy,
  admit_recovery, begin_recovery_core, recover, fail_recovery, resolve_attempt,
  record_recovery_result_core,
}
pub mod Recovering
pub mod Kept
pub mod Runs

-- What a property of the machine and the ledger needs, to be kept by every method.
pub record IsFramed (P : Core → Type 0) : Type 0 where
  pub same : (c d : Core) → d.machine ≡ c.machine → d.budget ≡ c.budget → P c → P d
  pub moves :
      (target : ExecutionState) (at : Float) (evidence : List String) (note : Message)
      → Preserves P (on_machine (transition target at evidence note))
  pub reserves :
      (kind : ReservationKind) (tokens : ℤ) (cost : Float) (label : String)
      → Preserves P (on_budget (reserve kind tokens cost label))
  pub commits : (id : ℕ) → Preserves P (on_budget (commit id))

module _ {P : Core → Type 0} (framed : IsFramed P) where
  pub modify-Preserves :
      (f : Core → Core)
      → ((c : Core) → (f c).machine ≡ c.machine)
      → ((c : Core) → (f c).budget ≡ c.budget)
      → Preserves P (modify f)
  unfolding modify
  modify-Preserves f machine budget = record {
    apply = λ c h. framed.same c (f c) (machine c) (budget c) h;
  }

  pub progress-Preserves : (e : ProgressEvent) → Preserves P (on_progress (record_event e))
  unfolding on_progress
  progress-Preserves e = record { apply = λ c h. framed.same c _ refl refl h }

  pub checked_time-Preserves : (at : Float) → Preserves P (checked_time at)
  unfolding checked_time
  checked_time-Preserves at = record { apply = λ c h. h }

  checked_active-Preserves : Preserves P checked_active
  unfolding checked_active
  checked_active-Preserves = record { apply = λ c h. h }

  charge_initial-Preserves : (tokens : ℤ) (cost : Float) → Preserves P (charge_initial tokens cost)
  unfolding charge_initial
  charge_initial-Preserves tokens cost = search (preserves_rules, framed.reserves, framed.commits)

  pub commit_time-Preserves : (t : ℕ) → Preserves P (modify (commit_time t))
  unfolding commit_time
  commit_time-Preserves t = modify-Preserves _ (λ c. refl) (λ c. refl)

  pub start_core-Preserves :
      (task : String) (at : Float) (tokens : ℤ) (cost : Float)
      → Preserves P (start_core task at tokens cost)
  unfolding start_core
  start_core-Preserves task at tokens cost =
      search
        (
          preserves_rules, checked_time-Preserves, charge_initial-Preserves, commit_time-Preserves,
          framed.moves, modify-Preserves,
        )
        depth 20

  pub advance_core-Preserves :
      (target : ExecutionState) (at : Float) (note : Message)
      → Preserves P (advance_core target at note)
  unfolding advance_core
  advance_core-Preserves target at note =
      search
        (
          preserves_rules, checked_time-Preserves, checked_active-Preserves, commit_time-Preserves,
          framed.moves,
        )
        depth 20

  pub record_activity_core-Preserves :
      (at : Float) (fingerprint : String) (succeeded is_trivial : Bool) (duration : Float)
      (error : Option String)
      → Preserves P (record_activity_core at fingerprint succeeded is_trivial duration error)
  unfolding record_activity_core
  record_activity_core-Preserves at fingerprint succeeded is_trivial duration error =
      search
        (
          preserves_rules, checked_time-Preserves, checked_active-Preserves, commit_time-Preserves,
          modify-Preserves,
        )
        depth 20

  pub record_progress_core-Preserves :
      (at : Float) (kind : ProgressSignalKind) (description : String)
      → Preserves P (record_progress_core at kind description)
  unfolding record_progress_core
  record_progress_core-Preserves at kind description =
      search
        (
          preserves_rules, checked_time-Preserves, checked_active-Preserves, commit_time-Preserves,
          progress-Preserves, modify-Preserves,
        )
        depth 20

  pub apply_escalation-Preserves :
      (d : EscalationDecision) (tier : Option ModelTier) (reasoning : Option ReasoningEffort)
      → Preserves P (apply_escalation d tier reasoning)
  apply_escalation-Preserves d none reasoning = search (preserves_rules)
  apply_escalation-Preserves d (some tier) none = search (preserves_rules)
  apply_escalation-Preserves d (some tier) (some reasoning) =
      search (preserves_rules, framed.reserves, framed.commits, modify-Preserves) depth 20

  pub record_escalation_core-Preserves :
      (at : Float) (signals : EscalationSignals) → Preserves P (record_escalation_core at signals)
  unfolding record_escalation_core
  record_escalation_core-Preserves at signals =
      search
        (
          preserves_rules, checked_time-Preserves, checked_active-Preserves, commit_time-Preserves,
          apply_escalation-Preserves,
        )
        depth 20

  pub checkpoint_of-Preserves :
      (at : Float) (phase : String) (done pending : List String) (last_good_state : Option String)
      → Preserves P (checkpoint_of at phase done pending last_good_state)
  unfolding checkpoint_of
  checkpoint_of-Preserves at phase done pending last_good_state =
      search (preserves_rules, checked_time-Preserves, checked_active-Preserves) depth 20

  pub keep_checkpoint-Preserves : (cp : Checkpoint) → Preserves P (keep_checkpoint cp)
  unfolding keep_checkpoint
  keep_checkpoint-Preserves cp =
      search (preserves_rules, commit_time-Preserves, modify-Preserves) depth 20

  pub complete_core-Preserves :
      (at : Float) (evidence : List String) → Preserves P (complete_core at evidence)
  unfolding complete_core
  complete_core-Preserves at evidence =
      search (preserves_rules, checked_time-Preserves, commit_time-Preserves, framed.moves) depth 20
