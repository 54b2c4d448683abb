-- ===== src/Watchdog/DeadEnds.antt =====
-- States of an execution that no public call leaves.
use agent_gear.Common.{
  ℕ, String, ◌≡◌, refl, ◌∙◌, Bool, true, false, not, ◌||◌, Option, none, some, List, ℤ, arith,
}
use agent_gear.Errors.Exec.{Exec, ◌>>=◌}
use agent_gear.Errors.Preserves.{Preserves}
use agent_gear.Floats.{Float}
use agent_gear.Models.{
  ExecutionState, planning, completed, blocked, ProgressSignalKind, RecoveryResult,
}
use agent_gear.Models.Messages.{Message}
use agent_gear.StateMachine.{StateMachine, transition, can_transition, allowed}
use agent_gear.Escalation.{EscalationSignals}
use agent_gear.Watchdog.State.{
  Core, Watchdog, state_of, is_active, checked_active, require_active_state, checked_time,
  commit_time, on_machine,
}
use agent_gear.Watchdog.Work.{
  is_planning, is_some, start_core, advance_core, record_activity_core, record_progress_core,
  record_escalation_core, checkpoint_of, keep_checkpoint, complete_core,
}
use agent_gear.Watchdog.Recovering.{
  is_stalled_state, is_recovering, verdict_at, evaluate_core, begin_recovery_core,
  record_recovery_result_core,
}
use agent_gear.Watchdog.Api.{Event, run}
use agent_gear.Watchdog.Frame.Kept.{IsKept}
use agent_gear.Watchdog.Frame.Runs.{run-Preserves}

-- The execution is blocked, or completed, or back in PLANNING after it was started.
pub data IsDeadEnd (c : Core) : Type 0 where
  at_blocked : state_of c ≡ blocked → IsDeadEnd c
  at_completed : state_of c ≡ completed → IsDeadEnd c
  at_planning : state_of c ≡ planning → is_some c.started_at ≡ true → IsDeadEnd c

-- What the guards of the methods read there.
record IsShut (c : Core) : Type 0 where
  inactive : is_active (state_of c) ≡ false
  begun : (not (is_planning (state_of c)) || is_some c.started_at) ≡ true
  not_stalled : is_stalled_state (state_of c) ≡ false
  not_recovering : is_recovering (state_of c) ≡ false
  not_completing : allowed (state_of c) completed ≡ false

dead_end-IsShut : (c : Core) → IsDeadEnd c → IsShut c
unfolding allowed
dead_end-IsShut c (at_blocked h) = record {
  inactive = rw h;
  begun = rw h;
  not_stalled = rw h;
  not_recovering = rw h;
  not_completing = rw h;
}
dead_end-IsShut c (at_completed h) = record {
  inactive = rw h;
  begun = rw h;
  not_stalled = rw h;
  not_recovering = rw h;
  not_completing = rw h;
}
dead_end-IsShut c (at_planning h k) = record {
  inactive = rw h;
  begun = rw (h, k);
  not_stalled = rw h;
  not_recovering = rw h;
  not_completing = rw h;
}

module _ (c : Core) (shut : IsShut c) where
  start_shut :
      (task : String) (at : Float) (tokens : ℤ) (cost : Float)
      → (start_core task at tokens cost c).1 ≡ c
  unfolding start_core ◌>>=◌
  start_shut task at tokens cost = ground (arith, shut.begun)

  advance_shut :
      (target : ExecutionState) (at : Float) (note : Message)
      → (advance_core target at note c).1 ≡ c
  unfolding advance_core checked_active require_active_state ◌>>=◌
  advance_shut target at note = rw shut.inactive

  activity_shut :
      (at : Float) (fingerprint : String) (succeeded is_trivial : Bool) (duration : Float)
      (error : Option String)
      → (record_activity_core at fingerprint succeeded is_trivial duration error c).1 ≡ c
  unfolding record_activity_core checked_active require_active_state ◌>>=◌
  activity_shut at fingerprint succeeded is_trivial duration error = rw shut.inactive

  progress_shut :
      (at : Float) (kind : ProgressSignalKind) (description : String)
      → (record_progress_core at kind description c).1 ≡ c
  unfolding record_progress_core checked_active require_active_state ◌>>=◌
  progress_shut at kind description = rw shut.inactive

  escalation_shut :
      (at : Float) (signals : EscalationSignals) → (record_escalation_core at signals c).1 ≡ c
  unfolding record_escalation_core checked_active require_active_state ◌>>=◌
  escalation_shut at signals = rw shut.inactive

  checkpoint_shut :
      (at : Float) (phase : String) (done pending : List String) (last_good_state : Option String)
      → (checkpoint_of at phase done pending last_good_state c).1 ≡ c
  unfolding checkpoint_of checked_active require_active_state ◌>>=◌
  checkpoint_shut at phase done pending last_good_state = rw shut.inactive

  begin_shut : (at : Float) (reason : String) → (begin_recovery_core at reason c).1 ≡ c
  unfolding begin_recovery_core checked_time ◌>>=◌
  begin_shut at reason = ground (arith, shut.not_stalled)

  result_shut :
      (at : Float) (result : RecoveryResult) (resume_state : ExecutionState)
      (evidence : Option String)
      → (record_recovery_result_core at result resume_state evidence c).1 ≡ c
  unfolding record_recovery_result_core checked_time ◌>>=◌
  result_shut at result resume_state evidence = ground (arith, shut.not_recovering)

  complete_shut : (at : Float) (evidence : List String) → (complete_core at evidence c).1 ≡ c
  unfolding complete_core checked_time on_machine transition can_transition ◌>>=◌
  complete_shut at evidence = ground (arith, shut.not_completing)

  verdict_shut : (t : ℕ) (started : Option ℕ) → (verdict_at t started c).is_stalled ≡ false
  verdict_shut t none = refl
  verdict_shut t (some s) = rw shut.inactive

  -- No stall is seen there, so `evaluate` moves the clock at most.
  evaluate_shut :
      (at : Float)
      → ((evaluate_core at c).1.machine ≡ c.machine)
        × ((evaluate_core at c).1.started_at ≡ c.started_at)
  unfolding evaluate_core checked_time commit_time ◌>>=◌
  evaluate_shut at = grind (arith, verdict_shut)

-- Where the machine is, and whether the execution was started.
abbrev Standing : StateMachine → Option ℕ → Core → Type 0
Standing m started c = (c.machine ≡ m) × (c.started_at ≡ started)

module _ (c : Core) (shut : IsShut c) where
  still-IsShut : (d : Core) → Standing c.machine c.started_at d → IsShut d
  still-IsShut d h = record {
    inactive = rw h.0 shut.inactive;
    begun = rw (h.0, h.1) shut.begun;
    not_stalled = rw h.0 shut.not_stalled;
    not_recovering = rw h.0 shut.not_recovering;
    not_completing = rw h.0 shut.not_completing;
  }

  -- An action that changes nothing where the guards are shut keeps the standing.
  unmoved {ℓ} :
      {A : Type ℓ} (m : Exec Core A)
      → ((d : Core) → IsShut d → (m d).1 ≡ d)
      → Preserves (Standing c.machine c.started_at) m
  unmoved m same = record { apply = λ d h. rw (same d (still-IsShut d h)) h }

  Standing-IsKept : IsKept (Standing c.machine c.started_at)
  unfolding keep_checkpoint commit_time ◌>>=◌
  Standing-IsKept = record {
    start_keeps = λ task at tokens cost. unmoved _ (λ d s. start_shut d s task at tokens cost);
    advance_keeps = λ target at note. unmoved _ (λ d s. advance_shut d s target at note);
    record_activity_keeps = λ at fingerprint succeeded is_trivial duration error.
        unmoved _ (λ d s. activity_shut d s at fingerprint succeeded is_trivial duration error);
    record_progress_keeps =
        λ at kind description. unmoved _ (λ d s. progress_shut d s at kind description);
    record_escalation_keeps = λ at signals. unmoved _ (λ d s. escalation_shut d s at signals);
    checkpoint_of_keeps = λ at phase done pending last_good_state.
        unmoved _ (λ d s. checkpoint_shut d s at phase done pending last_good_state);
    keep_checkpoint_keeps = λ cp. record { apply = λ d h. h };
    complete_keeps = λ at evidence. unmoved _ (λ d s. complete_shut d s at evidence);
    evaluate_keeps = λ at. record {
      apply =
          λ d h. let same = evaluate_shut d (still-IsShut d h) at in (same.0 ∙ h.0, same.1 ∙ h.1);
    };
    begin_recovery_keeps = λ at reason. unmoved _ (λ d s. begin_shut d s at reason);
    record_recovery_result_keeps = λ at result resume_state evidence.
        unmoved _ (λ d s. result_shut d s at result resume_state evidence);
  }

-- A blocked execution, a completed one, and one that is in PLANNING after it was started, is a dead
-- end: over any disk, any sequence of public calls with any arguments, `begin_recovery` included,
-- leaves its machine as it is.
pub dead_end_final :
    {Disk : Type 0} (w : Watchdog Disk) (es : List Event)
    → IsDeadEnd w.core
    → (run es w).core.machine ≡ w.core.machine
dead_end_final w es h =
    (run-Preserves (Standing-IsKept w.core (dead_end-IsShut w.core h)) es w (refl, refl)).0
