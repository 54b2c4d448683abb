-- ===== src/Watchdog/Frame/Runs.antt =====
-- Every call of the public methods keeps such a property, and so does every sequence of calls.
use agent_gear.Common.{String, Bool, Option, List, [], ◌∷◌, ℤ}
use agent_gear.Errors.Preserves.{Preserves, preserves_rules}
use agent_gear.Floats.{Float}
use agent_gear.Models.{ExecutionState, ProgressSignalKind, RecoveryResult}
use agent_gear.Models.Messages.{Message}
use agent_gear.Escalation.{EscalationSignals}
use agent_gear.Watchdog.State.{Core, Watchdog}
use agent_gear.Watchdog.Api.{
  start, advance, evaluate, begin_recovery, record_activity, record_progress,
  record_recovery_result, record_escalation, checkpoint, complete, Event, starting, advancing,
  activity, progress, evaluating, recovering_from, resolving, escalating, checkpointing, completing,
  syncing, after, run,
}
use agent_gear.Watchdog.Frame.Kept.{
  IsKept, OnCore, on_core-Preserves, write_heartbeat-Preserves, sync_heartbeat-Preserves,
  append_with-Preserves,
}

module _ {Disk : Type 0} {P : Core → Type 0} (kept : IsKept P) where
  begin_recovery-Preserves :
      (at : Float) (reason : String) → Preserves (OnCore P) (begin_recovery {Disk = Disk} at reason)
  unfolding begin_recovery
  begin_recovery-Preserves at reason =
      search
        (
          preserves_rules,
          on_core-Preserves {Disk = Disk} P,
          write_heartbeat-Preserves {Disk = Disk} P,
          kept.begin_recovery_keeps,
        )
        depth 20

  evaluate-Preserves : (at : Float) → Preserves (OnCore P) (evaluate {Disk = Disk} at)
  unfolding evaluate
  evaluate-Preserves at =
      search
        (
          preserves_rules,
          on_core-Preserves {Disk = Disk} P,
          write_heartbeat-Preserves {Disk = Disk} P,
          begin_recovery-Preserves,
          kept.evaluate_keeps,
        )
        depth 20

  start-Preserves :
      (task : String) (at : Float) (tokens : ℤ) (cost : Float)
      → Preserves (OnCore P) (start {Disk = Disk} task at tokens cost)
  unfolding start
  start-Preserves task at tokens cost =
      search
        (
          preserves_rules,
          on_core-Preserves {Disk = Disk} P,
          write_heartbeat-Preserves {Disk = Disk} P,
          kept.start_keeps,
        )
        depth 20

  advance-Preserves :
      (target : ExecutionState) (at : Float) (note : Message)
      → Preserves (OnCore P) (advance {Disk = Disk} target at note)
  unfolding advance
  advance-Preserves target at note =
      search
        (
          preserves_rules,
          on_core-Preserves {Disk = Disk} P,
          write_heartbeat-Preserves {Disk = Disk} P,
          kept.advance_keeps,
        )
        depth 20

  record_activity-Preserves :
      (at : Float) (fingerprint : String) (succeeded is_trivial : Bool) (duration : Float)
      (error : Option String)
      → Preserves
          (OnCore P)
          (record_activity {Disk = Disk} at fingerprint succeeded is_trivial duration error)
  unfolding record_activity
  record_activity-Preserves at fingerprint succeeded is_trivial duration error =
      search
        (
          preserves_rules,
          on_core-Preserves {Disk = Disk} P,
          write_heartbeat-Preserves {Disk = Disk} P,
          evaluate-Preserves,
          kept.record_activity_keeps,
        )
        depth 20

  record_progress-Preserves :
      (at : Float) (kind : ProgressSignalKind) (description : String)
      → Preserves (OnCore P) (record_progress {Disk = Disk} at kind description)
  unfolding record_progress
  record_progress-Preserves at kind description =
      search
        (
          preserves_rules,
          on_core-Preserves {Disk = Disk} P,
          write_heartbeat-Preserves {Disk = Disk} P,
          kept.record_progress_keeps,
        )
        depth 20

  record_recovery_result-Preserves :
      (at : Float) (result : RecoveryResult) (resume_state : ExecutionState)
      (evidence : Option String)
      → Preserves (OnCore P) (record_recovery_result {Disk = Disk} at result resume_state evidence)
  unfolding record_recovery_result
  record_recovery_result-Preserves at result resume_state evidence =
      search
        (
          preserves_rules,
          on_core-Preserves {Disk = Disk} P,
          write_heartbeat-Preserves {Disk = Disk} P,
          kept.record_recovery_result_keeps,
        )
        depth 20

  record_escalation-Preserves :
      (at : Float) (signals : EscalationSignals)
      → Preserves (OnCore P) (record_escalation {Disk = Disk} at signals)
  unfolding record_escalation
  record_escalation-Preserves at signals =
      search (preserves_rules, on_core-Preserves {Disk = Disk} P, kept.record_escalation_keeps)
        depth 20

  checkpoint-Preserves :
      (at : Float) (phase : String) (done pending : List String) (last_good_state : Option String)
      → Preserves (OnCore P) (checkpoint {Disk = Disk} at phase done pending last_good_state)
  unfolding checkpoint
  checkpoint-Preserves at phase done pending last_good_state =
      search
        (
          preserves_rules,
          on_core-Preserves {Disk = Disk} P,
          write_heartbeat-Preserves {Disk = Disk} P,
          append_with-Preserves {Disk = Disk} P,
          kept.checkpoint_of_keeps,
          kept.keep_checkpoint_keeps,
        )
        depth 20

  complete-Preserves :
      (at : Float) (evidence : List String)
      → Preserves (OnCore P) (complete {Disk = Disk} at evidence)
  unfolding complete
  complete-Preserves at evidence =
      search
        (
          preserves_rules,
          on_core-Preserves {Disk = Disk} P,
          write_heartbeat-Preserves {Disk = Disk} P,
          kept.complete_keeps,
        )
        depth 20

  pub after-Preserves : (e : Event) (w : Watchdog Disk) → P w.core → P (after e w).core
  unfolding after
  after-Preserves (starting task at tokens cost) w h =
      (start-Preserves task at tokens cost).apply w h
  after-Preserves (advancing target at note) w h = (advance-Preserves target at note).apply w h
  after-Preserves (activity at fingerprint succeeded is_trivial duration error) w h =
      (record_activity-Preserves at fingerprint succeeded is_trivial duration error).apply w h
  after-Preserves (progress at kind description) w h =
      (record_progress-Preserves at kind description).apply w h
  after-Preserves (evaluating at) w h = (evaluate-Preserves at).apply w h
  after-Preserves (recovering_from at reason) w h = (begin_recovery-Preserves at reason).apply w h
  after-Preserves (resolving at result resume_state evidence) w h =
      (record_recovery_result-Preserves at result resume_state evidence).apply w h
  after-Preserves (escalating at signals) w h = (record_escalation-Preserves at signals).apply w h
  after-Preserves (checkpointing at phase done pending last_good_state) w h =
      (checkpoint-Preserves at phase done pending last_good_state).apply w h
  after-Preserves (completing at evidence) w h = (complete-Preserves at evidence).apply w h
  after-Preserves syncing w h = sync_heartbeat-Preserves P w h

  -- A property that every method keeps is true after any sequence of calls that
  -- starts where it is true, also where calls raise and where the disk fails.
  pub run-Preserves : (es : List Event) (w : Watchdog Disk) → P w.core → P (run es w).core
  unfolding run
  run-Preserves [] w h = h
  run-Preserves (e ∷ es) w h = run-Preserves es (after e w) (after-Preserves e w h)
