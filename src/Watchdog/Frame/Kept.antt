-- ===== src/Watchdog/Frame/Kept.antt =====
-- What a property of the state in memory needs, to be kept by every public method, and what the
-- heartbeats keep of it.
use agent_gear.Common.{ℕ, String, Bool, true, false, Option, none, some, List, ℤ, if◌then◌else◌}
use agent_gear.Errors.{Result, ok, err}
use agent_gear.Errors.Exec.{Exec}
use agent_gear.Errors.Preserves.{Preserves, preserves_rules}
use agent_gear.Floats.{Float}
use agent_gear.Models.{ExecutionState, ProgressSignalKind, RecoveryResult}
use agent_gear.Models.Messages.{Message}
use agent_gear.Models.Records.{Checkpoint, Heartbeat}
use agent_gear.Escalation.{EscalationSignals}
use agent_gear.Watchdog.Work.{
  start_core, advance_core, record_activity_core, record_progress_core, record_escalation_core,
  checkpoint_of, keep_checkpoint, complete_core,
}
use agent_gear.Watchdog.Recovering.{evaluate_core, begin_recovery_core, record_recovery_result_core}
use agent_gear.Watchdog.State.{Core, Watchdog, Persistence}
use agent_gear.Watchdog.Api.{
  on_core, on_disk, emit, settle, write_with, write_heartbeat, retry, sync_heartbeat, append_with,
}
use agent_gear.Watchdog.Frame.{
  IsFramed, start_core-Preserves, advance_core-Preserves, record_activity_core-Preserves,
  record_progress_core-Preserves, record_escalation_core-Preserves, checkpoint_of-Preserves,
  keep_checkpoint-Preserves, complete_core-Preserves,
}
use agent_gear.Watchdog.Frame.Recovering.{
  evaluate_core-Preserves, begin_recovery_core-Preserves, record_recovery_result_core-Preserves,
}

-- A property of the state in memory that the part of every method before its heartbeat keeps.
pub record IsKept (P : Core → Type 0) : Type 0 where
  pub start_keeps :
      (task : String) (at : Float) (tokens : ℤ) (cost : Float)
      → Preserves P (start_core task at tokens cost)
  pub advance_keeps :
      (target : ExecutionState) (at : Float) (note : Message)
      → Preserves P (advance_core target at note)
  pub record_activity_keeps :
      (at : Float) (fingerprint : String) (succeeded is_trivial : Bool) (duration : Float)
      (error : Option String)
      → Preserves P (record_activity_core at fingerprint succeeded is_trivial duration error)
  pub record_progress_keeps :
      (at : Float) (kind : ProgressSignalKind) (description : String)
      → Preserves P (record_progress_core at kind description)
  pub record_escalation_keeps :
      (at : Float) (signals : EscalationSignals) → Preserves P (record_escalation_core at signals)
  pub checkpoint_of_keeps :
      (at : Float) (phase : String) (done pending : List String) (last_good_state : Option String)
      → Preserves P (checkpoint_of at phase done pending last_good_state)
  pub keep_checkpoint_keeps : (cp : Checkpoint) → Preserves P (keep_checkpoint cp)
  pub complete_keeps :
      (at : Float) (evidence : List String) → Preserves P (complete_core at evidence)
  pub evaluate_keeps : (at : Float) → Preserves P (evaluate_core at)
  pub begin_recovery_keeps :
      (at : Float) (reason : String) → Preserves P (begin_recovery_core at reason)
  pub record_recovery_result_keeps :
      (at : Float) (result : RecoveryResult) (resume_state : ExecutionState)
      (evidence : Option String)
      → Preserves P (record_recovery_result_core at result resume_state evidence)

-- The framed properties are such properties.
pub framed-IsKept : {P : Core → Type 0} → IsFramed P → IsKept P
framed-IsKept framed = record {
  start_keeps = start_core-Preserves framed;
  advance_keeps = advance_core-Preserves framed;
  record_activity_keeps = record_activity_core-Preserves framed;
  record_progress_keeps = record_progress_core-Preserves framed;
  record_escalation_keeps = record_escalation_core-Preserves framed;
  checkpoint_of_keeps = checkpoint_of-Preserves framed;
  keep_checkpoint_keeps = keep_checkpoint-Preserves framed;
  complete_keeps = complete_core-Preserves framed;
  evaluate_keeps = evaluate_core-Preserves framed;
  begin_recovery_keeps = begin_recovery_core-Preserves framed;
  record_recovery_result_keeps = record_recovery_result_core-Preserves framed;
}

module _ {Disk : Type 0} (P : Core → Type 0) where
  abbrev pub OnCore : Watchdog Disk → Type 0
  OnCore w = P w.core

  pub on_core-Preserves :
      {A : Type 0} (m : Exec Core A) → Preserves P m → Preserves OnCore (on_core m)
  unfolding on_core
  on_core-Preserves m kept = record { apply = λ w h. kept.apply w.core h }

  on_disk-Preserves : {A : Type 0} (m : Exec Disk A) → Preserves OnCore (on_disk m)
  unfolding on_disk
  on_disk-Preserves m = record { apply = λ w h. h }

  emit-Preserves : (p : Persistence Disk) (r : Result Heartbeat) → Preserves OnCore (emit p r)
  emit-Preserves p (ok heartbeat) = record { apply = (on_disk-Preserves (p.write heartbeat)).apply }
  emit-Preserves p (err e) = record { apply = λ w h. h }

  settle-Preserves : (r : Result (Unit {0})) → Preserves OnCore (settle r)
  settle-Preserves (ok u) = record { apply = λ w h. h }
  settle-Preserves (err e) = record { apply = λ w h. h }

  write_with-Preserves :
      (p : Option (Persistence Disk)) (at : ℕ) → Preserves OnCore (write_with p at)
  write_with-Preserves none at = record { apply = λ w h. h }
  write_with-Preserves (some p) at = record {
    apply = λ w h. (settle-Preserves _).apply _ ((emit-Preserves p _).apply _ h);
  }

  pub write_heartbeat-Preserves : (at : ℕ) → Preserves OnCore (write_heartbeat at)
  unfolding write_heartbeat
  write_heartbeat-Preserves at = record {
    apply = λ w h. (write_with-Preserves w.persistence at).apply w h;
  }

  retry-Preserves :
      (p : Option (Persistence Disk)) (at : Option ℕ) (w : Watchdog Disk)
      → OnCore w
      → OnCore (retry p at w).1
  retry-Preserves none at w h = h
  retry-Preserves (some p) none w h = h
  retry-Preserves (some p) (some at) w h = (write_heartbeat-Preserves at).apply w h

  pub sync_heartbeat-Preserves : (w : Watchdog Disk) → OnCore w → OnCore (sync_heartbeat w).1
  unfolding sync_heartbeat
  sync_heartbeat-Preserves w h =
      elim w.heartbeat_dirty
        as (λ b.
          OnCore (if b then retry w.persistence w.last_heartbeat_at_seconds w else (true, w)).1) [
            | true ↦ retry-Preserves w.persistence w.last_heartbeat_at_seconds w h
            | false ↦ h
          ]

  pub append_with-Preserves :
      (p : Option (Persistence Disk)) (cp : Checkpoint) → Preserves OnCore (append_with p cp)
  append_with-Preserves none cp = search (preserves_rules)
  append_with-Preserves (some p) cp = on_disk-Preserves (p.append cp)
