-- ===== src/Watchdog/Api.antt =====
-- The public methods: each works on the state in memory, and then mirrors it to the heartbeat file.
use agent_gear.Common.{
  ℕ, String, Bool, true, false, Option, none, some, List, [], ◌∷◌, ℤ, pos, length, get_last?,
  if◌then◌else◌,
}
use agent_gear.Errors.{Result, ok, err}
use agent_gear.Errors.Exec.{Exec, pure, gets, zoom, ◌>>=◌, ◌>>◌}
use agent_gear.Floats.{Float, float_of}
use agent_gear.Models.{ExecutionState, ProgressSignalKind, RecoveryResult}
use agent_gear.Models.Messages.{Message}
use agent_gear.Models.Records.{Checkpoint, RecoveryAttempt, Heartbeat, make_heartbeat}
use agent_gear.Escalation.{EscalationSignals}
use agent_gear.Progress.{last_progress_at}
use agent_gear.Watchdog.State.{Core, Watchdog, Persistence, state_of}
use agent_gear.Watchdog.Work.{
  start_core, advance_core, record_activity_core, record_progress_core, record_escalation_core,
  checkpoint_of, keep_checkpoint, complete_core,
}
use agent_gear.Watchdog.Recovering.{evaluate_core, begin_recovery_core, record_recovery_result_core}

abbrev pub or_else {ℓ} : {A : Type ℓ} → Option A → A → A
or_else none d = d
or_else (some a) d = a

abbrev pub pending_of : Option Checkpoint → List String
pending_of none = []
pending_of (some cp) = cp.pending

-- The heartbeat that `_write_heartbeat` builds from the state in memory.
unfoldable pub heartbeat_of : ℕ → Core → Result Heartbeat
heartbeat_of at c =
    make_heartbeat c.execution_id (state_of c) c.current_task none
      (float_of (or_else (last_progress_at c.progress) (or_else c.started_at at)))
      c.last_progress_evidence (pos (length c.activities)) (get_last? c.tried_strategies)
      c.last_error (pending_of (get_last? c.checkpoints))

-- A watchdog as it is constructed over its state in memory.
unfoldable pub over : {Disk : Type 0} → Core → Option (Persistence Disk) → Disk → Watchdog Disk
over c persistence disk = record {
  core = c;
  persistence = persistence;
  disk = disk;
  heartbeat_dirty = false;
  heartbeat_sync_error = none;
  last_heartbeat_at_seconds = none;
}

module _ {Disk : Type 0} where
  unfoldable pub on_core {ℓ} : {A : Type ℓ} → Exec Core A → Exec (Watchdog Disk) A
  unfolding zoom
  on_core = zoom (λ w. w.core) (λ c w. record w { core = c })

  unfoldable pub on_disk {ℓ} : {A : Type ℓ} → Exec Disk A → Exec (Watchdog Disk) A
  unfolding zoom
  on_disk = zoom (λ w. w.disk) (λ d w. record w { disk = d })

  -- Builds the heartbeat and hands it to the writer.
  abbrev pub emit : Persistence Disk → Result Heartbeat → Exec (Watchdog Disk) (Unit {0})
  emit p (err e) w = (err e, w)
  emit p (ok heartbeat) w = on_disk (p.write heartbeat) w

  -- After the attempt: clean, or dirty with the exception, which goes on.
  abbrev pub settle : Result (Unit {0}) → Exec (Watchdog Disk) (Unit {0})
  settle (ok u) w = (ok tt, record w { heartbeat_dirty = false; heartbeat_sync_error = none })
  settle (err e) w = (err e, record w { heartbeat_sync_error = some e })

  abbrev pub write_with : Option (Persistence Disk) → ℕ → Exec (Watchdog Disk) (Unit {0})
  write_with none at w = (ok tt, w)
  write_with (some p) at w =
      let dirty = record w { last_heartbeat_at_seconds = some at; heartbeat_dirty = true } in
      let (answer, w') = emit p (heartbeat_of at dirty.core) dirty in settle answer w'

  -- `_write_heartbeat`
  unfoldable pub write_heartbeat : ℕ → Exec (Watchdog Disk) (Unit {0})
  write_heartbeat at w = write_with w.persistence at w

  -- The retry of `sync_heartbeat`, which turns an exception into false.
  abbrev pub retry : Option (Persistence Disk) → Option ℕ → Watchdog Disk → Bool × Watchdog Disk
  retry (some p) (some at) w =
      let (answer, w') = write_heartbeat at w in (elim answer [ ok u ↦ true | err e ↦ false ], w')
  retry _ _ w = (true, record w { heartbeat_dirty = false })

  unfoldable pub sync_heartbeat : Watchdog Disk → Bool × Watchdog Disk
  unfolding write_heartbeat
  sync_heartbeat w =
      if w.heartbeat_dirty then retry w.persistence w.last_heartbeat_at_seconds w else (true, w)

  unfoldable pub start : String → Float → ℤ → Float → Exec (Watchdog Disk) (Unit {0})
  start task at tokens cost = do t ← on_core (start_core task at tokens cost); write_heartbeat t

  unfoldable pub advance : ExecutionState → Float → Message → Exec (Watchdog Disk) (Unit {0})
  advance target at note = do t ← on_core (advance_core target at note); write_heartbeat t

  unfoldable pub begin_recovery : Float → String → Exec (Watchdog Disk) (Option RecoveryAttempt)
  begin_recovery at reason = do
    outcome ← on_core (begin_recovery_core at reason)
    write_heartbeat outcome.0
    pure outcome.1

  unfoldable pub evaluate : Float → Exec (Watchdog Disk) (Unit {0})
  evaluate at = do
    outcome ← on_core (evaluate_core at)
    (if outcome.1
        then (do
          write_heartbeat outcome.0
          begin_recovery (float_of outcome.0) "stall_detected"
          pure tt)
        else pure tt)

  unfoldable pub record_activity :
      Float → String → Bool → Bool → Float → Option String → Exec (Watchdog Disk) (Unit {0})
  record_activity at fingerprint succeeded is_trivial duration error = do
    t ← on_core (record_activity_core at fingerprint succeeded is_trivial duration error)
    evaluate (float_of t)
    write_heartbeat t

  unfoldable pub record_progress :
      Float → ProgressSignalKind → String → Exec (Watchdog Disk) (Unit {0})
  record_progress at kind description = do
    t ← on_core (record_progress_core at kind description)
    write_heartbeat t

  unfoldable pub record_recovery_result :
      Float → RecoveryResult → ExecutionState → Option String → Exec (Watchdog Disk) (Unit {0})
  record_recovery_result at result resume_state evidence = do
    t ← on_core (record_recovery_result_core at result resume_state evidence)
    write_heartbeat t

  unfoldable pub record_escalation : Float → EscalationSignals → Exec (Watchdog Disk) (Unit {0})
  record_escalation at signals = do on_core (record_escalation_core at signals); pure tt

  abbrev pub append_with : Option (Persistence Disk) → Checkpoint → Exec (Watchdog Disk) (Unit {0})
  append_with none cp = pure tt
  append_with (some p) cp = on_disk (p.append cp)

  unfoldable pub checkpoint :
      Float → String → List String → List String → Option String → Exec (Watchdog Disk) (Unit {0})
  checkpoint at phase done pending last_good_state = do
    cp ← on_core (checkpoint_of at phase done pending last_good_state)
    persistence ← gets (λ w. w.persistence)
    append_with persistence cp
    t ← on_core (keep_checkpoint cp)
    write_heartbeat t

  unfoldable pub complete : Float → List String → Exec (Watchdog Disk) (Unit {0})
  complete at evidence = do t ← on_core (complete_core at evidence); write_heartbeat t

-- The public calls that change a watchdog, with their arguments.
pub data Event : Type 0 where
  starting : String → Float → ℤ → Float → Event
  advancing : ExecutionState → Float → Message → Event
  activity : Float → String → Bool → Bool → Float → Option String → Event
  progress : Float → ProgressSignalKind → String → Event
  evaluating : Float → Event
  recovering_from : Float → String → Event
  resolving : Float → RecoveryResult → ExecutionState → Option String → Event
  escalating : Float → EscalationSignals → Event
  checkpointing : Float → String → List String → List String → Option String → Event
  completing : Float → List String → Event
  syncing : Event

module _ {Disk : Type 0} where
  -- The watchdog after a call, also where the call raises.
  unfoldable pub after : Event → Watchdog Disk → Watchdog Disk
  after (starting task at tokens cost) w = (start task at tokens cost w).1
  after (advancing target at note) w = (advance target at note w).1
  after (activity at fingerprint succeeded is_trivial duration error) w =
      (record_activity at fingerprint succeeded is_trivial duration error w).1
  after (progress at kind description) w = (record_progress at kind description w).1
  after (evaluating at) w = (evaluate at w).1
  after (recovering_from at reason) w = (begin_recovery at reason w).1
  after (resolving at result resume_state evidence) w =
      (record_recovery_result at result resume_state evidence w).1
  after (escalating at signals) w = (record_escalation at signals w).1
  after (checkpointing at phase done pending last_good_state) w =
      (checkpoint at phase done pending last_good_state w).1
  after (completing at evidence) w = (complete at evidence w).1
  after syncing w = (sync_heartbeat w).1

  unfoldable pub run : List Event → Watchdog Disk → Watchdog Disk
  run [] w = w
  run (e ∷ es) w = run es (after e w)
