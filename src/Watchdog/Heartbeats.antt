-- ===== src/Watchdog/Heartbeats.antt =====
-- The heartbeat file as a mirror of the state in memory.
use mathlib.Core.Path.{subst}
use agent_gear.Common.{ℕ, ◌≡◌, refl, sym, Bool, true, false, not, Option, none, some, if◌then◌else◌}
use agent_gear.Errors.{Error, Result, ok, err}
use agent_gear.Models.Records.{Heartbeat}
use agent_gear.Watchdog.State.{Watchdog, Persistence}
use agent_gear.Watchdog.Api.{
  heartbeat_of, on_disk, emit, settle, write_with, write_heartbeat, retry, sync_heartbeat,
}
use agent_gear.Watchdog.Frame.Kept.{sync_heartbeat-Preserves}

module _ {Disk : Type 0} where
  -- What an attempt to write leaves, if it succeeded or if it raised.
  pub data IsSettled (p : Persistence Disk) (at : ℕ) (w : Watchdog Disk)
      : Result (Unit {0}) → Watchdog Disk → Type 0 where
    written :
        {w' : Watchdog Disk} (h : Heartbeat)
        → heartbeat_of at w.core ≡ ok h
        → p.write h w.disk ≡ (ok tt, w'.disk)
        → w'.heartbeat_dirty ≡ false
        → w'.heartbeat_sync_error ≡ none
        → IsSettled p at w (ok tt) w'
    failed :
        {w' : Watchdog Disk} (e : Error)
        → w'.heartbeat_dirty ≡ true
        → w'.heartbeat_sync_error ≡ some e
        → IsSettled p at w (err e) w'

  settled :
      (p : Persistence Disk) (at : ℕ) (w : Watchdog Disk) (r : Result Heartbeat)
      → heartbeat_of at w.core ≡ r
      → let dirty = record w { last_heartbeat_at_seconds = some at; heartbeat_dirty = true } in
        let (answer, w') = emit p r dirty in
        IsSettled p at w (settle answer w').0 (settle answer w').1
  unfolding on_disk
  settled p at w (err e) h = failed e refl refl
  settled p at w (ok hb) h = by_disk (p.write hb w.disk).0 refl
    where
      by_disk :
          (answer : Result (Unit {0}))
          → (p.write hb w.disk).0 ≡ answer
          → let w' = record w {
            last_heartbeat_at_seconds = some at;
            heartbeat_dirty = true;
            disk = (p.write hb w.disk).1;
          } in
            IsSettled p at w (settle answer w').0 (settle answer w').1
      by_disk (ok tt) e = written hb h (rw e) refl refl
      by_disk (err e) _ = failed e refl refl

  -- Where a writer is configured, `write_heartbeat` either writes the heartbeat of the state in memory
  -- and leaves the watchdog clean, or raises and leaves it dirty with that exception.
  pub write_heartbeat-IsSettled :
      (p : Persistence Disk) (at : ℕ) (w : Watchdog Disk)
      → w.persistence ≡ some p
      → IsSettled p at w (write_heartbeat at w).0 (write_heartbeat at w).1
  unfolding write_heartbeat
  write_heartbeat-IsSettled p at w h =
      subst (λ q. IsSettled p at w (write_with q at w).0 (write_with q at w).1) (sym h)
        (settled p at w (heartbeat_of at w.core) refl)

  settled_answer :
      (p : Persistence Disk) (at : ℕ) (w : Watchdog Disk) (r : Result (Unit {0}))
      (w' : Watchdog Disk)
      → IsSettled p at w r w'
      → elim r [ ok u ↦ true | err e ↦ false ] ≡ not w'.heartbeat_dirty
  settled_answer p at w _ w' (written h b o d e) = rw d
  settled_answer p at w _ w' (failed e d s) = rw d

  retry_answer :
      (q : Option (Persistence Disk)) (at : Option ℕ) (w : Watchdog Disk)
      → w.persistence ≡ q
      → (retry q at w).0 ≡ not (retry q at w).1.heartbeat_dirty
  retry_answer none at w h = refl
  retry_answer (some p) none w h = refl
  retry_answer (some p) (some at) w h =
      settled_answer p at w _ _ (write_heartbeat-IsSettled p at w h)

  sync_answer :
      (w : Watchdog Disk) (b : Bool)
      → w.heartbeat_dirty ≡ b
      → let out = if b then retry w.persistence w.last_heartbeat_at_seconds w else (true, w) in
        out.0 ≡ not out.1.heartbeat_dirty
  sync_answer w true h = retry_answer w.persistence w.last_heartbeat_at_seconds w refl
  sync_answer w false h = rw h

  -- The answer of `sync_heartbeat` tells whether the watchdog is clean after it, and the call leaves
  -- the state in memory as it is, whatever the disk does.
  pub sync_heartbeat-answer :
      (w : Watchdog Disk)
      → ((sync_heartbeat w).0 ≡ not (sync_heartbeat w).1.heartbeat_dirty)
        × ((sync_heartbeat w).1.core ≡ w.core)
  unfolding sync_heartbeat
  sync_heartbeat-answer w =
      (sync_answer w w.heartbeat_dirty refl, sync_heartbeat-Preserves (λ c. c ≡ w.core) w refl)
