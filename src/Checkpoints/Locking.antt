-- ===== src/Checkpoints/Locking.antt =====
-- Several processes that append checkpoints of one execution, in any interleaving: each takes the lock
-- of the execution, chooses a segment, writes it, and gives the lock back.
use agent_gear.Common.{ℕ, ◌≡◌, ◌==◌, Option, none, some, List, [], ◌∷◌, ◌++◌, if◌then◌else◌}
use agent_gear.Errors.{ok}
use agent_gear.Models.Records.{Checkpoint}
use agent_gear.Checkpoints.{Segments, choose_target, update}
use agent_gear.Checkpoints.Codec.{IsCheckpoint}

-- Where a process is in `append`.
pub data Phase : Type 0 where
  idle written : Phase
  entered : Checkpoint → Phase
  chosen : Checkpoint → ℕ → Phase

-- `history` has the checkpoints in the order of their writes.
pub record System : Type 0 where
  pub disk : Segments
  pub holder : Option ℕ
  pub phase : ℕ → Phase
  pub history : List Checkpoint

abbrev pub with_phase : ℕ → Phase → (ℕ → Phase) → ℕ → Phase
with_phase i p phase j = if j == i then p else phase j

-- One step of process `i`.
pub data Step : System → System → Type 0 where
  acquire :
      (s : System) (i : ℕ) (c : Checkpoint)
      → s.holder ≡ none
      → s.phase i ≡ idle
      → IsCheckpoint c
      → Step s (record s { holder = some i; phase = with_phase i (entered c) s.phase })
  choose :
      (s : System) (i : ℕ) (c : Checkpoint) (target : ℕ) (disk : Segments)
      → s.phase i ≡ entered c
      → choose_target s.disk ≡ (ok target, disk)
      → Step s (record s { disk = disk; phase = with_phase i (chosen c target) s.phase })
  write :
      (s : System) (i : ℕ) (c : Checkpoint) (target : ℕ) (disk : Segments)
      → s.phase i ≡ chosen c target
      → update target c s.disk ≡ (ok tt, disk)
      → Step s (record s {
        disk = disk;
        phase = with_phase i written s.phase;
        history = s.history ++ c ∷ [];
      })
  give_back :
      (s : System) (i : ℕ)
      → s.phase i ≡ written
      → Step s (record s { holder = none; phase = with_phase i idle s.phase })

abbrev pub beginning : System
beginning = record { disk = []; holder = none; phase = λ i. idle; history = [] }

pub data Reach : System → Type 0 where
  here : Reach beginning
  next : (s t : System) → Reach s → Step s t → Reach t
