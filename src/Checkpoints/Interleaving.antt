-- ===== src/Checkpoints/Interleaving.antt =====
-- What any interleaving of appending processes keeps.
use mathlib.Core.Path.{subst}
use agent_gear.Common.{
  ℕ, ◌+◌, ◌≤◌, ◌≡◌, refl, sym, ap, ◌∙◌, false, ◌==◌, Option, none, some, [], ◌∷◌, ◌++◌, All, length,
  length-append, get_last?, arith, Bool-cases, inl, inr,
}
use agent_gear.Errors.{Result, ok}
use agent_gear.Errors.Checks.{ok_injective}
use agent_gear.Models.Records.{Checkpoint}
use agent_gear.Checkpoints.{Segments, choose_target, update}
use agent_gear.Checkpoints.Codec.{IsCheckpoint}
use agent_gear.Checkpoints.Layout.{Blocks, layout, some_injective}
use agent_gear.Checkpoints.Appending.{push, target_of, choose_target-layout, update-layout}
use agent_gear.Checkpoints.Packing.{
  concat, concat-push, IsPacked, push-IsPacked, IsPacked-length, All-append, All-blocks,
}
use agent_gear.Checkpoints.Locking.{
  Phase, idle, written, entered, chosen, System, with_phase, Step, acquire, choose, write,
  give_back, Reach, here, next,
}

-- What a process may be up to, with these blocks on the disk.
abbrev IsUpTo : Option ℕ → Blocks → ℕ → Phase → Type 0
IsUpTo holder blocks i idle = Unit
IsUpTo holder blocks i written = holder ≡ some i
IsUpTo holder blocks i (entered c) = (holder ≡ some i) × IsCheckpoint c
IsUpTo holder blocks i (chosen c target) =
    (holder ≡ some i) × IsCheckpoint c × (target ≡ target_of blocks (get_last? blocks))

record IsSound (s : System) : Type 0 where
  blocks : Blocks
  laid : s.disk ≡ layout 1 blocks
  packed : IsPacked blocks
  kept : concat blocks ≡ s.history
  valid : All IsCheckpoint (concat blocks)
  up_to : (i : ℕ) → IsUpTo s.holder blocks i (s.phase i)

-- Only the holder of the lock is not idle.
held :
    (holder : Option ℕ) (i j : ℕ) (p : Phase)
    → holder ≡ some i
    → (j == i) ≡ false
    → holder ≡ some j
    → p ≡ idle
held holder i j p h k u = absurd (ground (arith, some_injective i j (sym h ∙ u)))

alone :
    (holder : Option ℕ) (blocks : Blocks) (i j : ℕ) (p : Phase)
    → holder ≡ some i
    → (j == i) ≡ false
    → IsUpTo holder blocks j p
    → p ≡ idle
alone holder blocks i j idle h k u = refl
alone holder blocks i j written h k u = held holder i j written h k u
alone holder blocks i j (entered c) h k (u, _) = held holder i j (entered c) h k u
alone holder blocks i j (chosen c t) h k (u, _, _) = held holder i j (chosen c t) h k u

-- Where nobody holds the lock, all are idle.
unheld : (holder : Option ℕ) (j : ℕ) (p : Phase) → holder ≡ none → holder ≡ some j → p ≡ idle
unheld holder j p h u = cc

nobody :
    (holder : Option ℕ) (blocks : Blocks) (j : ℕ) (p : Phase)
    → holder ≡ none
    → IsUpTo holder blocks j p
    → p ≡ idle
nobody holder blocks j idle h u = refl
nobody holder blocks j written h u = unheld holder j written h u
nobody holder blocks j (entered c) h (u, _) = unheld holder j (entered c) h u
nobody holder blocks j (chosen c t) h (u, _, _) = unheld holder j (chosen c t) h u

module _ (holder : Option ℕ) (blocks : Blocks) (i : ℕ) (p : Phase) (phase : ℕ → Phase) where
  IsUpTo-with_phase :
      IsUpTo holder blocks i p
      → ((j : ℕ) → (j == i) ≡ false → IsUpTo holder blocks j (phase j))
      → (j : ℕ) → IsUpTo holder blocks j (with_phase i p phase j)
  IsUpTo-with_phase own others j = elim (Bool-cases (j == i)) [
    | inl e ↦ rw e (subst (λ k. IsUpTo holder blocks k p) (ground (arith, e)) own)
    | inr e ↦ rw e (others j e)
  ]

  -- The others are idle.
  IsUpTo-alone :
      IsUpTo holder blocks i p
      → ((j : ℕ) → (j == i) ≡ false → phase j ≡ idle)
      → (j : ℕ) → IsUpTo holder blocks j (with_phase i p phase j)
  IsUpTo-alone own others =
      IsUpTo-with_phase own λ j e. subst (IsUpTo holder blocks j) (sym (others j e)) tt

Step-grows : (s t : System) → Step s t → length s.history ≤ length t.history
Step-grows s _ (acquire _ i c free at good) = omega arith
Step-grows s _ (choose _ i c target disk at e) = omega arith
Step-grows s _ (write _ i c target disk at e) = omega (arith, length-append s.history (c ∷ []))
Step-grows s _ (give_back _ i at) = omega arith

-- Two outcomes of the same action are one.
same_outcome {ℓ} :
    {A : Type ℓ} (a b : A) (s t : Segments)
    → ◌≡◌ {A = Result A × Segments} (ok a, s) (ok b, t)
    → (a ≡ b) × (s ≡ t)
same_outcome a b s t h = (ok_injective a b (ap (λ q. q.0) h), ap (λ q. q.1) h)

module _ (s : System) (sound : IsSound s) (few : length s.history ≤ 99999900) where
  open sound use {blocks, laid, packed, kept, valid, up_to}

  room : 1 + length blocks ≤ 1000000
  room = omega (arith, IsPacked-length blocks packed, ap length kept)

  acquire-IsSound :
      (i : ℕ) (c : Checkpoint)
      → s.holder ≡ none
      → IsCheckpoint c
      → IsSound (record s { holder = some i; phase = with_phase i (entered c) s.phase })
  acquire-IsSound i c free good = record {
    blocks = blocks;
    laid = laid;
    packed = packed;
    kept = kept;
    valid = valid;
    up_to =
        IsUpTo-alone (some i) blocks i (entered c) s.phase (refl, good)
          (λ j e. nobody s.holder blocks j (s.phase j) free (up_to j));
  }

  choose-IsSound :
      (i : ℕ) (c : Checkpoint) (target : ℕ) (disk : Segments)
      → s.phase i ≡ entered c
      → choose_target s.disk ≡ (ok target, disk)
      → IsSound (record s { disk = disk; phase = with_phase i (chosen c target) s.phase })
  choose-IsSound i c target disk at e =
      let (mine, good) = subst (IsUpTo s.holder blocks i) at (up_to i) in
      let (right, stays) = same_outcome _ _ _ _ (
        sym e
        ∙ ap choose_target laid
        ∙ choose_target-layout blocks (All-blocks IsCheckpoint blocks valid) room) in
      record {
        blocks = blocks;
        laid = stays;
        packed = packed;
        kept = kept;
        valid = valid;
        up_to =
            IsUpTo-with_phase s.holder blocks i (chosen c target) s.phase (mine, good, right)
              (λ j _. up_to j);
      }

  write-IsSound :
      (i : ℕ) (c : Checkpoint) (target : ℕ) (disk : Segments)
      → s.phase i ≡ chosen c target
      → update target c s.disk ≡ (ok tt, disk)
      → IsSound (record s {
        disk = disk;
        phase = with_phase i written s.phase;
        history = s.history ++ c ∷ [];
      })
  write-IsSound i c target disk at e =
      let (mine, good, right) = subst (IsUpTo s.holder blocks i) at (up_to i) in
      let after = push c blocks (get_last? blocks) in
      let same = concat-push c blocks in
      let (_, laid_after) = same_outcome _ _ _ _ (
        sym e
        ∙ ap (update target c) laid
        ∙ ap (λ t. update t c (layout 1 blocks)) right
        ∙ update-layout c blocks (All-blocks IsCheckpoint blocks valid)) in
      record {
        blocks = after;
        laid = laid_after;
        packed = push-IsPacked c blocks packed;
        kept = same ∙ ap (λ h. h ++ c ∷ []) kept;
        valid =
            subst (All IsCheckpoint) (sym same)
              (All-append IsCheckpoint (concat blocks) (c ∷ []) valid (good, tt));
        up_to =
            IsUpTo-alone s.holder after i written s.phase mine
              (λ j k. alone s.holder blocks i j (s.phase j) mine k (up_to j));
      }

  give_back-IsSound :
      (i : ℕ)
      → s.phase i ≡ written
      → IsSound (record s { holder = none; phase = with_phase i idle s.phase })
  give_back-IsSound i at =
      let mine = subst (IsUpTo s.holder blocks i) at (up_to i) in
      record {
        blocks = blocks;
        laid = laid;
        packed = packed;
        kept = kept;
        valid = valid;
        up_to =
            IsUpTo-alone none blocks i idle s.phase tt
              (λ j k. alone s.holder blocks i j (s.phase j) mine k (up_to j));
      }

Step-IsSound : (s t : System) → Step s t → IsSound s → length s.history ≤ 99999900 → IsSound t
Step-IsSound s _ (acquire _ i c free at good) sound few = acquire-IsSound s sound few i c free good
Step-IsSound s _ (choose _ i c target disk at e) sound few =
    choose-IsSound s sound few i c target disk at e
Step-IsSound s _ (write _ i c target disk at e) sound few =
    write-IsSound s sound few i c target disk at e
Step-IsSound s _ (give_back _ i at) sound few = give_back-IsSound s sound few i at

Reach-IsSound : (s : System) → Reach s → length s.history ≤ 99999900 → IsSound s
unfolding layout concat
Reach-IsSound _ here few = record {
  blocks = [];
  laid = refl;
  packed = tt;
  kept = refl;
  valid = tt;
  up_to = λ i. tt;
}
Reach-IsSound _ (next s t before step) few =
    let earlier : length s.history ≤ 99999900 = omega (arith, Step-grows s t step) in
    Step-IsSound s t step (Reach-IsSound s before earlier) earlier

-- Whatever processes append checkpoints that their constructor accepts to the directory of one execution,
-- and however their steps interleave, at every moment of at most 99,999,900 writes the directory holds exactly the checkpoints that were written, in
-- the order of the writes; no segment has more than a hundred, and none but the last has fewer.
pub interleaved-IsPacked :
    (s : System)
    → Reach s
    → length s.history ≤ 99999900
    → (blocks : Blocks) × (s.disk ≡ layout 1 blocks) × IsPacked blocks × (concat blocks ≡ s.history)
interleaved-IsPacked s reached few =
    let sound = Reach-IsSound s reached few in (sound.blocks, sound.laid, sound.packed, sound.kept)
