-- ===== src/Checkpoints/History.antt =====
-- The store against its specification, the list of the checkpoints that were appended.
use mathlib.Core.Path.{subst}
use mathlib.Core.List.{reverse-cons, append-nil, append_assoc}
use agent_gear.Common.{
  ℕ, suc, ◌+◌, ◌≤◌, ◌<◌, ◌≡◌, refl, sym, ap, ◌∙◌, some, List, [], ◌∷◌, ◌++◌, All, map, reverse,
  length, length-append, get_last?, lookup, arith,
}
use agent_gear.Errors.{ok}
use agent_gear.Errors.Exec.{Exec, pure, ◌>>=◌, ◌>>◌}
use agent_gear.Models.Records.{Checkpoint}
use agent_gear.PathSecurity.{validate_persistence_safe_id}
use agent_gear.Checkpoints.{
  Segments, File, segment_numbers, append, to_dict, load, entries_of, all_checkpoints, latest,
  find_latest, or_quarantine,
}
use agent_gear.Checkpoints.Codec.{segment, IsCheckpoint, construct_entries-to_dict}
use agent_gear.Checkpoints.Layout.{
  Blocks, layout, range, segment_numbers-layout, get_last?-range, equal, below, lookup-layout_last,
  some_injective,
}
use agent_gear.Checkpoints.Appending.{push, append-layout, read-segment, filled_last, last_valid}
use agent_gear.Checkpoints.Packing.{
  concat, concat-push, IsPacked, push-IsPacked, IsPacked-length, All-append, All-blocks,
}

-- A checkpoint that its constructor accepts, with an identifier that may name a directory.
abbrev pub IsStorable : Checkpoint → Type 0
IsStorable c = IsCheckpoint c × (validate_persistence_safe_id c.execution_id ≡ ok c.execution_id)

-- Each of these numbers has the segment of its block.
abbrev Holds : ℕ → Blocks → Segments → Type 0
Holds n [] s = Unit
Holds n (b ∷ bs) s = (lookup n s ≡ some (segment b)) × Holds (suc n) bs s

Holds-behind :
    (n m : ℕ) (f : File) (bs : Blocks) (s : Segments)
    → m < n
    → Holds n bs s
    → Holds n bs ((m, f) ∷ s)
unfolding lookup
Holds-behind n m f [] s h k = tt
Holds-behind n m f (b ∷ bs) s h (at, rest) =
    (rw (below m n h) at, Holds-behind (suc n) m f bs s (omega arith) rest)

layout-Holds : (n : ℕ) (bs : Blocks) → Holds n bs (layout n bs)
unfolding layout lookup
layout-Holds n [] = tt
layout-Holds n (b ∷ bs) = (
  rw (equal n n refl) refl,
  Holds-behind (suc n) n (segment b) bs (layout (suc n) bs) (omega arith) (layout-Holds (suc n) bs),
)

read_entries :
    (n : ℕ) (s : Segments) (cs : List Checkpoint)
    → All IsCheckpoint cs
    → entries_of n (map to_dict cs) s ≡ (ok cs, s)
unfolding entries_of or_quarantine
read_entries n s cs valid = rw (construct_entries-to_dict cs valid) refl

load-range :
    (n : ℕ) (bs : Blocks) (s : Segments)
    → Holds n bs s
    → All (All IsCheckpoint) bs
    → load (range n (length bs)) s ≡ (ok (concat bs), s)
unfolding load range concat ◌>>=◌
load-range n [] s h valid = refl
load-range n (b ∷ bs) s (at, rest) (v, vs) =
    rw (read-segment n s b at v, read_entries n s b v, load-range (suc n) bs s rest vs) refl

-- Appends one after another.
unfoldable pub append_all : List Checkpoint → Exec Segments (Unit {0})
unfolding append ◌>>=◌
append_all [] = pure tt
append_all (c ∷ cs) = do append c; append_all cs

append_first :
    (c : Checkpoint) (cs : List Checkpoint) (s t : Segments)
    → append c s ≡ (ok tt, t)
    → append_all (c ∷ cs) s ≡ append_all cs t
unfolding append_all ◌>>=◌
append_first c cs s t h = rw h refl

-- From a packed directory, appends leave a packed one that holds the longer history.
append_all-layout :
    (cs : List Checkpoint) (bs : Blocks)
    → IsPacked bs
    → All IsCheckpoint (concat bs)
    → All IsStorable cs
    → length (concat bs) + length cs ≤ 99999900
    → (after : Blocks) × (append_all cs (layout 1 bs) ≡ (ok tt, layout 1 after))
      × IsPacked after
      × (concat after ≡ concat bs ++ cs)
      × All IsCheckpoint (concat after)
unfolding append_all
append_all-layout [] bs packed valid storable few =
    (bs, refl, packed, sym (append-nil (concat bs)), valid)
append_all-layout (c ∷ cs) bs packed valid ((good, safe), storable) few =
    let next = push c bs (get_last? bs) in
    let same = concat-push c bs in
    let (after, run, still, history, fine) =
      append_all-layout cs next (push-IsPacked c bs packed)
        (subst (All IsCheckpoint) (sym same)
          (All-append IsCheckpoint (concat bs) (c ∷ []) valid (good, tt)))
        storable (omega (arith, ap length same, length-append (concat bs) (c ∷ []))) in
    (
      after,
      append_first c cs (layout 1 bs) (layout 1 next) (
            append-layout c safe bs (All-blocks IsCheckpoint bs valid)
              (omega (arith, IsPacked-length bs packed)))
          ∙ run,
      still,
      history ∙ ap (λ h. h ++ cs) same ∙ append_assoc (concat bs) (c ∷ []) cs,
      fine,
    )

module _ {ℓ} {A : Type ℓ} where
  get_last?-append :
      (xs ys : List A) (y : A) → get_last? ys ≡ some y → get_last? (xs ++ ys) ≡ some y
  unfolding get_last?
  get_last?-append [] ys y h = h
  get_last?-append (x ∷ []) [] y h = cc
  get_last?-append (x ∷ []) (z ∷ ys) y h = h
  get_last?-append (x ∷ w ∷ xs) ys y h = get_last?-append (w ∷ xs) ys y h

  reverse_last :
      (xs : List A) (x : A) → get_last? xs ≡ some x → (ys : List A) × (reverse xs ≡ x ∷ ys)
  unfolding get_last?
  reverse_last [] x h = cc
  reverse_last (a ∷ []) x h = ([], ap (λ z. z ∷ []) (some_injective _ _ h))
  reverse_last (a ∷ b ∷ xs) x h =
      let (ys, e) = reverse_last (b ∷ xs) x h in
      (ys ++ a ∷ [], reverse-cons a (b ∷ xs) ∙ ap (λ zs. zs ++ a ∷ []) e)

-- The last block has the last checkpoint of the history.
IsPacked-last :
    (bs : Blocks) (a : List Checkpoint)
    → IsPacked bs
    → get_last? bs ≡ some a
    → (c : Checkpoint) × (get_last? a ≡ some c) × (get_last? (concat bs) ≡ some c)
unfolding get_last? concat
IsPacked-last [] a h e = cc
IsPacked-last ([] ∷ []) a (some_entry, _) e = absurd (omega arith)
IsPacked-last ((x ∷ xs) ∷ []) a h e =
    let (c, at) = filled_last x xs in
    (
      c,
      subst (λ z. get_last? z ≡ some c) (some_injective _ _ e) at,
      ap get_last? (append-nil (x ∷ xs)) ∙ at,
    )
IsPacked-last (b ∷ d ∷ bs) a (_, h) e =
    let (c, at, last) = IsPacked-last (d ∷ bs) a h e in
    (c, at, get_last?-append b (concat (d ∷ bs)) c last)

latest-layout :
    (bs : Blocks)
    → IsPacked bs
    → All IsCheckpoint (concat bs)
    → length bs ≤ 999999
    → latest (layout 1 bs) ≡ (ok (get_last? (concat bs)), layout 1 bs)
unfolding latest find_latest segment_numbers layout concat get_last? ◌>>=◌
latest-layout [] packed valid few = refl
latest-layout (b ∷ bs) packed valid few =
    let s = layout 1 (b ∷ bs) in
    let k = length (b ∷ bs) in
    let (a, last) = filled_last b bs in
    let (c, at, whole) = IsPacked-last (b ∷ bs) a packed last in
    let (ys, back) =
      reverse_last (range 1 k) k (get_last?-range 1 (length bs) ∙ ap some (omega arith)) in
    let fine = last_valid (b ∷ bs) a (All-blocks IsCheckpoint (b ∷ bs) valid) last in
    rw
      (
        segment_numbers-layout 1 (b ∷ bs) (omega arith),
        back,
        read-segment k s a (lookup-layout_last 1 k (b ∷ bs) a (omega arith) last) fine,
        read_entries k s a fine,
        at,
        whole,
      )
      refl

all_checkpoints-layout :
    (bs : Blocks)
    → All IsCheckpoint (concat bs)
    → length bs ≤ 999999
    → all_checkpoints (layout 1 bs) ≡ (ok (concat bs), layout 1 bs)
unfolding all_checkpoints
all_checkpoints-layout bs valid few =
    rw (segment_numbers-layout 1 bs (omega arith))
      (load-range 1 bs (layout 1 bs) (layout-Holds 1 bs) (All-blocks IsCheckpoint bs valid))

-- Appends of at most 99,999,900 checkpoints to an empty directory, each one accepted by its constructor
-- and with an identifier that may name a file, do not raise, and the directory then holds their list:
-- `all` gives every checkpoint in the order of the appends, and `latest` gives the last of them. Its
-- segments are full up to the last, and none has more than a hundred.
pub append_all-IsHistory :
    (cs : List Checkpoint)
    → All IsStorable cs
    → length cs ≤ 99999900
    → (blocks : Blocks) × (append_all cs [] ≡ (ok tt, layout 1 blocks))
      × IsPacked blocks
      × (all_checkpoints (layout 1 blocks) ≡ (ok cs, layout 1 blocks))
      × (latest (layout 1 blocks) ≡ (ok (get_last? cs), layout 1 blocks))
unfolding layout all_checkpoints concat
append_all-IsHistory cs storable few =
    let (blocks, run, packed, history, valid) =
      append_all-layout cs [] tt tt storable (omega arith) in
    let small = IsPacked-length blocks packed in
    let count = ap length history in
    (
      blocks,
      run,
      packed,
      all_checkpoints-layout blocks valid (omega arith) ∙ ap (λ h. (ok h, layout 1 blocks)) history,
      latest-layout blocks packed valid (omega arith)
          ∙ ap (λ h. (ok (get_last? h), layout 1 blocks)) history,
    )
