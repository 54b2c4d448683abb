-- ===== src/Checkpoints/Packing.antt =====
-- How a directory is packed, and the history that it holds.
use mathlib.Core.Path.{subst}
use mathlib.Core.List.{append_assoc, append-nil}
use agent_gear.Common.{
  ◌+◌, ◌*◌, ◌≤◌, ◌≡◌, refl, sym, ap, ◌∙◌, false, List, [], ◌∷◌, ◌++◌, All, length, length-append,
  set_last, get_last?, is_empty, leb, arith, Bool-cases, inl, inr,
}
use agent_gear.Models.Records.{Checkpoint}
use agent_gear.Checkpoints.{segment_capacity}
use agent_gear.Checkpoints.Layout.{Blocks}
use agent_gear.Checkpoints.Appending.{push, filled_last}

unfoldable pub concat : Blocks → List Checkpoint
concat [] = []
concat (b ∷ bs) = b ++ concat bs

-- Every block is full but the last, which has at least one checkpoint and at most a hundred.
abbrev pub IsPacked : Blocks → Type 0
IsPacked [] = Unit
IsPacked (b ∷ []) = (1 ≤ length b) × (length b ≤ segment_capacity)
IsPacked (b ∷ d ∷ bs) = (length b ≡ segment_capacity) × IsPacked (d ∷ bs)

push-cons :
    (c : Checkpoint) (b d : List Checkpoint) (bs : Blocks)
    → push c (b ∷ d ∷ bs) (get_last? (b ∷ d ∷ bs)) ≡ b ∷ push c (d ∷ bs) (get_last? (d ∷ bs))
unfolding get_last? set_last
push-cons c b d bs =
    let (a, e) = filled_last d bs in
    elim (Bool-cases (leb segment_capacity (length a))) [
      | inl f ↦ rw (e, f) refl
      | inr f ↦ rw (e, f) refl
    ]

-- The checkpoint goes to the end of the history.
pub concat-push :
    (c : Checkpoint) (bs : Blocks) → concat (push c bs (get_last? bs)) ≡ concat bs ++ c ∷ []
unfolding concat get_last? set_last
concat-push c [] = refl
concat-push c (b ∷ []) = elim (Bool-cases (leb segment_capacity (length b))) [
  | inl f ↦ rw (f, append-nil b) refl
  | inr f ↦ rw (f, append-nil b) (append-nil (b ++ c ∷ []))
]
concat-push c (b ∷ d ∷ bs) =
    ap concat (push-cons c b d bs)
    ∙ ap (λ r. b ++ r) (concat-push c (d ∷ bs))
    ∙ sym (append_assoc b (concat (d ∷ bs)) (c ∷ []))

push-filled :
    (c : Checkpoint) (b : List Checkpoint) (bs : Blocks)
    → is_empty (push c (b ∷ bs) (get_last? (b ∷ bs))) ≡ false
unfolding get_last? set_last
push-filled c b [] = ground arith
push-filled c b (d ∷ bs) = ap is_empty (push-cons c b d bs)

IsPacked-cons :
    (b : List Checkpoint) (bs : Blocks)
    → length b ≡ segment_capacity
    → is_empty bs ≡ false
    → IsPacked bs
    → IsPacked (b ∷ bs)
IsPacked-cons b [] h e p = cc
IsPacked-cons b (d ∷ bs) h e p = (h, p)

pub push-IsPacked :
    (c : Checkpoint) (bs : Blocks) → IsPacked bs → IsPacked (push c bs (get_last? bs))
unfolding get_last? set_last
push-IsPacked c [] h = (omega arith, omega arith)
push-IsPacked c (b ∷ []) (some_entry, fits) = elim (Bool-cases (leb segment_capacity (length b))) [
  | inl f ↦ rw f (ground arith, (omega arith, omega arith))
  | inr f ↦
      rw f (ground (arith, length-append b (c ∷ [])), ground (arith, length-append b (c ∷ [])))
]
push-IsPacked c (b ∷ d ∷ bs) (full, h) =
    subst IsPacked (sym (push-cons c b d bs))
      (IsPacked-cons b _ full (push-filled c d bs) (push-IsPacked c (d ∷ bs) h))

-- A packed directory has few segments for its checkpoints.
pub IsPacked-length :
    (bs : Blocks) → IsPacked bs → segment_capacity * length bs ≤ length (concat bs) + 99
unfolding concat
IsPacked-length [] h = omega arith
IsPacked-length (b ∷ []) (some_entry, fits) = omega (arith, length-append b [])
IsPacked-length (b ∷ d ∷ bs) (full, h) =
    omega (arith, length-append b (concat (d ∷ bs)), IsPacked-length (d ∷ bs) h)

module _ (P : Checkpoint → Type 0) where
  pub All-append : (xs ys : List Checkpoint) → All P xs → All P ys → All P (xs ++ ys)
  All-append [] ys h k = k
  All-append (x ∷ xs) ys (h, hs) k = (h, All-append xs ys hs k)

  pub All-left : (xs ys : List Checkpoint) → All P (xs ++ ys) → All P xs
  All-left [] ys h = tt
  All-left (x ∷ xs) ys (h, hs) = (h, All-left xs ys hs)

  pub All-right : (xs ys : List Checkpoint) → All P (xs ++ ys) → All P ys
  All-right [] ys h = h
  All-right (x ∷ xs) ys (h, hs) = All-right xs ys hs

  pub All-blocks : (bs : Blocks) → All P (concat bs) → All (All P) bs
  unfolding concat
  All-blocks [] h = tt
  All-blocks (b ∷ bs) h = (All-left b (concat bs) h, All-blocks bs (All-right b (concat bs) h))
