-- ===== src/Checkpoints/Layout.antt =====
-- The directory of an execution as a list of segments that are numbered from one.
use agent_gear.Common.{
  ℕ, zero, suc, ◌+◌, ◌≤◌, ◌<◌, ◌≡◌, refl, ap, ◌∙◌, true, false, none, some, List, [], ◌∷◌, ◌++◌,
  length, set_last, get_last?, is_empty, le→leb, ◌==◌, lookup, insert, arith,
}
use agent_gear.Models.Records.{Checkpoint}
use agent_gear.Checkpoints.{Segments, segment_numbers, insert_sorted}
use agent_gear.Checkpoints.Codec.{segment}

abbrev pub Blocks : Type 0
Blocks = List (List Checkpoint)

-- The files of these blocks, numbered from `n`.
unfoldable pub layout : ℕ → Blocks → Segments
layout n [] = []
layout n (b ∷ bs) = (n, segment b) ∷ layout (suc n) bs

-- `n`, `n + 1`, …: so many numbers
unfoldable pub range : ℕ → ℕ → List ℕ
range n zero = []
range n (suc k) = n ∷ range (suc n) k

insert_sorted-range : (n k : ℕ) → insert_sorted n (range (suc n) k) ≡ n ∷ range (suc n) k
unfolding insert_sorted range
insert_sorted-range n zero = refl
insert_sorted-range n (suc k) = rw (le→leb n (suc n) (omega arith)) refl

pub segment_numbers-layout :
    (n : ℕ) (bs : Blocks)
    → n + length bs ≤ 1000000
    → segment_numbers (layout n bs) ≡ range n (length bs)
unfolding segment_numbers layout range
segment_numbers-layout n [] h = refl
segment_numbers-layout n (b ∷ bs) h =
    rw (le→leb n 999999 (omega arith), segment_numbers-layout (suc n) bs (omega arith))
      (insert_sorted-range n (length bs))

pub get_last?-range : (n k : ℕ) → get_last? (range n (suc k)) ≡ some (n + k)
unfolding range get_last?
get_last?-range n zero = ap some (omega arith)
get_last?-range n (suc k) = get_last?-range (suc n) k ∙ ap some (omega arith)

pub some_injective {ℓ} : {A : Type ℓ} (a b : A) → some a ≡ some b → a ≡ b
some_injective a b h = cc

pub equal : (n k : ℕ) → k ≡ n → (n == k) ≡ true
equal n k e = ground arith

pub below : (n k : ℕ) → n < k → (n == k) ≡ false
below n k h = ground arith

-- The last segment is found under the last number `k`, and replaced there.
pub lookup-layout_last :
    (n k : ℕ) (bs : Blocks) (b : List Checkpoint)
    → suc k ≡ n + length bs
    → get_last? bs ≡ some b
    → lookup k (layout n bs) ≡ some (segment b)
unfolding lookup layout get_last?
lookup-layout_last n k [] b e h = cc
lookup-layout_last n k (c ∷ []) b e h =
    rw (equal n k (omega arith)) (ap some (ap segment (some_injective _ _ h)))
lookup-layout_last n k (c ∷ d ∷ bs) b e h =
    rw (below n k (omega arith)) (lookup-layout_last (suc n) k (d ∷ bs) b (omega arith) h)

pub insert-layout_last :
    (n k : ℕ) (bs : Blocks) (b : List Checkpoint)
    → suc k ≡ n + length bs
    → is_empty bs ≡ false
    → insert k (segment b) (layout n bs) ≡ layout n (set_last b bs)
unfolding insert layout set_last
insert-layout_last n k [] b e h = cc
insert-layout_last n k (c ∷ []) b e h =
    rw (equal n k (omega arith)) (ap (λ m. (m, segment b) ∷ []) (omega arith))
insert-layout_last n k (c ∷ d ∷ bs) b e h =
    rw (below n k (omega arith))
      (ap (λ s. (n, segment c) ∷ s) (insert-layout_last (suc n) k (d ∷ bs) b (omega arith) refl))

-- The next number `k` is free, and a segment under it goes to the end.
pub lookup-layout_next : (n k : ℕ) (bs : Blocks) → k ≡ n + length bs → lookup k (layout n bs) ≡ none
unfolding lookup layout
lookup-layout_next n k [] e = refl
lookup-layout_next n k (b ∷ bs) e =
    rw (below n k (omega arith)) (lookup-layout_next (suc n) k bs (omega arith))

pub insert-layout_next :
    (n k : ℕ) (bs : Blocks) (b : List Checkpoint)
    → k ≡ n + length bs
    → insert k (segment b) (layout n bs) ≡ layout n (bs ++ b ∷ [])
unfolding insert layout
insert-layout_next n k [] b e = ap (λ m. (m, segment b) ∷ []) (omega arith)
insert-layout_next n k (c ∷ bs) b e =
    rw (below n k (omega arith))
      (ap (λ s. (n, segment c) ∷ s) (insert-layout_next (suc n) k bs b (omega arith)))
