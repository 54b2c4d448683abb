-- ===== src/Checkpoints/Appending.antt =====
-- One `append`, on a directory that is laid out as a list of blocks.
use mathlib.Core.Path.{subst}
use agent_gear.Common.{
  ℕ, suc, ◌+◌, ◌≤◌, ◌≡◌, refl, sym, ap, ◌∙◌, Option, none, some, List, [], ◌∷◌, ◌++◌, All, map,
  length, set_last, get_last?, leb, lookup, insert, arith, if◌then◌else◌, Bool-cases, inl, inr,
}
use agent_gear.Errors.{ok}
use agent_gear.Errors.Exec.{◌>>=◌}
use agent_gear.Models.Records.{Checkpoint}
use agent_gear.PathSecurity.{validate_persistence_safe_id}
use agent_gear.Json.{Json, array, from_list}
use agent_gear.Checkpoints.{
  Segments, document, segment_numbers, segment_capacity, or_nothing, read, choose_target, update,
  append, to_dict, last_or_one, read_file, or_quarantine,
}
use agent_gear.Checkpoints.Codec.{segment, IsCheckpoint, validate_segment-segment}
use agent_gear.Checkpoints.Layout.{
  Blocks, layout, segment_numbers-layout, get_last?-range, lookup-layout_last, insert-layout_last,
  lookup-layout_next, insert-layout_next, some_injective,
}

-- An appended checkpoint is the last of the document.
entries-append :
    (cs : List Checkpoint) (c : Checkpoint)
    → map to_dict cs ++ to_dict c ∷ [] ≡ map to_dict (cs ++ c ∷ [])
entries-append [] c = refl
entries-append (d ∷ cs) c = ap (λ xs. to_dict d ∷ xs) (entries-append cs c)

module _ (n : ℕ) (s : Segments) where
  pub read-segment :
      (cs : List Checkpoint)
      → lookup n s ≡ some (segment cs)
      → All IsCheckpoint cs
      → read n s ≡ (ok (some (map to_dict cs)), s)
  unfolding read read_file or_quarantine ◌>>=◌
  read-segment cs at valid = rw (at, validate_segment-segment cs valid) refl

  read_missing : lookup n s ≡ none → read n s ≡ (ok none, s)
  unfolding read read_file
  read_missing at = rw at refl

  update-segment :
      (cs : List Checkpoint) (c : Checkpoint)
      → lookup n s ≡ some (segment cs)
      → All IsCheckpoint cs
      → update n c s ≡ (ok tt, insert n (segment (cs ++ c ∷ [])) s)
  unfolding update ◌>>=◌
  update-segment cs c at valid =
      rw (read-segment cs at valid)
        (ap (λ xs. (ok tt, insert n (document (array (from_list xs))) s)) (entries-append cs c))

  update_missing :
      (c : Checkpoint) → lookup n s ≡ none → update n c s ≡ (ok tt, insert n (segment (c ∷ [])) s)
  unfolding update ◌>>=◌
  update_missing c at = rw (read_missing at) refl

-- The specification: the last block takes the checkpoint, or a new block where that is full.
abbrev pub push : Checkpoint → Blocks → Option (List Checkpoint) → Blocks
push c bs none = (c ∷ []) ∷ []
push c bs (some b) =
    if leb segment_capacity (length b) then bs ++ (c ∷ []) ∷ [] else set_last (b ++ c ∷ []) bs

target-layout :
    (b : List Checkpoint) (bs : Blocks)
    → 1 + length (b ∷ bs) ≤ 1000000
    → last_or_one (get_last? (segment_numbers (layout 1 (b ∷ bs)))) ≡ length (b ∷ bs)
target-layout b bs h =
    rw (segment_numbers-layout 1 (b ∷ bs) h, get_last?-range 1 (length bs)) (omega arith)

length-to_dict : (cs : List Checkpoint) → length (map to_dict cs) ≡ length cs
length-to_dict [] = refl
length-to_dict (c ∷ cs) = ap suc (length-to_dict cs)

-- What `append` does once it has read its target.
choose_target_lem :
    (s : Segments) (target : ℕ) (current : Option (List Json))
    → last_or_one (get_last? (segment_numbers s)) ≡ target
    → read target s ≡ (ok current, s)
    → choose_target s
      ≡ (ok (if leb segment_capacity (length (or_nothing current)) then suc target else target), s)
unfolding choose_target ◌>>=◌
choose_target_lem s target current last reads = rw (last, reads) refl

pub append_lem :
    (c : Checkpoint) (s : Segments) (target : ℕ)
    → validate_persistence_safe_id c.execution_id ≡ ok c.execution_id
    → choose_target s ≡ (ok target, s)
    → append c s ≡ update target c s
unfolding append ◌>>=◌
append_lem c s target safe chosen = rw (safe, chosen) refl

pub filled_last {ℓ} : {A : Type ℓ} (b : A) (bs : List A) → (a : A) × (get_last? (b ∷ bs) ≡ some a)
unfolding get_last?
filled_last b [] = (b, refl)
filled_last b (d ∷ bs) = filled_last d bs

pub last_valid :
    (bs : Blocks) (a : List Checkpoint)
    → All (All IsCheckpoint) bs
    → get_last? bs ≡ some a
    → All IsCheckpoint a
unfolding get_last?
last_valid [] a h e = cc
last_valid (b ∷ []) a (h, _) e = subst (All IsCheckpoint) (some_injective _ _ e) h
last_valid (b ∷ d ∷ bs) a (_, h) e = last_valid (d ∷ bs) a h e

-- The number that the next checkpoint goes to.
abbrev pub target_of : Blocks → Option (List Checkpoint) → ℕ
target_of bs none = 1
target_of bs (some a) = if leb segment_capacity (length a) then suc (length bs) else length bs

choose_target-last :
    (b : List Checkpoint) (bs : Blocks) (a : List Checkpoint)
    → All (All IsCheckpoint) (b ∷ bs)
    → 1 + length (b ∷ bs) ≤ 1000000
    → get_last? (b ∷ bs) ≡ some a
    → choose_target (layout 1 (b ∷ bs)) ≡ (ok (target_of (b ∷ bs) (some a)), layout 1 (b ∷ bs))
choose_target-last b bs a valid few last =
    let s = layout 1 (b ∷ bs) in
    let k = length (b ∷ bs) in
    choose_target_lem s k (some (map to_dict a)) (target-layout b bs few) (
      read-segment k s a (lookup-layout_last 1 k (b ∷ bs) a (omega arith) last)
        (last_valid (b ∷ bs) a valid last))
    ∙ ap (λ n. (ok (if leb segment_capacity n then suc k else k), s)) (length-to_dict a)

pub choose_target-layout :
    (bs : Blocks)
    → All (All IsCheckpoint) bs
    → 1 + length bs ≤ 1000000
    → choose_target (layout 1 bs) ≡ (ok (target_of bs (get_last? bs)), layout 1 bs)
unfolding get_last? segment_numbers lookup layout
choose_target-layout [] valid few = choose_target_lem [] 1 none refl (read_missing 1 [] refl)
choose_target-layout (b ∷ bs) valid few =
    let (a, last) = filled_last b bs in
    choose_target-last b bs a valid few last
    ∙ ap (λ o. (ok (target_of (b ∷ bs) o), layout 1 (b ∷ bs))) (sym last)

update-last :
    (c : Checkpoint) (b : List Checkpoint) (bs : Blocks) (a : List Checkpoint)
    → All (All IsCheckpoint) (b ∷ bs)
    → get_last? (b ∷ bs) ≡ some a
    → update (target_of (b ∷ bs) (some a)) c (layout 1 (b ∷ bs))
      ≡ (ok tt, layout 1 (push c (b ∷ bs) (some a)))
update-last c b bs a valid last =
    let s = layout 1 (b ∷ bs) in
    let k = length (b ∷ bs) in
    elim (Bool-cases (leb segment_capacity (length a))) [
      | inl e ↦ rw e (
          update_missing (suc k) s c (lookup-layout_next 1 (suc k) (b ∷ bs) (omega arith))
          ∙ ap (λ d. (ok tt, d)) (insert-layout_next 1 (suc k) (b ∷ bs) (c ∷ []) (omega arith)))
      | inr e ↦ rw e (
          update-segment k s a c (lookup-layout_last 1 k (b ∷ bs) a (omega arith) last)
            (last_valid (b ∷ bs) a valid last)
          ∙ ap (λ d. (ok tt, d)) (insert-layout_last 1 k (b ∷ bs) (a ++ c ∷ []) (omega arith) refl))
    ]

pub update-layout :
    (c : Checkpoint) (bs : Blocks)
    → All (All IsCheckpoint) bs
    → update (target_of bs (get_last? bs)) c (layout 1 bs)
      ≡ (ok tt, layout 1 (push c bs (get_last? bs)))
unfolding get_last? lookup layout insert
update-layout c [] valid = update_missing 1 [] c refl
update-layout c (b ∷ bs) valid =
    let (a, last) = filled_last b bs in
    subst
      (λ o.
        update (target_of (b ∷ bs) o) c (layout 1 (b ∷ bs)) ≡ (ok tt, layout 1 (push c (b ∷ bs) o)))
      (sym last) (update-last c b bs a valid last)

pub append-layout :
    (c : Checkpoint)
    → validate_persistence_safe_id c.execution_id ≡ ok c.execution_id
    → (bs : Blocks) → All (All IsCheckpoint) bs
    → 1 + length bs ≤ 1000000
    → append c (layout 1 bs) ≡ (ok tt, layout 1 (push c bs (get_last? bs)))
append-layout c safe bs valid few =
    append_lem c (layout 1 bs) (target_of bs (get_last? bs)) safe
      (choose_target-layout bs valid few)
    ∙ update-layout c bs valid
