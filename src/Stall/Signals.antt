-- ===== src/Stall/Signals.antt =====
-- What the detector counts, told without its counting tables.
use agent_gear.Common.{
  ℕ, ◌+◌, ◌-◌, ◌<◌, ◌≤◌, ◌≡◌, refl, ◌↔◌, String, true, false, not, ◌&&◌, ◌||◌, Option, List, [],
  ◌∷◌, ◌++◌, arith, leb, if◌then◌else◌, is_empty, Bool-cases, inl, inr, length, str_eq, eq_iff,
}
use agent_gear.Config.{WatchdogPolicy}
use agent_gear.Models.Messages.{slow_trivial_commands}
use agent_gear.Recovery.{reason_if}
use agent_gear.Stall.{
  ActivityRecord, detect, since, boundary_of, stall_reasons_of, identical_reasons, counter,
  add_count, circular_reasons, circular_limit, slow_trivial,
}
use agent_gear.Stall.Boundary.{trailing_failures-le, slow_trivial-le}

-- How many records have the fingerprint.
unfoldable pub occurrences : String → List ActivityRecord → ℕ
occurrences f [] = 0
occurrences f (a ∷ acts) = (if str_eq f a.fingerprint then 1 else 0) + occurrences f acts

-- What a counting table holds for the fingerprint.
tally : String → List (String × ℕ) → ℕ
tally f [] = 0
tally f ((g, n) ∷ counts) = (if str_eq f g then n else 0) + tally f counts

tally-add_count :
    (f g : String) (counts : List (String × ℕ))
    → tally f (add_count g counts) ≡ (if str_eq f g then 1 else 0) + tally f counts
unfolding tally add_count
tally-add_count f g [] = omega arith
tally-add_count f g ((h, n) ∷ counts) =
    ground (arith, eq_iff f g, eq_iff g h, eq_iff f h, tally-add_count f g counts)

tally-counter :
    (f : String) (counts : List (String × ℕ)) (acts : List ActivityRecord)
    → tally f (counter counts acts) ≡ tally f counts + occurrences f acts
unfolding counter occurrences tally
tally-counter f counts [] = omega arith
tally-counter f counts (a ∷ acts) = omega (
  arith,
  tally-counter f (add_count a.fingerprint counts) acts,
  tally-add_count f a.fingerprint counts,
)

pub occurrences-le : (f : String) (acts : List ActivityRecord) → occurrences f acts ≤ length acts
unfolding occurrences
occurrences-le f [] = omega arith
occurrences-le f (a ∷ acts) = ground (arith, occurrences-le f acts)

-- The count of the fingerprint in a table, where it stands first.
first_count : String → List (String × ℕ) → ℕ
first_count f [] = 0
first_count f ((g, n) ∷ counts) = if str_eq f g then n else first_count f counts

first_count-add_count :
    (f g : String) (counts : List (String × ℕ))
    → first_count f (add_count g counts) ≡ (if str_eq f g then 1 else 0) + first_count f counts
unfolding first_count add_count
first_count-add_count f g [] = omega arith
first_count-add_count f g ((h, n) ∷ counts) =
    ground (arith, eq_iff f g, eq_iff g h, eq_iff f h, first_count-add_count f g counts)

first_count-counter :
    (f : String) (counts : List (String × ℕ)) (acts : List ActivityRecord)
    → first_count f (counter counts acts) ≡ first_count f counts + occurrences f acts
unfolding counter occurrences first_count
first_count-counter f counts [] = omega arith
first_count-counter f counts (a ∷ acts) = omega (
  arith,
  first_count-counter f (add_count a.fingerprint counts) acts,
  first_count-add_count f a.fingerprint counts,
)

no_circular-table :
    (limit : ℕ) (counts : List (String × ℕ))
    → ((f : String) → tally f counts < limit)
    → circular_reasons limit counts ≡ []
unfolding tally circular_reasons
no_circular-table limit [] h = refl
no_circular-table limit ((g, n) ∷ counts) h =
    ground (arith, h g, eq_iff g g, no_circular-table limit counts (λ f. ground (arith, h f)))

below-table :
    (limit : ℕ) (f : String) (counts : List (String × ℕ))
    → 0 < limit
    → circular_reasons limit counts ≡ []
    → first_count f counts < limit
unfolding first_count circular_reasons
below-table limit f [] pos h = pos
below-table limit f ((g, n) ∷ counts) pos h = ground (arith, below-table limit f counts pos)

-- For a limit that is not 0, the table of counts and the loop over it find no circular attempt
-- exactly when every fingerprint occurs fewer times than the limit.
pub no_circular_iff :
    (limit : ℕ) (acts : List ActivityRecord)
    → 0 < limit
    → (circular_reasons limit (counter [] acts) ≡ []) ↔ ((f : String) → occurrences f acts < limit)
unfolding tally first_count
no_circular_iff limit acts pos = (
  λ h f. omega (arith, below-table limit f (counter [] acts) pos h, first_count-counter f [] acts),
  λ h. no_circular-table limit (counter [] acts) (λ f. omega (arith, h f, tally-counter f [] acts)),
)

is_empty-append {ℓ} :
    {A : Type ℓ} (xs ys : List A) → is_empty (xs ++ ys) ≡ (is_empty xs && is_empty ys)
is_empty-append [] ys = refl
is_empty-append (x ∷ xs) ys = refl

empty_list {ℓ} : {A : Type ℓ} (xs : List A) → is_empty xs ≡ true → xs ≡ []
empty_list [] h = refl
empty_list (x ∷ xs) h = cc

-- The verdict of an enabled detector is the disjunction of its four signals.
detect-signals :
    (p : WatchdogPolicy) (now started_at : ℕ) (last : Option ℕ) (acts : List ActivityRecord)
    → p.enabled ≡ true
    → let boundary = boundary_of started_at last in
      let recent = since boundary acts in
      (detect p now started_at last acts).is_stalled ≡ (
        (leb p.no_progress_seconds (now - boundary) && leb p.no_progress_cycles (length recent))
        || (not (is_empty (identical_reasons p recent))
            || (not (is_empty (circular_reasons (circular_limit p) (counter [] recent)))
                || leb 2 (slow_trivial p recent))))
unfolding detect stall_reasons_of
detect-signals p now started_at last acts on = ground (
  arith,
  is_empty-append (identical_reasons p (since (boundary_of started_at last) acts)) (
      circular_reasons (circular_limit p) (counter [] (since (boundary_of started_at last) acts))
      ++ reason_if (leb 2 (slow_trivial p (since (boundary_of started_at last) acts)))
          (slow_trivial_commands (slow_trivial p (since (boundary_of started_at last) acts)))),
  is_empty-append
      (circular_reasons (circular_limit p) (counter [] (since (boundary_of started_at last) acts)))
      (reason_if (leb 2 (slow_trivial p (since (boundary_of started_at last) acts)))
        (slow_trivial_commands (slow_trivial p (since (boundary_of started_at last) acts)))),
)

circles_found :
    (limit : ℕ) (acts : List ActivityRecord) (f : String)
    → 0 < limit
    → limit ≤ occurrences f acts
    → is_empty (circular_reasons limit (counter [] acts)) ≡ false
circles_found limit acts f pos h =
    elim (Bool-cases (is_empty (circular_reasons limit (counter [] acts)))) [
      | inl e ↦ absurd (below_itself ((no_circular_iff limit acts pos).0 (empty_list _ e) f))
      | inr e ↦ e
    ]
  where
    below_itself : occurrences f acts < limit → ⊥
    below_itself lt = omega arith

-- An enabled detector reports a stall as soon as some fingerprint, whether it succeeded or failed,
-- occurs since the boundary at least three times and more often than the bound on identical failures.
pub circular_stalls :
    (p : WatchdogPolicy) (now started_at : ℕ) (last : Option ℕ) (acts : List ActivityRecord)
    (f : String)
    → p.enabled ≡ true
    → 3 ≤ occurrences f (since (boundary_of started_at last) acts)
    → p.max_identical_failures < occurrences f (since (boundary_of started_at last) acts)
    → (detect p now started_at last acts).is_stalled ≡ true
circular_stalls p now started_at last acts f on three more =
    let recent = since (boundary_of started_at last) acts in
    rw (detect-signals p now started_at last acts on)
      (ground (arith, circles_found (circular_limit p) recent f (omega arith) (omega arith)))

quiet_circles :
    (p : WatchdogPolicy) (acts : List ActivityRecord)
    → length acts < 2
    → circular_reasons (circular_limit p) (counter [] acts) ≡ []
quiet_circles p acts few =
    (no_circular_iff (circular_limit p) acts (omega arith)).1
      (λ f. omega (arith, occurrences-le f acts))

quiet_failures :
    (p : WatchdogPolicy) (acts : List ActivityRecord)
    → length acts < p.max_identical_failures
    → identical_reasons p acts ≡ []
unfolding identical_reasons
quiet_failures p acts h = ground (arith, trailing_failures-le acts)

quiet :
    (p : WatchdogPolicy) (elapsed : ℕ) (acts : List ActivityRecord)
    → length acts < 2
    → length acts < p.no_progress_cycles
    → length acts < p.max_identical_failures
    → ((leb p.no_progress_seconds elapsed && leb p.no_progress_cycles (length acts))
        || (not (is_empty (identical_reasons p acts))
            || (not (is_empty (circular_reasons (circular_limit p) (counter [] acts)))
                || leb 2 (slow_trivial p acts))))
      ≡ false
quiet p elapsed acts few cycles failures =
    rw (quiet_circles p acts few, quiet_failures p acts failures)
      (ground (arith, slow_trivial-le p acts))

-- Time alone never makes a stall: with at most one activity since the boundary, and fewer than both
-- bounds of the policy, no verdict is a stall, however late it is asked for.
pub time_alone_never_stalls :
    (p : WatchdogPolicy) (now started_at : ℕ) (last : Option ℕ) (acts : List ActivityRecord)
    → let recent = since (boundary_of started_at last) acts in
      length recent < 2
      → length recent < p.no_progress_cycles
      → length recent < p.max_identical_failures
      → (detect p now started_at last acts).is_stalled ≡ false
time_alone_never_stalls p now started_at last acts few cycles failures =
    elim (Bool-cases p.enabled) [
      | inl on ↦ rw (detect-signals p now started_at last acts on) (
          quiet p (now - boundary_of started_at last) (since (boundary_of started_at last) acts) few
            cycles failures)
      | inr off ↦ unfold detect in rw off
    ]

-- An enabled detector reports a stall when the time since the boundary reaches the policy's bound and
-- as many activities as the policy asks for were recorded in it.
pub overdue_stalls :
    (p : WatchdogPolicy) (now started_at : ℕ) (last : Option ℕ) (acts : List ActivityRecord)
    → p.enabled ≡ true
    → p.no_progress_seconds ≤ now - boundary_of started_at last
    → p.no_progress_cycles ≤ length (since (boundary_of started_at last) acts)
    → (detect p now started_at last acts).is_stalled ≡ true
unfolding detect stall_reasons_of
overdue_stalls p now started_at last acts on late many = ground arith
