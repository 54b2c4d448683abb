-- ===== src/Stall/Boundary.antt =====
-- Only activity after the last progress counts, and time alone never makes a stall.
use mathlib.Core.List.{reverse, reverse-append}
use agent_gear.Common.{
  ℕ, ◌≤◌, ◌≡◌, refl, ◌∙◌, ap, Option, List, [], ◌∷◌, ◌++◌, arith, All, length, length-append,
  le→ltb_false,
}
use agent_gear.Config.{WatchdogPolicy}
use agent_gear.Stall.{
  ActivityRecord, detect, since, boundary_of, trailing_failures, leading_failures, slow_trivial,
}

since-old :
    (boundary : ℕ) (old acts : List ActivityRecord)
    → All (λ a. a.at_seconds ≤ boundary) old
    → since boundary (old ++ acts) ≡ since boundary acts
unfolding since
since-old boundary [] acts h = refl
since-old boundary (a ∷ old) acts h =
    rw (le→ltb_false boundary a.at_seconds h.0) (since-old boundary old acts h.1)

since-between :
    (boundary : ℕ) (before old acts : List ActivityRecord)
    → All (λ a. a.at_seconds ≤ boundary) old
    → since boundary (before ++ (old ++ acts)) ≡ since boundary (before ++ acts)
unfolding since
since-between boundary [] old acts h = since-old boundary old acts h
since-between boundary (a ∷ before) old acts h = rw (since-between boundary before old acts h) refl

-- Activity at or before the boundary (the last progress, or the start where there was none) changes
-- no verdict, wherever it stands in the list of activity: the detector says the same with it and without
-- it.
pub old_activity_ignored :
    (p : WatchdogPolicy) (now started_at : ℕ) (last : Option ℕ)
    (before old acts : List ActivityRecord)
    → All (λ a. a.at_seconds ≤ boundary_of started_at last) old
    → detect p now started_at last (before ++ (old ++ acts))
      ≡ detect p now started_at last (before ++ acts)
unfolding detect
old_activity_ignored p now started_at last before old acts h =
    rw (since-between (boundary_of started_at last) before old acts h)

leading_failures-le : (acts : List ActivityRecord) → leading_failures acts ≤ length acts
unfolding leading_failures
leading_failures-le [] = omega arith
leading_failures-le (a ∷ acts) = ground (arith, leading_failures-le acts)

length-reverse : (acts : List ActivityRecord) → length (reverse acts) ≡ length acts
length-reverse [] = refl
length-reverse (a ∷ acts) =
    ap length (reverse-append (a ∷ []) acts)
    ∙ omega (arith, length-append (reverse acts) (a ∷ []), length-reverse acts)

pub trailing_failures-le : (acts : List ActivityRecord) → trailing_failures acts ≤ length acts
unfolding trailing_failures
trailing_failures-le acts = omega (arith, leading_failures-le (reverse acts), length-reverse acts)

pub slow_trivial-le :
    (p : WatchdogPolicy) (acts : List ActivityRecord) → slow_trivial p acts ≤ length acts
unfolding slow_trivial
slow_trivial-le p [] = omega arith
slow_trivial-le p (a ∷ acts) = ground (arith, slow_trivial-le p acts)
