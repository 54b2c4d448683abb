-- ===== src/Stall/Tests.antt =====
-- Verdicts on a few activities.
use agent_gear.Common.{
  ℕ, ◌<◌, ◌≡◌, ◌↔◌, refl, Bool, true, false, String, none, some, List, [], ◌∷◌, ◌++◌, length, arith,
}
use agent_gear.Config.{WatchdogPolicy, default_watchdog}
use agent_gear.Stall.{ActivityRecord, detect, since, circular_reasons, counter}
use agent_gear.Stall.Boundary.{old_activity_ignored}
use agent_gear.Stall.Signals.{occurrences, no_circular_iff, time_alone_never_stalls}

abbrev at : ℕ → String → Bool → ActivityRecord
at t fingerprint succeeded = record {
  at_seconds = t;
  fingerprint = fingerprint;
  succeeded = succeeded;
  is_trivial = false;
  duration_seconds = 1;
  error = none;
}

abbrev acts : List ActivityRecord
acts = at 3 "edit" true ∷ at 4 "test" false ∷ at 5 "edit" true ∷ at 6 "edit" true ∷ []

abbrev strict : WatchdogPolicy
strict = record default_watchdog {
  no_progress_seconds = 4;
  no_progress_cycles = 4;
  max_identical_failures = 2;
}

old_activity_ignored_example :
    detect strict 9 0
      (some 2)
      (at 3 "plan" true ∷ [] ++ (at 1 "test" false ∷ at 2 "test" false ∷ [] ++ acts))
    ≡ detect strict 9 0 (some 2) (at 3 "plan" true ∷ [] ++ acts)
old_activity_ignored_example =
    old_activity_ignored strict 9 0 (some 2) (at 3 "plan" true ∷ [])
      (at 1 "test" false ∷ at 2 "test" false ∷ []) acts (omega arith, (omega arith, tt))

no_circular_iff_example :
    (circular_reasons 3 (counter [] acts) ≡ []) ↔ ((f : String) → occurrences f acts < 3)
no_circular_iff_example = no_circular_iff 3 acts (omega arith)

one : length (since 5 acts) ≡ 1
unfolding since
one = refl

time_alone_never_stalls_example : (detect strict 900 0 (some 5) acts).is_stalled ≡ false
time_alone_never_stalls_example =
    time_alone_never_stalls strict 900 0 (some 5) acts (omega (arith, one)) (omega (arith, one))
      (omega (arith, one))
