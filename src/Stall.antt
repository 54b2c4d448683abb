-- ===== src/Stall.antt =====
-- watchdog/stall_detection.py: the signals of a stall, over the activity since the last progress.
pub mod Boundary
pub mod Signals
mod Tests
use mathlib.Core.List.{reverse}
use agent_gear.Common.{
  ℕ, zero, suc, ◌+◌, ◌-◌, String, Bool, true, false, not, ◌&&◌, Option, none, some, List, [], ◌∷◌,
  ◌++◌, ltb, leb, max, is_empty, length, if◌then◌else◌, str_eq, is_blank, all,
}
use agent_gear.Errors.{Result, ok, invalid_observation}
use agent_gear.Errors.Checks.{◌>>=◌, ◌>>◌, raise_if, raise_if_some}
use agent_gear.Floats.{Float, require_non_negative_float}
use agent_gear.Config.{WatchdogPolicy}
use agent_gear.Models.Messages.{
  StallReason, no_progress, identical_failures, circular_attempts, slow_trivial_commands,
}
use agent_gear.Recovery.{reason_if}

pub record ActivityRecord : Type 0 where
  pub at_seconds : ℕ
  pub fingerprint : String
  pub succeeded : Bool
  pub is_trivial : Bool
  pub duration_seconds : ℕ
  pub error : Option String

unfoldable pub make_activity :
    Float → String → Bool → Bool → Float → Option String → Result ActivityRecord
unfolding require_non_negative_float
make_activity at fingerprint succeeded is_trivial duration error = do
  t ← require_non_negative_float invalid_observation at
  raise_if (is_blank fingerprint) invalid_observation
  d ← require_non_negative_float invalid_observation duration
  raise_if_some is_blank error invalid_observation
  ok (record {
    at_seconds = t;
    fingerprint = fingerprint;
    succeeded = succeeded;
    is_trivial = is_trivial;
    duration_seconds = d;
    error = error;
  })

pub record StallVerdict : Type 0 where
  pub is_stalled : Bool
  pub reasons : List StallReason

-- `last_progress_at if last_progress_at is not None else started_at`
abbrev pub boundary_of : ℕ → Option ℕ → ℕ
boundary_of started_at none = started_at
boundary_of started_at (some at) = at

-- `[a for a in recent_activities if a.at_seconds > boundary]`
unfoldable pub since : ℕ → List ActivityRecord → List ActivityRecord
since boundary [] = []
since boundary (a ∷ acts) =
    if ltb boundary a.at_seconds then a ∷ since boundary acts else since boundary acts

-- The loop over the reversed list, which breaks at a success.
unfoldable pub leading_failures : List ActivityRecord → ℕ
leading_failures [] = 0
leading_failures (a ∷ acts) = if a.succeeded then 0 else suc (leading_failures acts)

unfoldable pub trailing_failures : List ActivityRecord → ℕ
unfolding leading_failures
trailing_failures acts = leading_failures (reverse acts)

unfoldable pub drop {ℓ} : {A : Type ℓ} → ℕ → List A → List A
drop zero xs = xs
drop (suc n) [] = []
drop (suc n) (x ∷ xs) = drop n xs

-- `xs[-n:]`, which is the whole list for n = 0.
unfoldable pub last_items {ℓ} : {A : Type ℓ} → ℕ → List A → List A
unfolding drop
last_items zero xs = xs
last_items (suc n) xs = drop (length xs - suc n) xs

-- The fingerprint that all records share, if there is one: `len({a.fingerprint …}) == 1`.
unfoldable pub shared_fingerprint : List ActivityRecord → Option String
unfolding all
shared_fingerprint [] = none
shared_fingerprint (a ∷ acts) =
    if all (λ b. str_eq b.fingerprint a.fingerprint) acts then some a.fingerprint else none

abbrev pub identical_reason : ℕ → Option String → List StallReason
identical_reason n none = []
identical_reason n (some fingerprint) = identical_failures n fingerprint ∷ []

unfoldable pub identical_reasons : WatchdogPolicy → List ActivityRecord → List StallReason
identical_reasons p acts =
    let n = trailing_failures acts in
    if leb p.max_identical_failures n
    then identical_reason n (shared_fingerprint (last_items n acts))
    else []

-- `Counter(…)`: each fingerprint with its count, in the order of first appearance.
unfoldable pub add_count : String → List (String × ℕ) → List (String × ℕ)
add_count f [] = (f, 1) ∷ []
add_count f ((g, n) ∷ counts) =
    if str_eq f g then (g, n + 1) ∷ counts else (g, n) ∷ add_count f counts

unfoldable pub counter : List (String × ℕ) → List ActivityRecord → List (String × ℕ)
unfolding add_count
counter counts [] = counts
counter counts (a ∷ acts) = counter (add_count a.fingerprint counts) acts

-- The loop over the counts, which breaks at the first one that reaches the limit.
unfoldable pub circular_reasons : ℕ → List (String × ℕ) → List StallReason
circular_reasons limit [] = []
circular_reasons limit ((f, n) ∷ counts) =
    if leb limit n then circular_attempts f n ∷ [] else circular_reasons limit counts

abbrev pub circular_limit : WatchdogPolicy → ℕ
circular_limit p = max 3 (p.max_identical_failures + 1)

-- `len([a for a in since_boundary if a.is_trivial and a.duration_seconds >= …])`
unfoldable pub slow_trivial : WatchdogPolicy → List ActivityRecord → ℕ
slow_trivial p [] = 0
slow_trivial p (a ∷ acts) =
    (if a.is_trivial && leb p.trivial_command_timeout_seconds a.duration_seconds then 1 else 0)
    + slow_trivial p acts

-- The reasons, from the activity since the boundary.
unfoldable pub stall_reasons_of : WatchdogPolicy → ℕ → List ActivityRecord → List StallReason
stall_reasons_of p elapsed acts =
    reason_if (leb p.no_progress_seconds elapsed && leb p.no_progress_cycles (length acts))
      (no_progress elapsed (length acts))
    ++ (identical_reasons p acts
        ++ (circular_reasons (circular_limit p) (counter [] acts)
            ++ reason_if (leb 2 (slow_trivial p acts))
                (slow_trivial_commands (slow_trivial p acts))))

-- `StallDetector.evaluate`; `max(0.0, now - boundary)` is the subtraction that stops at 0.
unfoldable pub detect : WatchdogPolicy → ℕ → ℕ → Option ℕ → List ActivityRecord → StallVerdict
detect p now started_at last_progress_at activities =
    if p.enabled
    then (let boundary = boundary_of started_at last_progress_at in
        let reasons = stall_reasons_of p (now - boundary) (since boundary activities) in
        record { is_stalled = not (is_empty reasons); reasons = reasons })
    else record { is_stalled = false; reasons = [] }
