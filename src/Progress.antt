-- ===== src/Progress.antt =====
-- watchdog/progress.py: the log of genuine progress.
pub mod Chronology
mod Tests
use agent_gear.Common.{
  ℕ, ◌-◌, Bool, true, false, not, Option, none, some, List, [], ◌∷◌, ◌++◌, ltb, max, is_empty,
  if◌then◌else◌,
}
use agent_gear.Errors.{Result, ok, err, invalid_observation}
use agent_gear.Errors.Exec.{Exec, raise_if, modify, gets, ◌>>=◌, ◌>>◌}
use agent_gear.Models.Records.{ProgressEvent}

pub record ProgressTracker : Type 0 where
  pub events : List ProgressEvent

unfoldable pub new_tracker : ProgressTracker
new_tracker = record { events = [] }

-- `max(e.at_seconds for e in events)`
unfoldable pub max_at : List ProgressEvent → ℕ
max_at [] = 0
max_at (e ∷ es) = max e.at_seconds (max_at es)

unfoldable pub last_progress_at : ProgressTracker → Option ℕ
last_progress_at p = elim p.events [ [] ↦ none | e ∷ es ↦ some (max_at (e ∷ es)) ]

-- `self.events and event.at_seconds < self.last_progress_at`
abbrev pub is_earlier : ℕ → Option ℕ → Bool
is_earlier at none = false
is_earlier at (some last) = ltb at last

unfoldable pub record_event : ProgressEvent → Exec ProgressTracker (Unit {0})
record_event event = do
  last ← gets last_progress_at
  raise_if (is_earlier event.at_seconds last) invalid_observation
  modify (λ p. record p { events = p.events ++ event ∷ [] })

unfoldable pub seconds_since_last_progress : ℕ → ProgressTracker → Option ℕ
seconds_since_last_progress now p = elim (last_progress_at p) [
  | none ↦ none
  | some last ↦ some (now - last)
]

unfoldable pub later_events : ℕ → List ProgressEvent → List ProgressEvent
later_events at [] = []
later_events at (e ∷ es) =
    if ltb at e.at_seconds then e ∷ later_events at es else later_events at es

unfoldable pub events_since : ℕ → ProgressTracker → List ProgressEvent
events_since at p = later_events at p.events

unfoldable pub has_progress_since : ℕ → ProgressTracker → Bool
unfolding events_since
has_progress_since at p = not (is_empty (events_since at p))
