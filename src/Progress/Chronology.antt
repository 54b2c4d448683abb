-- ===== src/Progress/Chronology.antt =====
-- The log of progress is chronological, and its last event is the latest.
use agent_gear.Common.{
  ℕ, ◌≤◌, ◌≡◌, refl, inl, inr, true, false, none, some, List, [], ◌∷◌, ◌++◌, arith, ltb, max,
  Bool-cases,
}
use agent_gear.Errors.{ok, err, invalid_observation}
use agent_gear.Errors.Exec.{◌>>=◌}
use agent_gear.Models.Records.{ProgressEvent}
use agent_gear.Progress.{
  ProgressTracker, new_tracker, last_progress_at, max_at, record_event, later_events,
  has_progress_since, is_earlier,
}

max_at-append :
    (es : List ProgressEvent) (e : ProgressEvent)
    → max_at (es ++ e ∷ []) ≡ max (max_at es) e.at_seconds
unfolding max_at
max_at-append [] e = omega arith
max_at-append (x ∷ xs) e = omega (arith, max_at-append xs e)

latest-append :
    (e : ProgressEvent) (es : List ProgressEvent)
    → is_earlier e.at_seconds (last_progress_at (record { events = es })) ≡ false
    → last_progress_at (record { events = es ++ e ∷ [] }) ≡ some e.at_seconds
unfolding last_progress_at max_at
latest-append e [] h = ground arith
latest-append e (x ∷ xs) h = ground (arith, max_at-append xs e)

module _ (e : ProgressEvent) (p : ProgressTracker) where
  -- An event that is not before the last progress is accepted, and is then the last progress.
  pub record_event_ok :
      is_earlier e.at_seconds (last_progress_at p) ≡ false
      → (record_event e p ≡ (ok tt, record p { events = p.events ++ e ∷ [] }))
        × (last_progress_at (record p { events = p.events ++ e ∷ [] }) ≡ some e.at_seconds)
  unfolding record_event ◌>>=◌
  record_event_ok h = (rw h, latest-append e p.events h)

  -- An event before the last progress is refused, and the log is as it was.
  pub record_event_error :
      is_earlier e.at_seconds (last_progress_at p) ≡ true
      → record_event e p ≡ (err invalid_observation, p)
  unfolding record_event ◌>>=◌
  record_event_error h = rw h

-- Every event of the log in turn, a refused one left out.
pub record_all : List ProgressEvent → ProgressTracker → ProgressTracker
record_all [] p = p
record_all (e ∷ es) p = record_all es (record_event e p).1

-- No event is before the one ahead of it.
abbrev pub IsChronological : List ProgressEvent → Type 0
IsChronological [] = Unit
IsChronological (e ∷ []) = Unit
IsChronological (e ∷ f ∷ es) = (e.at_seconds ≤ f.at_seconds) × IsChronological (f ∷ es)

IsChronological-append :
    (es : List ProgressEvent) (e : ProgressEvent)
    → IsChronological es
    → max_at es ≤ e.at_seconds
    → IsChronological (es ++ e ∷ [])
unfolding max_at
IsChronological-append [] e h le = tt
IsChronological-append (x ∷ []) e h le = (omega arith, tt)
IsChronological-append (x ∷ y ∷ xs) e h le =
    (h.0, IsChronological-append (y ∷ xs) e h.1 (omega arith))

latest_bound :
    (e : ProgressEvent) (es : List ProgressEvent)
    → is_earlier e.at_seconds (last_progress_at (record { events = es })) ≡ false
    → max_at es ≤ e.at_seconds
unfolding last_progress_at max_at
latest_bound e [] h = omega arith
latest_bound e (x ∷ xs) h = ground arith

record_event-IsChronological :
    (e : ProgressEvent) (p : ProgressTracker)
    → IsChronological p.events
    → IsChronological (record_event e p).1.events
record_event-IsChronological e p h =
    elim (Bool-cases (is_earlier e.at_seconds (last_progress_at p))) [
      | inl early ↦ rw (record_event_error e p early) h
      | inr fine ↦
          rw ((record_event_ok e p fine).0)
            (IsChronological-append p.events e h (latest_bound e p.events fine))
    ]

record_all-from :
    (es : List ProgressEvent) (p : ProgressTracker)
    → IsChronological p.events
    → IsChronological (record_all es p).events
unfolding record_all
record_all-from [] p h = h
record_all-from (e ∷ es) p h =
    record_all-from es (record_event e p).1 (record_event-IsChronological e p h)

-- The log is chronological whatever events are reported, in whatever order: those that are out of
-- order are refused.
pub record_all-IsChronological :
    (es : List ProgressEvent) → IsChronological (record_all es new_tracker).events
unfolding new_tracker
record_all-IsChronological es = record_all-from es new_tracker tt

later_iff :
    (at : ℕ) (es : List ProgressEvent)
    → has_progress_since at (record { events = es })
      ≡ elim (last_progress_at (record { events = es })) [ none ↦ false | some last ↦ ltb at last ]
unfolding has_progress_since later_events last_progress_at max_at
later_iff at [] = refl
later_iff at (e ∷ []) = ground arith
later_iff at (e ∷ f ∷ es) = ground (arith, later_iff at (f ∷ es))

-- There was progress since a time exactly when the last progress is later than that time.
pub has_progress_iff_latest :
    (at : ℕ) (p : ProgressTracker)
    → has_progress_since at p ≡ elim (last_progress_at p) [ none ↦ false | some last ↦ ltb at last ]
has_progress_iff_latest at p = later_iff at p.events
