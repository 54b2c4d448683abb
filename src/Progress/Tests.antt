-- ===== src/Progress/Tests.antt =====
-- Progress reported in order and out of order.
use agent_gear.Common.{ℕ, [], ◌∷◌}
use agent_gear.Models.{error_resolved}
use agent_gear.Models.Messages.{text}
use agent_gear.Models.Records.{ProgressEvent}
use agent_gear.Progress.{new_tracker}
use agent_gear.Progress.Chronology.{record_all, IsChronological, record_all-IsChronological}

abbrev event : ℕ → ProgressEvent
event at = record { kind = error_resolved; description = text "fixed"; at_seconds = at }

record_all-IsChronological_example :
    IsChronological (record_all (event 3 ∷ event 1 ∷ event 3 ∷ event 7 ∷ []) new_tracker).events
record_all-IsChronological_example =
    record_all-IsChronological (event 3 ∷ event 1 ∷ event 3 ∷ event 7 ∷ [])
