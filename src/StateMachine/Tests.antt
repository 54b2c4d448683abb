-- ===== src/StateMachine/Tests.antt =====
-- Calls of `transition` on concrete machines.
use agent_gear.Common.{String, ◌≡◌, refl, List, [], ◌∷◌}
use agent_gear.Errors.{ok}
use agent_gear.Floats.{Float, nan, float_of}
use agent_gear.Models.{ExecutionState, running, testing, reviewing, completed}
use agent_gear.Models.Messages.{text}
use agent_gear.StateMachine.{StateMachine, new_machine, transition}
use agent_gear.StateMachine.History.{IsRecorded, history-IsRecorded, Call, run, nan_forgets_time}

abbrev call : ExecutionState → Float → List String → Call
call target at evidence = record { target = target; at = at; evidence = evidence; note = text "" }

-- Work up to COMPLETED, with two calls that are refused.
abbrev calls : List Call
calls =
    call running (float_of 1) []
    ∷ call completed (float_of 2) ("tests pass" ∷ [])
    ∷ call reviewing (float_of 2) []
    ∷ call completed (float_of 3) []
    ∷ call completed (float_of 4) ("tests pass" ∷ [])
    ∷ []

history-IsRecorded_example : IsRecorded (run calls (new_machine "run-1"))
history-IsRecorded_example = history-IsRecorded "run-1" calls

abbrev at_work : StateMachine
at_work = record { execution_id = "run-1"; state = running; history = [] }

nan_forgets_time_example :
    let s = (transition testing nan [] (text "") at_work).1 in
    (transition testing nan [] (text "") at_work).0 ≡ ok tt
    × ((transition running (float_of 0) [] (text "") s).0 ≡ ok tt)
nan_forgets_time_example = nan_forgets_time at_work (float_of 0) (text "") refl
