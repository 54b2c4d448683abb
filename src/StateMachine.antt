-- ===== src/StateMachine.antt =====
-- watchdog/state_machine.py: the table of legal transitions, and the machine that records each one.
pub mod Transition
pub mod History
mod Tests
use agent_gear.Common.{
  ℕ, String, Bool, true, false, not, ◌&&◌, Option, none, some, List, [], ◌∷◌, ◌++◌, is_blank,
  is_empty, all, get_last?,
}
use agent_gear.Errors.{
  Error, Result, ok, err, invalid_state_transition, invalid_observation, not_completed,
}
use agent_gear.Errors.Exec.{Exec, raise_if, modify, ◌>>=◌, ◌>>◌}
use agent_gear.Floats.{Float, float_ltb}
use agent_gear.Models.{
  ExecutionState, planning, running, testing, reviewing, stalled, recovering, blocked, completed,
}
use agent_gear.Models.Messages.{Message}

-- `target in _ALLOWED[state]`
unfoldable pub allowed : ExecutionState → ExecutionState → Bool
allowed planning running = true
allowed planning stalled = true
allowed running testing = true
allowed running reviewing = true
allowed running stalled = true
allowed testing running = true
allowed testing reviewing = true
allowed testing stalled = true
allowed reviewing running = true
allowed reviewing completed = true
allowed reviewing stalled = true
allowed stalled recovering = true
allowed recovering planning = true
allowed recovering running = true
allowed recovering testing = true
allowed recovering reviewing = true
allowed recovering stalled = true
allowed recovering blocked = true
allowed blocked recovering = true
allowed _ _ = false

pub record TransitionRecord : Type 0 where
  pub from_state : ExecutionState
  pub to_state : ExecutionState
  pub at_seconds : Float
  pub note : Message
  pub evidence : List String

pub record StateMachine : Type 0 where
  pub execution_id : String
  pub state : ExecutionState
  pub history : List TransitionRecord

-- A machine as it is constructed.
unfoldable pub new_machine : String → StateMachine
new_machine execution_id = record { execution_id = execution_id; state = planning; history = [] }

abbrev pub is_completed : ExecutionState → Bool
is_completed completed = true
is_completed _ = false

-- `self.history and at_seconds < self.history[-1].at_seconds`
abbrev pub is_before : Float → Option TransitionRecord → Bool
is_before at none = false
is_before at (some r) = float_ltb at r.at_seconds

-- Every item of the evidence is a text that is not blank.
unfoldable pub is_evidence : List String → Bool
unfolding all
is_evidence evidence = all (λ item. not (is_blank item)) evidence

unfoldable pub can_transition : StateMachine → ExecutionState → Bool
can_transition s target = allowed s.state target

-- The move itself: one more record, and the new state.
abbrev pub moved : ExecutionState → Float → List String → Message → StateMachine → StateMachine
moved target at evidence note s = record s {
  state = target;
  history =
      s.history
      ++ (record {
        from_state = s.state;
        to_state = target;
        at_seconds = at;
        note = note;
        evidence = evidence;
      })
        ∷ [];
}

-- `transition`; the type of the target makes the check of its type.
unfoldable pub transition :
    ExecutionState → Float → List String → Message → Exec StateMachine (Unit {0})
transition target at evidence note s =
    (do
      raise_if (not (can_transition s target)) invalid_state_transition
      raise_if (is_before at (get_last? s.history)) invalid_state_transition
      raise_if (not (is_evidence evidence)) invalid_observation
      raise_if (is_completed target && is_empty evidence) not_completed
      modify (moved target at evidence note))
      s

unfoldable pub is_terminal : StateMachine → Bool
is_terminal s = is_completed s.state
