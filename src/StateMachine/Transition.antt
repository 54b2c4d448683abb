-- ===== src/StateMachine/Transition.antt =====
-- What one call of `transition` does, on every branch.
use agent_gear.Common.{String, ◌≡◌, true, false, ◌&&◌, List, arith, is_empty, get_last?}
use agent_gear.Errors.{Error, ok, err}
use agent_gear.Errors.Exec.{◌>>=◌}
use agent_gear.Floats.{Float}
use agent_gear.Models.{ExecutionState}
use agent_gear.Models.Messages.{Message}
use agent_gear.StateMachine.{
  StateMachine, transition, can_transition, allowed, is_evidence, is_before, is_completed, moved,
}

-- What `transition` asks for.
pub record IsLegal (target : ExecutionState) (at : Float) (evidence : List String)
    (s : StateMachine) : Type 0 where
  pub edge : allowed s.state target ≡ true
  pub in_order : is_before at (get_last? s.history) ≡ false
  pub well_formed : is_evidence evidence ≡ true
  pub supported : (is_completed target && is_empty evidence) ≡ false

module _ (target : ExecutionState) (at : Float) (evidence : List String) (note : Message)
    (s : StateMachine) where
  -- A legal transition succeeds, and makes exactly the move.
  pub transition_legal :
      IsLegal target at evidence s
      → transition target at evidence note s ≡ (ok tt, moved target at evidence note s)
  unfolding transition can_transition ◌>>=◌
  transition_legal h = rw (h.edge, h.in_order, h.well_formed, h.supported)

  -- A transition that succeeds was legal.
  pub transition_ok :
      (transition target at evidence note s).0 ≡ ok tt → IsLegal target at evidence s
  unfolding transition can_transition ◌>>=◌
  transition_ok h = ground arith

  -- A transition that raises leaves the machine as it was.
  pub transition_error :
      (e : Error)
      → (transition target at evidence note s).0 ≡ err e
      → (transition target at evidence note s).1 ≡ s
  unfolding transition can_transition ◌>>=◌
  transition_error e h = ground arith
