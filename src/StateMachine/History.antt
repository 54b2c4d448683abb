-- ===== src/StateMachine/History.antt =====
-- What the history of a machine records, over any calls of `transition`, failing ones included.
use mathlib.Core.List.{append-nil, append_assoc}
use agent_gear.Common.{
  String, ◌≡◌, refl, sym, ◌∙◌, true, false, List, [], ◌∷◌, ◌++◌, arith, is_empty, get_last?,
  get_last?-append_one, ◌&&◌, Option, none, some,
}
use agent_gear.Errors.{Result, ok, err}
use agent_gear.Errors.Exec.{◌>>=◌}
use agent_gear.Floats.{Float, nan, inf, neg_inf, finite, float_ltb}
use agent_gear.Models.{ExecutionState, planning, running, testing, completed}
use agent_gear.Models.Messages.{Message}
use agent_gear.StateMachine.{
  StateMachine, TransitionRecord, new_machine, transition, can_transition, allowed, is_evidence,
  is_before, is_completed, moved,
}
use agent_gear.StateMachine.Transition.{IsLegal, transition_legal, transition_ok, transition_error}

-- A record of a legal move, with evidence that is well formed, and not empty if it completes.
pub record IsSound (r : TransitionRecord) : Type 0 where
  pub edge : allowed r.from_state r.to_state ≡ true
  pub well_formed : is_evidence r.evidence ≡ true
  pub supported : (is_completed r.to_state && is_empty r.evidence) ≡ false

-- The records lead from the first state to the last one, each from where the one before ended.
abbrev pub Trail : ExecutionState → List TransitionRecord → ExecutionState → Type 0
Trail s [] t = s ≡ t
Trail s (r ∷ rs) t = (r.from_state ≡ s) × IsSound r × Trail r.to_state rs t

-- No record has a time before the record ahead of it.
abbrev pub InOrder : List TransitionRecord → Type 0
InOrder [] = Unit
InOrder (r ∷ []) = Unit
InOrder (r ∷ q ∷ rs) = (float_ltb q.at_seconds r.at_seconds ≡ false) × InOrder (q ∷ rs)

Trail-append :
    (s t : ExecutionState) (rs : List TransitionRecord) (r : TransitionRecord)
    → Trail s rs t
    → r.from_state ≡ t
    → IsSound r
    → Trail s (rs ++ r ∷ []) r.to_state
Trail-append s t [] r h e sound = (e ∙ sym h, sound, refl)
Trail-append s t (q ∷ rs) r h e sound = (h.0, h.1, Trail-append q.to_state t rs r h.2 e sound)

InOrder-append :
    (rs : List TransitionRecord) (r : TransitionRecord)
    → InOrder rs
    → is_before r.at_seconds (get_last? rs) ≡ false
    → InOrder (rs ++ r ∷ [])
unfolding get_last?
InOrder-append [] r h e = tt
InOrder-append (q ∷ []) r h e = (e, tt)
InOrder-append (q ∷ p ∷ rs) r h e = (h.0, InOrder-append (p ∷ rs) r h.1 e)

pub record IsRecorded (s : StateMachine) : Type 0 where
  pub trail : Trail planning s.history s.state
  pub in_order : InOrder s.history

pub moved-IsRecorded :
    {target : ExecutionState} {at : Float} {evidence : List String} (note : Message)
    (s : StateMachine)
    → IsLegal target at evidence s
    → IsRecorded s
    → IsRecorded (moved target at evidence note s)
moved-IsRecorded note s l h = record {
  trail =
      Trail-append planning s.state s.history _ h.trail refl
        (record { edge = l.edge; well_formed = l.well_formed; supported = l.supported });
  in_order = InOrder-append s.history _ h.in_order l.in_order;
}

-- A call of `transition`, with its arguments.
pub record Call : Type 0 where
  pub target : ExecutionState
  pub at : Float
  pub evidence : List String
  pub note : Message

-- Every call in turn; a caller that catches the exception goes on.
unfoldable pub run : List Call → StateMachine → StateMachine
run [] s = s
run (c ∷ cs) s = run cs (transition c.target c.at c.evidence c.note s).1

-- One call either makes its move legally or changes nothing.
pub transition_cases :
    (P : StateMachine → Type 0) (c : Call) (s : StateMachine)
    → P s
    → (IsLegal c.target c.at c.evidence s → P (moved c.target c.at c.evidence c.note s))
    → P (transition c.target c.at c.evidence c.note s).1
transition_cases P c s stay go = by_result (transition c.target c.at c.evidence c.note s).0 refl
  where
    by_result :
        (r : Result Unit)
        → (transition c.target c.at c.evidence c.note s).0 ≡ r
        → P (transition c.target c.at c.evidence c.note s).1
    by_result (ok tt) h =
        let legal = transition_ok c.target c.at c.evidence c.note s h in
        rw (transition_legal c.target c.at c.evidence c.note s legal) (go legal)
    by_result (err e) h = rw (transition_error c.target c.at c.evidence c.note s e h) stay

run-IsRecorded : (cs : List Call) (s : StateMachine) → IsRecorded s → IsRecorded (run cs s)
unfolding run
run-IsRecorded [] s h = h
run-IsRecorded (c ∷ cs) s h =
    run-IsRecorded cs (transition c.target c.at c.evidence c.note s).1
      (transition_cases IsRecorded c s h (λ l. moved-IsRecorded c.note s l h))

pub new_machine-IsRecorded : (id : String) → IsRecorded (new_machine id)
unfolding new_machine
new_machine-IsRecorded id = record { trail = refl; in_order = tt }

-- From a new machine, after any calls of `transition` with any arguments, failing calls included:
-- the history leads from PLANNING to the current state, each record from the state that the one
-- before it reached; each recorded move is in the table of legal transitions, with evidence that is
-- well formed, and not empty where it reaches COMPLETED; and no record is at a time before the
-- record ahead of it.
pub history-IsRecorded : (id : String) (cs : List Call) → IsRecorded (run cs (new_machine id))
history-IsRecorded id cs = run-IsRecorded cs (new_machine id) (new_machine-IsRecorded id)

-- The second history is the first with records behind it.
abbrev pub Extends : StateMachine → StateMachine → Type 0
Extends s s' = (added : List TransitionRecord) × (s'.history ≡ s.history ++ added)

pub Extends-trans : (s t u : StateMachine) → Extends s t → Extends t u → Extends s u
Extends-trans s t u (a, p) (b, q) = (a ++ b, simp (q, p, append_assoc))

-- One call only adds records.
pub transition-Extends :
    (c : Call) (s : StateMachine) → Extends s (transition c.target c.at c.evidence c.note s).1
transition-Extends c s = transition_cases (Extends s) c s ([], sym (append-nil _)) (λ l. (_, refl))

-- The history is append-only: any calls of `transition` only add records behind those that are there.
pub history_kept : (cs : List Call) (s : StateMachine) → Extends s (run cs s)
unfolding run
history_kept [] s = ([], sym (append-nil _))
history_kept (c ∷ cs) s =
    let s' = (transition c.target c.at c.evidence c.note s).1 in
    Extends-trans s s' (run cs s') (transition-Extends c s) (history_kept cs s')

-- A call of `transition` on a completed machine changes nothing.
pub transition-completed :
    (c : Call) (s : StateMachine)
    → s.state ≡ completed
    → (transition c.target c.at c.evidence c.note s).1 ≡ s
unfolding transition can_transition allowed ◌>>=◌
transition-completed c s h = ground arith

-- COMPLETED is final: a completed machine is the same machine after any calls.
pub completed_final : (cs : List Call) (s : StateMachine) → s.state ≡ completed → run cs s ≡ s
unfolding run
completed_final [] s h = refl
completed_final (c ∷ cs) s h = rw (transition-completed c s h) (completed_final cs s h)

nan_not_before : (last : Option TransitionRecord) → is_before nan last ≡ false
unfolding float_ltb
nan_not_before none = refl
nan_not_before (some r) = refl

not_before_nan : (at : Float) → float_ltb at nan ≡ false
unfolding float_ltb
not_before_nan (finite a) = refl
not_before_nan nan = refl
not_before_nan inf = refl
not_before_nan neg_inf = refl

-- A NaN time passes the order check in both directions: a running machine, whatever times it has
-- recorded, accepts TESTING at NaN seconds, and then RUNNING again at any time at all.
pub nan_forgets_time :
    (s : StateMachine) (at : Float) (note : Message)
    → s.state ≡ running
    → (transition testing nan [] note s).0 ≡ ok tt
      × ((transition running at [] note (transition testing nan [] note s).1).0 ≡ ok tt)
unfolding allowed is_evidence
nan_forgets_time s at note h =
    rw first (refl, rw (transition_legal running at [] note (moved testing nan [] note s) again))
  where
    first : transition testing nan [] note s ≡ (ok tt, moved testing nan [] note s)
    first = transition_legal testing nan [] note s (record {
      edge = rw h;
      in_order = nan_not_before (get_last? s.history);
      well_formed = refl;
      supported = refl;
    })

    again : IsLegal running at [] (moved testing nan [] note s)
    again = record {
      edge = refl;
      in_order = rw (get_last?-append_one s.history) (not_before_nan at);
      well_formed = refl;
      supported = refl;
    }
