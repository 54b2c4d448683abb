-- ===== src/Watchdog/Safety.antt =====
-- The state machine and the ledger of a watchdog, over any sequence of its public calls.
use mathlib.Core.List.{append-nil}
use agent_gear.Common.{ℕ, String, ◌≡◌, sym, ◌∙◌, Option, List, [], ℤ, pos, ◌+◌, ◌≤◌, arith}
use agent_gear.Errors.{ok}
use agent_gear.Floats.{float_of, require_positive_float, require_positive_int}
use agent_gear.Models.{ModelTier, ReasoningEffort}
use agent_gear.Config.{Policy}
use agent_gear.StateMachine.{StateMachine, new_machine, transition}
use agent_gear.StateMachine.History.{
  IsRecorded, Call, transition_cases, moved-IsRecorded, new_machine-IsRecorded, Extends,
  Extends-trans, transition-Extends,
}
use agent_gear.Budget.Accounts.{ceilings, ceilings-after, new_ledger-IsWithin, within_bounds}
use agent_gear.Budget.{
  Ledger, new_ledger, committed_tokens, reserved_tokens, committed_cost, reserved_cost,
}
use agent_gear.Budget.Laws.{IsWithin, LedgerCall, reserving, committing, after, after-IsWithin}
use agent_gear.Watchdog.State.{Core, Watchdog, Persistence, on_machine, on_budget}
use agent_gear.Watchdog.Api.{Event, over, run}
use agent_gear.Watchdog.Work.{new_core}
use agent_gear.Watchdog.Frame.Kept.{IsKept, framed-IsKept}
use agent_gear.Watchdog.Frame.Runs.{run-Preserves}

-- A property of the machine that each transition keeps is kept by every method.
machine-IsKept :
    (Q : StateMachine → Type 0)
    → ((c : Call) (s : StateMachine) → Q s → Q (transition c.target c.at c.evidence c.note s).1)
    → IsKept (λ c. Q c.machine)
unfolding on_machine on_budget
machine-IsKept Q keeps = framed-IsKept (record {
  same = λ c d same_machine same_budget h. rw same_machine h;
  moves = λ target at evidence note. record {
    apply = λ c h.
        keeps (record { target = target; at = at; evidence = evidence; note = note }) c.machine h;
  };
  reserves = λ kind tokens cost label. record { apply = λ c h. h };
  commits = λ id. record { apply = λ c h. h };
})

-- So is a property of the ledger that each call on it keeps.
budget-IsKept :
    (Q : Ledger → Type 0)
    → ((c : LedgerCall) (l : Ledger) → Q l → Q (after c l))
    → IsKept (λ c. Q c.budget)
unfolding on_machine on_budget after
budget-IsKept Q keeps = framed-IsKept (record {
  same = λ c d same_machine same_budget h. rw same_budget h;
  moves = λ target at evidence note. record { apply = λ c h. h };
  reserves = λ kind tokens cost label. record {
    apply = λ c h. keeps (reserving kind tokens cost label) c.budget h;
  };
  commits = λ id. record { apply = λ c h. keeps (committing id) c.budget h };
})

-- What the constructor makes: a new machine, and a new ledger of the amounts of the policy.
new_core-parts :
    (id : String) (policy : Policy) (tier : ModelTier) (reasoning : ReasoningEffort) (tokens : ℤ)
    (planned : Option (ℕ × ℕ)) (c : Core)
    → new_core id policy tier reasoning tokens planned ≡ ok c
    → (c.machine ≡ new_machine id)
      × (new_ledger
            (pos policy.budget.max_estimated_tokens)
            (float_of policy.budget.max_estimated_cost)
          ≡ ok c.budget)
      × (ceilings c.budget ≡ (policy.budget.max_estimated_tokens, policy.budget.max_estimated_cost))
unfolding new_core new_ledger require_positive_int require_positive_float
new_core-parts id policy tier reasoning tokens planned c h = ground arith

-- The invariant of the ledger, with its ceilings.
abbrev IsBounded : ℕ → ℕ → Ledger → Type 0
IsBounded max_tokens max_cost l = IsWithin l × (ceilings l ≡ (max_tokens, max_cost))

module _ {Disk : Type 0} (persistence : Option (Persistence Disk)) (disk : Disk) (id : String)
    (policy : Policy) (tier : ModelTier) (reasoning : ReasoningEffort) (tokens : ℤ)
    (planned : Option (ℕ × ℕ)) (c : Core)
    (built : new_core id policy tier reasoning tokens planned ≡ ok c) (es : List Event) where
  -- From a new watchdog, over any disk, after any public calls with any arguments, those that raise
  -- included, the history of the machine leads from PLANNING to the current state by legal moves, in
  -- order of time, and a move to COMPLETED has evidence.
  pub watchdog-IsRecorded : IsRecorded (run es (over c persistence disk)).core.machine
  unfolding over
  watchdog-IsRecorded =
      let parts = new_core-parts id policy tier reasoning tokens planned c built in
      run-Preserves
        (machine-IsKept IsRecorded (λ call s h.
          transition_cases IsRecorded call s h (λ l. moved-IsRecorded call.note s l h)))
        es (over c persistence disk) (rw parts.0 (new_machine-IsRecorded id))

  -- From a new watchdog, over any disk, after any public calls with any arguments, those that raise
  -- included, the tokens and the cost that are reserved or committed together stay within the
  -- ceilings of the policy.
  pub watchdog_within_budget :
      let l = (run es (over c persistence disk)).core.budget in
      (committed_tokens l + reserved_tokens l ≤ policy.budget.max_estimated_tokens)
      × (committed_cost l + reserved_cost l ≤ policy.budget.max_estimated_cost)
  unfolding over
  watchdog_within_budget =
      let parts = new_core-parts id policy tier reasoning tokens planned c built in
      let Q = IsBounded policy.budget.max_estimated_tokens policy.budget.max_estimated_cost in
      let kept : Q (run es (over c persistence disk)).core.budget =
        run-Preserves
          (budget-IsKept Q (λ call l h. (after-IsWithin call l h.0, ceilings-after call l ∙ h.1)))
          es (over c persistence disk) (new_ledger-IsWithin _ _ c.budget parts.1, parts.2) in
      ground (arith, within_bounds (run es (over c persistence disk)).core.budget kept.0, kept.1)

module _ {Disk : Type 0} (w : Watchdog Disk) (es : List Event) where
  -- No public call, whether it raises or not, takes back a transition: the history only grows.
  pub watchdog_history_kept : Extends w.core.machine (run es w).core.machine
  watchdog_history_kept =
      run-Preserves
        (machine-IsKept (Extends w.core.machine) (λ call s h.
          Extends-trans w.core.machine s
            (transition call.target call.at call.evidence call.note s).1 h
            (transition-Extends call s)))
        es w ([], sym (append-nil _))
