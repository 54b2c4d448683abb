-- ===== src/Budget/Tests.antt =====
-- A ledger with a ceiling of 10 tokens and of 5 units of cost.
use agent_gear.Common.{◌+◌, ◌≤◌, ◌<◌, ◌≡◌, refl, List, [], ◌∷◌, none, some, pos, lookup, ◌⊎◌, arith}
use agent_gear.Errors.{ok, err, budget_exceeded}
use agent_gear.Floats.{float_of, require_positive_int, require_positive_float}
use agent_gear.Budget.{
  BudgetReservation, initial_plan, escalation, reserved, committed, released, Ledger, new_ledger,
  total, in_use, reserve, commit, release, resolve, next_reservation, committed_tokens,
  committed_cost, reserved_tokens,
}
use agent_gear.Budget.Laws.{IsWithin, LedgerCall, reserving, committing, releasing, run_calls}
use agent_gear.Budget.Accounts.{
  IsOnlyResolved, reserve_exact, commit_moves, release_returns, resolved_once,
}
use agent_gear.Budget.Status.{status, IsBalanced, run_calls-IsBalanced}

abbrev small : Ledger
small = record {
  max_tokens = 10;
  max_cost = 5;
  reservations = [];
  id_counter = 1;
  agent_dispatches = 0;
}

small-built : new_ledger (pos 10) (float_of 5) ≡ ok small
unfolding new_ledger require_positive_int require_positive_float
small-built = refl

small-IsWithin : IsWithin small
unfolding in_use total
small-IsWithin = record { tokens_fit = omega arith; cost_fits = omega arith; fresh = tt }

-- The second reservation does not fit, and the third does after the first is released.
abbrev calls : List LedgerCall
calls =
    reserving initial_plan (pos 8) (float_of 2) "plan"
    ∷ reserving escalation (pos 3) (float_of 1) "stalled"
    ∷ releasing 1
    ∷ reserving escalation (pos 3) (float_of 1) "stalled"
    ∷ committing 2
    ∷ []

run_calls-IsBalanced_example :
    let s = status (run_calls calls small) in (s.max_tokens ≡ 10) × (s.max_cost ≡ 5) × IsBalanced s
run_calls-IsBalanced_example = run_calls-IsBalanced (pos 10) (float_of 5) small calls small-built

reserve_exact_example :
    let r = next_reservation small initial_plan 8 2 "plan" in
    let (answer, l') = reserve initial_plan (pos 8) (float_of 2) "plan" small in
    ((answer ≡ ok r)
      × (lookup r.reservation_id small.reservations ≡ none)
      × (lookup r.reservation_id l'.reservations ≡ some r)
      × (in_use l' ≡ ((in_use small).0 + 8, (in_use small).1 + 2))
      × ((in_use small).0 + 8 ≤ 10)
      × ((in_use small).1 + 2 ≤ 5))
    ⊎ ((answer ≡ err budget_exceeded)
        × (l' ≡ small)
        × ((10 < (in_use small).0 + 8) ⊎ (5 < (in_use small).1 + 2)))
reserve_exact_example = reserve_exact initial_plan 8 2 "plan" small small-IsWithin

abbrev plan : BudgetReservation
plan = record {
  reservation_id = 1;
  kind = initial_plan;
  tokens = 8;
  cost = 2;
  state = reserved;
  label = "plan";
}

abbrev planned : Ledger
planned = record small { reservations = (1, plan) ∷ []; id_counter = 2 }

commit_moves_example :
    let (answer, l') = commit 1 planned in
    (answer ≡ ok tt)
    × IsOnlyResolved 1 plan planned committed l'
    × (committed_tokens l' ≡ committed_tokens planned + 8)
    × (reserved_tokens l' + 8 ≡ reserved_tokens planned)
    × (in_use l' ≡ in_use planned)
unfolding lookup
commit_moves_example = commit_moves 1 plan planned refl refl

release_returns_example :
    let (answer, l') = release 1 planned in
    (answer ≡ ok tt)
    × IsOnlyResolved 1 plan planned released l'
    × ((in_use l').0 + 8 ≡ (in_use planned).0)
    × (committed_tokens l' ≡ committed_tokens planned)
    × (committed_cost l' ≡ committed_cost planned)
unfolding lookup
release_returns_example = release_returns 1 plan planned refl refl

resolved_once_example :
    let l' = (resolve committed 1 planned).1 in resolve released 1 l' ≡ (err budget_exceeded, l')
unfolding lookup
resolved_once_example = resolved_once 1 plan planned committed released refl refl refl
