-- ===== src/Budget/Status.antt =====
-- What a ledger shows of itself: what remains under its ceilings, and `status`.
use agent_gear.Common.{
  ℕ, ◌+◌, ◌-◌, ◌≤◌, ◌≡◌, refl, ap, List, ℤ, pos, negsuc, length, arith, leb, le→leb, if◌then◌else◌,
}
use agent_gear.Budget.{
  Ledger, new_ledger, in_use, committed_tokens, committed_cost, reserved_tokens, reserved_cost,
  tokens_of,
}
use agent_gear.Budget.Totals.{total_parts}
use agent_gear.Budget.Laws.{IsWithin, LedgerCall, run_calls, run_calls-IsWithin}
use agent_gear.Budget.Accounts.{new_ledger-IsWithin, ceilings-run_calls}
use agent_gear.Errors.{ok}
use agent_gear.Floats.{Float}

-- The difference of two amounts, negative where the second is greater.
abbrev minus_ℤ : ℕ → ℕ → ℤ
minus_ℤ a b = if leb b a then pos (a - b) else negsuc (b - a - 1)

minus_ℤ-le : (a b : ℕ) → b ≤ a → (left : ℕ) × (minus_ℤ a b ≡ pos left) × (b + left ≡ a)
minus_ℤ-le a b h = (a - b, rw (le→leb b a h) refl, omega (arith, h))

unfoldable pub remaining_tokens : Ledger → ℤ
remaining_tokens l = minus_ℤ l.max_tokens (in_use l).0

unfoldable pub remaining_cost : Ledger → ℤ
remaining_cost l = minus_ℤ l.max_cost (in_use l).1

-- The dictionary of `status`, by its keys.
pub record LedgerStatus : Type 0 where
  pub max_tokens : ℕ
  pub max_cost : ℕ
  pub committed_tokens : ℕ
  pub committed_cost : ℕ
  pub reserved_tokens : ℕ
  pub reserved_cost : ℕ
  pub remaining_tokens : ℤ
  pub remaining_cost : ℤ
  pub agent_dispatches : ℕ
  pub reservation_count : ℕ

unfoldable pub status : Ledger → LedgerStatus
status l = record {
  max_tokens = l.max_tokens;
  max_cost = l.max_cost;
  committed_tokens = committed_tokens l;
  committed_cost = committed_cost l;
  reserved_tokens = reserved_tokens l;
  reserved_cost = reserved_cost l;
  remaining_tokens = minus_ℤ l.max_tokens (in_use l).0;
  remaining_cost = minus_ℤ l.max_cost (in_use l).1;
  agent_dispatches = l.agent_dispatches;
  reservation_count = length l.reservations;
}

-- The tokens that a status shows add up to their ceiling.
abbrev pub IsBalanced : LedgerStatus → Type 0
IsBalanced s =
    (left : ℕ) × (s.remaining_tokens ≡ pos left)
    × (s.committed_tokens + s.reserved_tokens + left ≡ s.max_tokens)

status-IsBalanced : (l : Ledger) → IsWithin l → IsBalanced (status l)
unfolding status in_use committed_tokens reserved_tokens
status-IsBalanced l h =
    let (left, shown, sum) = minus_ℤ-le l.max_tokens (in_use l).0 h.tokens_fit in
    (left, shown, omega (arith, sum, total_parts tokens_of l.reservations))

-- From a new ledger, after any calls of `reserve`, `commit` and `release` with any arguments, those
-- that raise included, `status` shows the two ceilings that the ledger was made with; the tokens that it
-- shows as remaining are not negative, and those that it shows as committed, as reserved and as remaining
-- add up to their ceiling.
pub run_calls-IsBalanced :
    (max_tokens : ℤ) (max_cost : Float) (l : Ledger) (cs : List LedgerCall)
    → new_ledger max_tokens max_cost ≡ ok l
    → let s = status (run_calls cs l) in
      (s.max_tokens ≡ l.max_tokens) × (s.max_cost ≡ l.max_cost) × IsBalanced s
unfolding status
run_calls-IsBalanced max_tokens max_cost l cs h =
    let same = ceilings-run_calls cs l in
    let within = run_calls-IsWithin cs l (new_ledger-IsWithin max_tokens max_cost l h) in
    (ap (λ c. c.0) same, ap (λ c. c.1) same, status-IsBalanced (run_calls cs l) within)
