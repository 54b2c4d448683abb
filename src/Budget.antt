-- ===== src/Budget.antt =====
-- budget.py: the ledger of one execution. A reservation's identifier f"res-{n}" is its number n.
pub mod Totals
pub mod Laws
pub mod Accounts
pub mod Status
pub mod Kinds
mod Tests
use agent_gear.Common.{
  ℕ, suc, ◌+◌, ◌-◌, String, Bool, true, false, not, ◌&&◌, Option, none, some, List, [], ◌∷◌, ℤ, leb,
  if◌then◌else◌, Dict, lookup, insert,
}
use agent_gear.Errors.{Result, ok, err, configuration, budget_exceeded}
use agent_gear.Errors.Exec.{Exec, pure, asks, raise, raise_if, lift, gets, modify, ◌>>=◌, ◌>>◌}
use agent_gear.Errors.Checks
use agent_gear.Floats.{
  Float, require_non_negative_float, require_non_negative_int, require_positive_float,
  require_positive_int,
}

pub data ReservationKind : Type 0 where
  initial_plan escalation recovery agent_dispatch : ReservationKind

pub data ReservationState : Type 0 where
  reserved committed released : ReservationState

pub record BudgetReservation : Type 0 where
  pub reservation_id : ℕ
  pub kind : ReservationKind
  pub tokens : ℕ
  pub cost : ℕ
  pub state : ReservationState
  pub label : String

pub record Ledger : Type 0 where
  pub max_tokens : ℕ
  pub max_cost : ℕ
  pub reservations : Dict BudgetReservation
  -- the next number of `itertools.count(1)`
  pub id_counter : ℕ
  pub agent_dispatches : ℕ

unfoldable pub new_ledger : ℤ → Float → Result Ledger
new_ledger max_tokens max_cost =
    Checks.◌>>=◌ (require_positive_int configuration max_tokens) λ tokens.
      Checks.◌>>=◌ (require_positive_float configuration max_cost) λ cost. ok (record {
        max_tokens = tokens;
        max_cost = cost;
        reservations = [];
        id_counter = 1;
        agent_dispatches = 0;
      })

abbrev pub is_reserved : ReservationState → Bool
is_reserved reserved = true
is_reserved _ = false

abbrev pub is_committed : ReservationState → Bool
is_committed committed = true
is_committed _ = false

abbrev pub is_released : ReservationState → Bool
is_released released = true
is_released _ = false

-- `sum(f(r) for r in reservations.values() if keep(r.state))`
unfoldable pub total :
    (BudgetReservation → ℕ) → (ReservationState → Bool) → Dict BudgetReservation → ℕ
total f keep [] = 0
total f keep ((_, r) ∷ rs) = (if keep r.state then f r else 0) + total f keep rs

abbrev pub tokens_of : BudgetReservation → ℕ
tokens_of r = r.tokens

abbrev pub cost_of : BudgetReservation → ℕ
cost_of r = r.cost

abbrev pub not_released : ReservationState → Bool
not_released s = not (is_released s)

-- `_in_use`
unfoldable pub in_use : Ledger → ℕ × ℕ
in_use l = (total tokens_of not_released l.reservations, total cost_of not_released l.reservations)

unfoldable pub committed_tokens : Ledger → ℕ
committed_tokens l = total tokens_of is_committed l.reservations

unfoldable pub committed_cost : Ledger → ℕ
committed_cost l = total cost_of is_committed l.reservations

unfoldable pub reserved_tokens : Ledger → ℕ
reserved_tokens l = total tokens_of is_reserved l.reservations

unfoldable pub reserved_cost : Ledger → ℕ
reserved_cost l = total cost_of is_reserved l.reservations

-- `can_afford` after its two checks.
unfoldable pub affordable : Ledger → ℕ → ℕ → Bool
unfolding in_use
affordable l tokens cost =
    let (in_use_tokens, in_use_cost) = in_use l in
    leb (in_use_tokens + tokens) l.max_tokens && leb (in_use_cost + cost) l.max_cost

unfoldable pub can_afford : Ledger → ℤ → Float → Result Bool
can_afford l tokens cost =
    Checks.◌>>=◌ (require_non_negative_int configuration tokens)
      λ t. Checks.◌>>=◌ (require_non_negative_float configuration cost) λ c. ok (affordable l t c)

abbrev pub is_dispatch : ReservationKind → Bool
is_dispatch agent_dispatch = true
is_dispatch _ = false

-- The reservation that `reserve` makes next.
abbrev pub next_reservation : Ledger → ReservationKind → ℕ → ℕ → String → BudgetReservation
next_reservation l kind tokens cost label = record {
  reservation_id = l.id_counter;
  kind = kind;
  tokens = tokens;
  cost = cost;
  state = reserved;
  label = label;
}

abbrev pub with_reservation : BudgetReservation → Ledger → Ledger
with_reservation r l = record l {
  reservations = insert r.reservation_id r l.reservations;
  id_counter = suc l.id_counter;
  agent_dispatches = l.agent_dispatches + (if is_dispatch r.kind then 1 else 0);
}

unfoldable pub reserve : ReservationKind → ℤ → Float → String → Exec Ledger BudgetReservation
reserve kind tokens cost label = do
  t ← lift (require_non_negative_int configuration tokens)
  c ← lift (require_non_negative_float configuration cost)
  affordable_now ← gets (λ l. affordable l t c)
  raise_if (not affordable_now) budget_exceeded
  reservation ← gets (λ l. next_reservation l kind t c label)
  modify (with_reservation reservation)
  pure reservation

-- `_require_reservation`
unfoldable pub require_reservation : ℕ → Ledger → Result BudgetReservation
require_reservation id l = elim (lookup id l.reservations) [
  | none ↦ err budget_exceeded
  | some r ↦ ok r
]

-- `self._reservations[id] = _replace_state(reservation, state)`
unfoldable pub replace_state : ℕ → BudgetReservation → ReservationState → Ledger → Ledger
replace_state id r state l = record l {
  reservations = insert id (record r { state = state }) l.reservations;
}

-- The common course of `commit` and `release`, which differ in the state that they write.
unfoldable pub resolve : ReservationState → ℕ → Exec Ledger (Unit {0})
resolve target id = do
  r ← asks (require_reservation id)
  raise_if (not (is_reserved r.state)) budget_exceeded
  modify (replace_state id r target)

unfoldable pub commit : ℕ → Exec Ledger (Unit {0})
unfolding resolve
commit id = resolve committed id

unfoldable pub release : ℕ → Exec Ledger (Unit {0})
unfolding resolve
release id = resolve released id
