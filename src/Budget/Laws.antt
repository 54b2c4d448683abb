-- ===== src/Budget/Laws.antt =====
-- What `reserve`, `commit` and `release` do to a ledger, on every branch.
use agent_gear.Common.{
  ℕ, suc, ◌+◌, ◌≤◌, ◌≡◌, true, false, String, some, none, List, [], ◌∷◌, arith, if◌then◌else◌,
  lookup, KeysBelow, insert_fresh, KeysBelow-suc, insert-KeysBelow, lookup-lt, Bool-cases, inl, inr,
  ℤ, pos, negsuc, Option-cases,
}
use agent_gear.Errors.{Error, ok, err, budget_exceeded}
use agent_gear.Errors.Exec.{◌>>=◌}
use agent_gear.Floats.{
  Float, nan, inf, neg_inf, finite, float_of, require_non_negative_float, require_non_negative_int,
}
use agent_gear.Budget.{
  BudgetReservation, ReservationKind, ReservationState, reserved, committed, released, Ledger,
  tokens_of, cost_of, is_reserved, not_released, in_use, affordable, reserve, commit, release,
  resolve, require_reservation, replace_state, next_reservation, with_reservation,
}
use agent_gear.Budget.Totals.{total-append, total-insert}

-- The invariant of a ledger: what is in use is within both ceilings, and the numbers that the
-- counter has yet to give out are not taken.
pub record IsWithin (l : Ledger) : Type 0 where
  pub tokens_fit : (in_use l).0 ≤ l.max_tokens
  pub cost_fits : (in_use l).1 ≤ l.max_cost
  pub fresh : KeysBelow l.id_counter l.reservations

pub affordable_fits :
    (l : Ledger) (t c : ℕ)
    → affordable l t c ≡ true
    → ((in_use l).0 + t ≤ l.max_tokens) × ((in_use l).1 + c ≤ l.max_cost)
unfolding affordable
affordable_fits l t c h = ground arith

pub fits_affordable :
    (l : Ledger) (t c : ℕ)
    → (in_use l).0 + t ≤ l.max_tokens
    → (in_use l).1 + c ≤ l.max_cost
    → affordable l t c ≡ true
unfolding affordable
fits_affordable l t c h k = ground arith

-- Within the ceilings `reserve` gives the next reservation and enters it; else it raises and the
-- ledger is as it was.
pub reserve_lem :
    (kind : ReservationKind) (t c : ℕ) (label : String) (l : Ledger)
    → reserve kind (pos t) (float_of c) label l ≡ (
        if affordable l t c
        then (
          ok (next_reservation l kind t c label),
          with_reservation (next_reservation l kind t c label) l,
        )
        else (err budget_exceeded, l))
unfolding reserve require_non_negative_int require_non_negative_float ◌>>=◌
reserve_lem kind t c label l = ground arith

-- Whatever the arguments, a `reserve` that raises leaves the ledger as it was.
pub reserve_error :
    (kind : ReservationKind) (tokens : ℤ) (cost : Float) (label : String) (l : Ledger) (e : Error)
    → (reserve kind tokens cost label l).0 ≡ err e
    → (reserve kind tokens cost label l).1 ≡ l
unfolding reserve require_non_negative_int require_non_negative_float ◌>>=◌
reserve_error kind tokens cost label l e h = ground arith

-- A call of `reserve` with any arguments leaves the ledger as it was, or enters the next reservation
-- for amounts that are affordable.
pub reserve_cases :
    (P : Ledger → Type 0) (kind : ReservationKind) (tokens : ℤ) (cost : Float) (label : String)
    (l : Ledger)
    → P l
    → ((t c : ℕ)
        → affordable l t c ≡ true
        → P (with_reservation (next_reservation l kind t c label) l))
    → P (reserve kind tokens cost label l).1
unfolding reserve require_non_negative_int require_non_negative_float ◌>>=◌
reserve_cases P kind (negsuc n) cost label l stay go = stay
reserve_cases P kind (pos t) (finite (negsuc n)) label l stay go = stay
reserve_cases P kind (pos t) (finite (pos c)) label l stay go =
    elim (Bool-cases (affordable l t c)) [ inl e ↦ rw e (go t c e) | inr e ↦ rw e stay ]
reserve_cases P kind (pos t) nan label l stay go = stay
reserve_cases P kind (pos t) inf label l stay go = stay
reserve_cases P kind (pos t) neg_inf label l stay go = stay

-- A new reservation adds its tokens and its cost to what is in use.
pub in_use-with_reservation :
    (kind : ReservationKind) (t c : ℕ) (label : String) (l : Ledger)
    → KeysBelow l.id_counter l.reservations
    → in_use (with_reservation (next_reservation l kind t c label) l)
      ≡ ((in_use l).0 + t, (in_use l).1 + c)
unfolding in_use
in_use-with_reservation kind t c label l h =
    let r = next_reservation l kind t c label in
    rw (insert_fresh l.id_counter r l.reservations h) (
      ground (
        arith,
        total-append tokens_of not_released l.id_counter r l.reservations,
        total-append cost_of not_released l.id_counter r l.reservations,
      ))

pub with_reservation-IsWithin :
    (kind : ReservationKind) (t c : ℕ) (label : String) (l : Ledger)
    → affordable l t c ≡ true
    → IsWithin l
    → IsWithin (with_reservation (next_reservation l kind t c label) l)
with_reservation-IsWithin kind t c label l e h =
    let adds = in_use-with_reservation kind t c label l h.fresh in
    let fits = affordable_fits l t c e in
    record {
      tokens_fit = rw adds fits.0;
      cost_fits = rw adds fits.1;
      fresh =
          insert-KeysBelow (suc l.id_counter) l.id_counter _ l.reservations (omega arith)
            (KeysBelow-suc l.id_counter l.reservations h.fresh);
    }

module _ (target : ReservationState) (id : ℕ) (l : Ledger) where
  -- A reservation that is still reserved is resolved.
  pub resolve_reserved :
      (r : BudgetReservation)
      → lookup id l.reservations ≡ some r
      → r.state ≡ reserved
      → resolve target id l ≡ (ok tt, replace_state id r target l)
  unfolding resolve require_reservation ◌>>=◌
  resolve_reserved r h e = ground arith

  -- One that is committed or released already is refused, and so is a number that is not there.
  pub resolve_spent :
      (r : BudgetReservation)
      → lookup id l.reservations ≡ some r
      → is_reserved r.state ≡ false
      → resolve target id l ≡ (err budget_exceeded, l)
  unfolding resolve require_reservation ◌>>=◌
  resolve_spent r h e = ground arith

  pub resolve_missing :
      lookup id l.reservations ≡ none → resolve target id l ≡ (err budget_exceeded, l)
  unfolding resolve require_reservation ◌>>=◌
  resolve_missing h = ground arith

  -- Either one reservation that is still reserved changes its state, or nothing changes.
  pub resolve_cases :
      (P : Ledger → Type 0)
      → P l
      → ((r : BudgetReservation)
          → lookup id l.reservations ≡ some r
          → r.state ≡ reserved
          → P (replace_state id r target l))
      → P (resolve target id l).1
  resolve_cases P stay go = elim (Option-cases (lookup id l.reservations)) [
    | inl e ↦ rw (resolve_missing e) stay
    | inr (r, e) ↦ elim (Bool-cases (is_reserved r.state)) [
      | inl k ↦ rw (resolve_reserved r e (ground (arith, k))) (go r e (ground (arith, k)))
      | inr k ↦ rw (resolve_spent r e k) stay
    ]
  ]

replace_state-IsWithin :
    (target : ReservationState) (id : ℕ) (r : BudgetReservation) (l : Ledger)
    → lookup id l.reservations ≡ some r
    → r.state ≡ reserved
    → IsWithin l
    → IsWithin (replace_state id r target l)
unfolding replace_state in_use
replace_state-IsWithin target id r l at was h = record {
  tokens_fit = ground (
    arith,
    h.tokens_fit,
    total-insert tokens_of not_released id (record r { state = target }) r l.reservations at,
  );
  cost_fits = ground (
    arith,
    h.cost_fits,
    total-insert cost_of not_released id (record r { state = target }) r l.reservations at,
  );
  fresh =
      insert-KeysBelow l.id_counter id _ l.reservations
        (lookup-lt l.id_counter id r l.reservations h.fresh at) h.fresh;
}

-- The calls that a program can make on a ledger, with any arguments.
pub data LedgerCall : Type 0 where
  reserving : ReservationKind → ℤ → Float → String → LedgerCall
  committing releasing : ℕ → LedgerCall

-- What is left of the ledger after a call, also where the call raises.
unfoldable pub after : LedgerCall → Ledger → Ledger
unfolding commit release
after (reserving kind tokens cost label) l = (reserve kind tokens cost label l).1
after (committing id) l = (commit id l).1
after (releasing id) l = (release id l).1

unfoldable pub run_calls : List LedgerCall → Ledger → Ledger
run_calls [] l = l
run_calls (c ∷ cs) l = run_calls cs (after c l)

pub after-IsWithin : (c : LedgerCall) (l : Ledger) → IsWithin l → IsWithin (after c l)
unfolding after
after-IsWithin (reserving kind tokens cost label) l h =
    reserve_cases IsWithin kind tokens cost label l h
      (λ t c e. with_reservation-IsWithin kind t c label l e h)
after-IsWithin (committing id) l h =
    resolve_cases committed id l IsWithin h
      (λ r at was. replace_state-IsWithin committed id r l at was h)
after-IsWithin (releasing id) l h =
    resolve_cases released id l IsWithin h
      (λ r at was. replace_state-IsWithin released id r l at was h)

pub run_calls-IsWithin :
    (cs : List LedgerCall) (l : Ledger) → IsWithin l → IsWithin (run_calls cs l)
unfolding run_calls
run_calls-IsWithin [] l h = h
run_calls-IsWithin (c ∷ cs) l h = run_calls-IsWithin cs (after c l) (after-IsWithin c l h)
