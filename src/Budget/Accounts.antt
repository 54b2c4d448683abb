-- ===== src/Budget/Accounts.antt =====
-- What the ledger promises to its callers: the ceilings hold whatever is called, and each operation
-- moves exactly the amounts of its reservation.
use agent_gear.Common.{
  ℕ, ◌+◌, ◌<◌, ◌≤◌, ◌≡◌, refl, false, Bool, String, some, none, List, [], ◌∷◌, arith, lookup,
  insert, lookup_fresh, lookup-insert, lookup-insert_self, ◌≢◌, Bool-cases, ℤ, pos, ◌⊎◌, inl, inr,
  ◌∙◌,
}
use agent_gear.Errors.{ok, err, budget_exceeded}
use agent_gear.Floats.{Float, float_of, require_positive_float, require_positive_int}
use agent_gear.Budget.{
  BudgetReservation, ReservationKind, ReservationState, reserved, committed, released, Ledger,
  new_ledger, total, tokens_of, cost_of, is_committed, is_reserved, not_released, in_use,
  affordable, reserve, commit, release, resolve, replace_state, next_reservation, committed_tokens,
  committed_cost, reserved_tokens, reserved_cost,
}
use agent_gear.Budget.Totals.{share, total-insert, total_parts}
use agent_gear.Budget.Laws.{
  IsWithin, affordable_fits, reserve_lem, reserve_cases, resolve_cases, resolve_reserved,
  resolve_spent, in_use-with_reservation, LedgerCall, reserving, committing, releasing, after,
  run_calls,
}

-- A new ledger satisfies the invariant.
pub new_ledger-IsWithin :
    (max_tokens : ℤ) (max_cost : Float) (l : Ledger)
    → new_ledger max_tokens max_cost ≡ ok l
    → IsWithin l
unfolding new_ledger require_positive_int require_positive_float in_use total
new_ledger-IsWithin max_tokens max_cost l h = ground arith

-- The two ceilings of a ledger.
abbrev pub ceilings : Ledger → ℕ × ℕ
ceilings l = (l.max_tokens, l.max_cost)

pub ceilings-after : (c : LedgerCall) (l : Ledger) → ceilings (after c l) ≡ ceilings l
unfolding after replace_state
ceilings-after (reserving kind tokens cost label) l =
    reserve_cases (λ m. ceilings m ≡ ceilings l) kind tokens cost label l refl (λ t c e. refl)
ceilings-after (committing id) l =
    resolve_cases committed id l (λ m. ceilings m ≡ ceilings l) refl (λ r at was. refl)
ceilings-after (releasing id) l =
    resolve_cases released id l (λ m. ceilings m ≡ ceilings l) refl (λ r at was. refl)

pub ceilings-run_calls :
    (cs : List LedgerCall) (l : Ledger) → ceilings (run_calls cs l) ≡ ceilings l
unfolding run_calls
ceilings-run_calls [] l = refl
ceilings-run_calls (c ∷ cs) l = ceilings-run_calls cs (after c l) ∙ ceilings-after c l

-- Within the invariant, what is committed and reserved is within the ceilings.
pub within_bounds :
    (l : Ledger)
    → IsWithin l
    → (committed_tokens l + reserved_tokens l ≤ l.max_tokens)
      × (committed_cost l + reserved_cost l ≤ l.max_cost)
unfolding committed_tokens reserved_tokens committed_cost reserved_cost in_use
within_bounds l h = ground (
  arith,
  h.tokens_fit,
  h.cost_fits,
  total_parts tokens_of l.reservations,
  total_parts cost_of l.reservations,
)

over_ceiling :
    (l : Ledger) (t c : ℕ)
    → affordable l t c ≡ false
    → (l.max_tokens < (in_use l).0 + t) ⊎ (l.max_cost < (in_use l).1 + c)
unfolding affordable
over_ceiling l t c h = ground arith

-- On a ledger that satisfies the invariant, `reserve` with amounts that are not negative is all or
-- nothing. If they fit beside what is in use, it returns a reservation under a number that no
-- reservation had, and what is in use grows by exactly the two amounts; if one does not fit, it
-- raises BudgetExceededError and the ledger is as it was.
pub reserve_exact :
    (kind : ReservationKind) (t c : ℕ) (label : String) (l : Ledger)
    → IsWithin l
    → let r = next_reservation l kind t c label in
      let (answer, l') = reserve kind (pos t) (float_of c) label l in
      ((answer ≡ ok r)
        × (lookup r.reservation_id l.reservations ≡ none)
        × (lookup r.reservation_id l'.reservations ≡ some r)
        × (in_use l' ≡ ((in_use l).0 + t, (in_use l).1 + c))
        × ((in_use l).0 + t ≤ l.max_tokens)
        × ((in_use l).1 + c ≤ l.max_cost))
      ⊎ ((answer ≡ err budget_exceeded)
          × (l' ≡ l)
          × ((l.max_tokens < (in_use l).0 + t) ⊎ (l.max_cost < (in_use l).1 + c)))
reserve_exact kind t c label l h =
    let r = next_reservation l kind t c label in
    elim (Bool-cases (affordable l t c)) [
      | inl e ↦
          rw (reserve_lem kind t c label l, e)
            (inl (
              refl,
              lookup_fresh l.id_counter l.reservations h.fresh,
              lookup-insert_self l.id_counter r l.reservations,
              in_use-with_reservation kind t c label l h.fresh,
              (affordable_fits l t c e).0,
              (affordable_fits l t c e).1,
            ))
      | inr e ↦ rw (reserve_lem kind t c label l, e) (inr (refl, refl, over_ceiling l t c e))
    ]

module _ (id : ℕ) (r : BudgetReservation) (l : Ledger) where
  changes :
      (f : BudgetReservation → ℕ) (keep : ReservationState → Bool) (target : ReservationState)
      → lookup id l.reservations ≡ some r
      → total f keep (insert id (record r { state = target }) l.reservations) + share f keep r
        ≡ total f keep l.reservations + share f keep (record r { state = target })
  changes f keep target at =
      total-insert f keep id (record r { state = target }) r l.reservations at

  -- The reservation has this state in the ledger, and every other reservation is as it was.
  abbrev pub IsOnlyResolved : ReservationState → Ledger → Type 0
  IsOnlyResolved target l' =
      (lookup id l'.reservations ≡ some (record r { state = target }))
      × ((k : ℕ) → k ≢ id → lookup k l'.reservations ≡ lookup k l.reservations)

  replace_state-IsOnlyResolved :
      (target : ReservationState) → IsOnlyResolved target (replace_state id r target l)
  unfolding replace_state
  replace_state-IsOnlyResolved target = (
    lookup-insert_self id (record r { state = target }) l.reservations,
    λ k other. ground (arith, lookup-insert id k (record r { state = target }) l.reservations),
  )

  -- Committing a reservation that is still reserved makes it committed, with its amounts, and leaves
  -- every other reservation as it was. Its tokens move from what is reserved to what is committed, and
  -- the tokens and the cost that are in use stay the same.
  pub commit_moves :
      lookup id l.reservations ≡ some r
      → r.state ≡ reserved
      → let (answer, l') = commit id l in
        (answer ≡ ok tt)
        × IsOnlyResolved committed l'
        × (committed_tokens l' ≡ committed_tokens l + r.tokens)
        × (reserved_tokens l' + r.tokens ≡ reserved_tokens l)
        × (in_use l' ≡ in_use l)
  unfolding commit replace_state in_use committed_tokens reserved_tokens
  commit_moves at was = rw (resolve_reserved committed id l r at was) (
    refl,
    replace_state-IsOnlyResolved committed,
    ground (arith, was, changes tokens_of is_committed committed),
    ground (arith, was, changes tokens_of is_reserved committed),
    ground (
      arith,
      was,
      changes tokens_of not_released committed,
      changes cost_of not_released committed,
    ),
  )

  -- Releasing a reservation that is still reserved makes it released and leaves every other
  -- reservation as it was. What is in use loses exactly its tokens, and the tokens and the cost that
  -- are committed stay the same.
  pub release_returns :
      lookup id l.reservations ≡ some r
      → r.state ≡ reserved
      → let (answer, l') = release id l in
        (answer ≡ ok tt)
        × IsOnlyResolved released l'
        × ((in_use l').0 + r.tokens ≡ (in_use l).0)
        × (committed_tokens l' ≡ committed_tokens l)
        × (committed_cost l' ≡ committed_cost l)
  unfolding release replace_state in_use committed_tokens committed_cost
  release_returns at was = rw (resolve_reserved released id l r at was) (
    refl,
    replace_state-IsOnlyResolved released,
    ground (arith, was, changes tokens_of not_released released),
    ground (arith, was, changes tokens_of is_committed released),
    ground (arith, was, changes cost_of is_committed released),
  )

  -- A reservation is resolved once: after a commit or a release that succeeded, a second commit or
  -- release of it raises and changes nothing.
  pub resolved_once :
      (first second : ReservationState)
      → lookup id l.reservations ≡ some r
      → r.state ≡ reserved
      → is_reserved first ≡ false
      → let l' = (resolve first id l).1 in resolve second id l' ≡ (err budget_exceeded, l')
  unfolding replace_state
  resolved_once first second at was spent =
      let r' = record r { state = first } in
      rw (resolve_reserved first id l r at was) (
        resolve_spent second id (replace_state id r first l) r'
          (lookup-insert_self id r' l.reservations) spent)
