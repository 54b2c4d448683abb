-- ===== src/Budget/Kinds.antt =====
-- How many reservations of a kind a ledger holds.
use agent_gear.Common.{
  false, ℕ, ◌+◌, ◌≤◌, ◌≡◌, refl, Bool, String, [], ◌∷◌, ℤ, Dict, lookup, insert, some, arith, ◌==◌,
  Bool-cases, inl, inr, if◌then◌else◌,
}
use agent_gear.Floats.{Float}
use agent_gear.Budget.{
  BudgetReservation, ReservationKind, next_reservation, committed, Ledger, reserve, commit,
  replace_state,
}
use agent_gear.Budget.Laws.{reserve_cases, resolve_cases}

module _ (chosen : ReservationKind → Bool) where
  unfoldable pub count_kind : Dict BudgetReservation → ℕ
  count_kind [] = 0
  count_kind ((_, r) ∷ d) = (if chosen r.kind then 1 else 0) + count_kind d

  pub count_kind-insert :
      (k : ℕ) (r : BudgetReservation) (d : Dict BudgetReservation)
      → count_kind (insert k r d) ≤ count_kind d + (if chosen r.kind then 1 else 0)
  unfolding count_kind insert
  count_kind-insert k r [] = omega arith
  count_kind-insert k r ((j, q) ∷ d) = elim (Bool-cases (j == k)) [
    | inl e ↦ rw e (omega arith)
    | inr e ↦ rw e (omega (arith, count_kind-insert k r d))
  ]

  -- A new value of the same kind at a key that is there.
  pub count_kind-replace :
      (k : ℕ) (r old : BudgetReservation) (d : Dict BudgetReservation)
      → lookup k d ≡ some old
      → r.kind ≡ old.kind
      → count_kind (insert k r d) ≡ count_kind d
  unfolding count_kind insert lookup
  count_kind-replace k r old [] at same = cc
  count_kind-replace k r old ((j, q) ∷ d) at same = ground (arith, count_kind-replace k r old d)

  -- A reservation of another kind adds none.
  pub count_kind-reserve :
      (kind : ReservationKind) (tokens : ℤ) (cost : Float) (label : String) (l : Ledger) (n : ℕ)
      → chosen kind ≡ false
      → count_kind l.reservations ≤ n
      → count_kind (reserve kind tokens cost label l).1.reservations ≤ n
  count_kind-reserve kind tokens cost label l n other few =
      reserve_cases (λ m. count_kind m.reservations ≤ n) kind tokens cost label l few
        (λ t c e. ground (
          arith,
          other,
          few,
          count_kind-insert l.id_counter (next_reservation l kind t c label) l.reservations,
        ))

  pub count_kind-commit :
      (id : ℕ) (l : Ledger) (n : ℕ)
      → count_kind l.reservations ≤ n
      → count_kind (commit id l).1.reservations ≤ n
  unfolding commit replace_state
  count_kind-commit id l n few =
      resolve_cases committed id l (λ m. count_kind m.reservations ≤ n) few
        (λ r at was. omega (arith, few, count_kind-replace id _ r l.reservations at refl))
