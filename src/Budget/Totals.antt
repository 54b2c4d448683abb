-- ===== src/Budget/Totals.antt =====
-- How the sums over the reservations change when a reservation is added or replaced.
use agent_gear.Common.{
  ℕ, ◌+◌, ◌≡◌, Bool, some, [], ◌∷◌, ◌++◌, arith, ◌==◌, if◌then◌else◌, Dict, lookup, insert,
  Bool-cases, inl, inr,
}
use agent_gear.Budget.{
  BudgetReservation, ReservationState, total, is_committed, is_reserved, not_released,
}

-- What one reservation adds to a sum.
abbrev pub share : (BudgetReservation → ℕ) → (ReservationState → Bool) → BudgetReservation → ℕ
share f keep r = if keep r.state then f r else 0

module _ (f : BudgetReservation → ℕ) (keep : ReservationState → Bool) where
  pub total-append :
      (k : ℕ) (r : BudgetReservation) (d : Dict BudgetReservation)
      → total f keep (d ++ (k, r) ∷ []) ≡ total f keep d + share f keep r
  unfolding total
  total-append k r [] = omega arith
  total-append k r ((j, q) ∷ d) = omega (arith, total-append k r d)

  pub total-insert :
      (k : ℕ) (r old : BudgetReservation) (d : Dict BudgetReservation)
      → lookup k d ≡ some old
      → total f keep (insert k r d) + share f keep old ≡ total f keep d + share f keep r
  unfolding total insert lookup
  total-insert k r old [] h = cc
  total-insert k r old ((j, q) ∷ d) h = elim (Bool-cases (j == k)) [
    | inl e ↦ ground (arith, h, e)
    | inr e ↦ rw e (omega (arith, total-insert k r old d (rw e at h)))
  ]

-- What is in use is what is committed and what is reserved.
pub total_parts :
    (f : BudgetReservation → ℕ) (d : Dict BudgetReservation)
    → total f not_released d ≡ total f is_committed d + total f is_reserved d
unfolding total
total_parts f [] = omega arith
total_parts f ((j, q) ∷ d) = ground (arith, total_parts f d)
