-- ===== src/FileLock/Polling.antt =====
-- The loop of `acquire` ends, and what its answers mean.
use mathlib.Core.Path.{subst}
use agent_gear.Common.{
  ℕ, zero, suc, ◌+◌, ◌*◌, ◌≤◌, ◌<◌, ◌≡◌, ◌≢◌, refl, ap, ◌∙◌, ◌⊎◌, inl, inr, Bool, true, false, some,
  leb, leb→le, Bool-cases, arith,
}
use agent_gear.Errors.{Result, ok, err, path_escape, storage_lock}
use agent_gear.FileLock.{Try, taken, escaped, refused, deadline, poll, retry_from}

Try-cases : (t : Try) → (t ≡ taken) ⊎ ((t ≡ escaped) ⊎ (t ≡ refused))
Try-cases taken = inl refl
Try-cases escaped = inr (inl refl)
Try-cases refused = inr (inr refl)

module _ (timeout interval : ℕ) (tries : ℕ → Try) (clock : ℕ → ℕ) where
  -- What an answer after try `n` says.
  abbrev pub Ends : ℕ → Result (Unit {0}) → Type 0
  Ends n r =
      ((tries n ≡ taken) × (r ≡ ok tt))
      ⊎ (((tries n ≡ escaped) × (r ≡ err path_escape))
          ⊎ ((tries n ≡ refused)
              × (r ≡ err storage_lock)
              × (deadline timeout tries clock ≤ clock (suc n))))

  -- Every try from `i` up to `n` was refused.
  abbrev pub RefusedUntil : ℕ → ℕ → Type 0
  RefusedUntil i n = (j : ℕ) → i ≤ j → j < n → tries j ≡ refused

  module _ (sleeps : (i : ℕ) → clock (suc i) + interval ≤ clock (suc (suc i))) where
    abbrev pub IsAnswered : ℕ → ℕ → ℕ → Type 0
    IsAnswered fuel i last =
        (n : ℕ) × (r : Result (Unit {0})) × (poll timeout tries clock fuel i ≡ some r)
        × (n ≤ last)
        × RefusedUntil i n
        × Ends n r

    none_before : (i : ℕ) → RefusedUntil i i
    none_before i j h k = absurd (omega arith)

    one_more : (i n : ℕ) → tries i ≡ refused → RefusedUntil (suc i) n → RefusedUntil i n
    one_more i n e h j above under = elim (Bool-cases (leb (suc i) j)) [
      | inl later ↦ h j (leb→le (suc i) j later) under
      | inr here ↦ ap tries (ground arith) ∙ e
    ]

    stops_here :
        (k i : ℕ) (r : Result (Unit {0}))
        → poll timeout tries clock (suc k) i ≡ some r
        → Ends i r
        → IsAnswered (suc k) i (i + k)
    stops_here k i r answer ends = (i, r, answer, omega arith, none_before i, ends)

    -- The tries that end the loop at once, and the one that does not.
    poll_split :
        (k i : ℕ)
        → (tries i ≡ refused
            → leb (deadline timeout tries clock) (clock (suc i)) ≡ false
            → IsAnswered (suc k) i (i + k))
        → IsAnswered (suc k) i (i + k)
    unfolding poll
    poll_split k i go_on = elim (Try-cases (tries i)) [
      | inl e ↦ stops_here k i (ok tt) (rw e refl) (inl (e, refl))
      | inr (inl e) ↦ stops_here k i (err path_escape) (rw e refl) (inr (inl (e, refl)))
      | inr (inr e) ↦ elim (Bool-cases (leb (deadline timeout tries clock) (clock (suc i)))) [
        | inl late ↦
            stops_here k i (err storage_lock) (rw (e, late) refl)
              (inr (inr (e, refl, leb→le _ _ late)))
        | inr early ↦ go_on e early
      ]
    ]

    too_late : (a b : ℕ) → a ≤ b + 0 → leb a b ≢ false
    too_late a b h e = ground arith

    poll-from :
        (k i : ℕ)
        → deadline timeout tries clock ≤ clock (suc i) + k * interval
        → IsAnswered (suc k) i (i + k)
    unfolding poll
    poll-from zero i near = poll_split zero i λ e early. absurd (too_late _ _ (omega arith) early)
    poll-from (suc k) i near = poll_split (suc k) i λ e early.
        let (n, r, answer, few, before, ends) = poll-from k (suc i) (omega (arith, sleeps i)) in
        (n, r, rw (e, early) answer, omega arith, one_more i n e before, ends)

    -- If each round of the loop takes at least the polling interval, the clock never goes back, and
    -- `fuel` intervals cover the timeout, then `acquire` ends after at most `fuel + 1` tries. The last
    -- of them decides: it took the lock, or it met a path that leaves the root, or it was refused when
    -- the deadline had passed, which raises StorageLockError; every try before it was refused.
    pub acquire-IsAnswered :
        (fuel : ℕ) → clock 0 ≤ clock 1 → timeout ≤ fuel * interval → IsAnswered (suc fuel) 0 fuel
    acquire-IsAnswered fuel forward enough =
        let same : 0 + fuel ≡ fuel = omega arith in
        subst (IsAnswered (suc fuel) 0) same (poll-from fuel 0 (omega arith))

-- One try that is not refused is enough.
pub retry_from-ok :
    (fails : ℕ → Bool) (left i j : ℕ)
    → i ≤ j
    → j < i + left
    → fails j ≡ false
    → retry_from fails left i ≡ ok tt
unfolding retry_from
retry_from-ok fails zero i j above under fine = absurd (omega arith)
retry_from-ok fails (suc left) i j above under fine = elim (Bool-cases (fails i)) [
  | inl e ↦ rw e (retry_from-ok fails left (suc i) j (later e) (omega arith) fine)
  | inr e ↦ rw e refl
]
  where
    later : fails i ≡ true → suc i ≤ j
    later e = elim (Bool-cases (leb (suc i) j)) [
      | inl h ↦ leb→le (suc i) j h
      | inr h ↦ absurd (ground arith)
    ]
