-- ===== src/Watchdog/Bounds/Attempts.antt =====
-- One attempt of a recovery episode: its guard counts it before the episode records it.
use agent_gear.Common.{
  ℕ, suc, ◌<◌, ◌≤◌, ◌≡◌, refl, ap, [], ◌∷◌, ◌++◌, length, length-append, set_last, String, List,
  arith,
}
use agent_gear.Errors.Exec.{modify}
use agent_gear.Errors.Preserves.{
  Preserves, preserves_rules, Leads, lead_first, lead_after, lead_through, lift-Preserves,
}
use agent_gear.Models.Records.{RecoveryAttempt}
use agent_gear.Recovery.{record_recovery_attempt_started}
use agent_gear.Watchdog.State.{Core}
use agent_gear.Watchdog.Recovering.{begin_attempt}
use agent_gear.Watchdog.Bounds.{IsBounded, bounded_rules}

-- One more attempt would be, too.
abbrev pub HasRoom : Core → Type 0
HasRoom c =
    (length c.recovery_attempts ≤ c.loop_guard.recovery_attempts)
    × (c.loop_guard.recovery_attempts < c.loop_guard.policy.max_recovery_attempts)

-- The guard has counted an attempt that is still to be recorded.
abbrev IsCounted : Core → Type 0
IsCounted c =
    (length c.recovery_attempts < c.loop_guard.recovery_attempts)
    × (c.loop_guard.recovery_attempts ≤ c.loop_guard.policy.max_recovery_attempts)

length-set_last {ℓ} : {A : Type ℓ} (a : A) (xs : List A) → length (set_last a xs) ≡ length xs
unfolding set_last
length-set_last a [] = refl
length-set_last a (x ∷ []) = refl
length-set_last a (x ∷ y ∷ xs) = ap suc (length-set_last a (y ∷ xs))

pub set_last-IsBounded :
    (a : RecoveryAttempt)
    → Preserves IsBounded
        (modify (λ c. record c { recovery_attempts = set_last a c.recovery_attempts }))
unfolding modify
set_last-IsBounded a = record {
  apply = λ c h. (omega (arith, h.0, length-set_last a c.recovery_attempts), h.1);
}

counted-IsBounded : (c : Core) → IsCounted c → IsBounded c
counted-IsBounded c h = (omega (arith, h.0), h.1)

-- What leaves the attempts and the guard keeps the attempt counted.
modify-IsCounted :
    (f : Core → Core)
    → ((c : Core) → (f c).loop_guard ≡ c.loop_guard)
    → ((c : Core) → (f c).recovery_attempts ≡ c.recovery_attempts)
    → Preserves IsCounted (modify f)
unfolding modify
modify-IsCounted f same_guard same_attempts = record {
  apply = λ c h. rw (same_guard c, same_attempts c) h;
}

-- Recording the attempt that was counted.
recorded-Leads :
    (a : RecoveryAttempt)
    → Leads IsCounted IsBounded
        (modify (λ c. record c { recovery_attempts = c.recovery_attempts ++ a ∷ [] }))
unfolding modify
recorded-Leads a = record {
  apply = λ c h. (omega (arith, h.0, length-append c.recovery_attempts (a ∷ [])), h.1);
}

pub begin_attempt-Leads :
    (t : ℕ) (reason strategy : String) (number : ℕ)
    → Leads HasRoom IsBounded (begin_attempt t reason strategy number)
unfolding begin_attempt record_recovery_attempt_started modify
begin_attempt-Leads t reason strategy number =
    lead_through counted-IsBounded _ _
      (record { apply = λ c h. (omega (arith, h.0), omega (arith, h.1)) })
      (λ u. lead_after counted-IsBounded _ _ (modify-IsCounted _ (λ c. refl) (λ c. refl)) (λ v.
        lead_after counted-IsBounded _ _ (lift-Preserves _) (λ a.
          lead_first _ _ (recorded-Leads a)
            (λ w. search (preserves_rules, bounded_rules) depth 20))))

pub room-IsBounded : (c : Core) → HasRoom c → IsBounded c
room-IsBounded c h = (h.0, omega (arith, h.1))
