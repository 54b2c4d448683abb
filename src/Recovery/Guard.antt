-- ===== src/Recovery/Guard.antt =====
-- The bounds of the loop guard: N are allowed, and the next one is not.
use agent_gear.Common.{
  ℕ, zero, suc, ◌+◌, ◌<◌, ◌≤◌, ◌≡◌, refl, ◌↔◌, ◌⊎◌, true, not, Option, none, some, arith, leb,
  if◌then◌else◌, is_empty,
}
use agent_gear.Recovery.{
  LoopGuard, exceeded, guard_reasons_of, can_start_recovery_attempt,
  record_recovery_attempt_started, start_new_recovery_episode,
}

-- Some global counter is past its bound.
abbrev pub IsExceeded : LoopGuard → Type 0
IsExceeded g =
    (g.policy.max_identical_failures < g.identical_failure_streak)
    ⊎ ((g.policy.max_no_progress_cycles < g.no_progress_cycles)
        ⊎ ((g.policy.max_total_attempts < g.total_attempts)
            ⊎ (g.policy.max_model_escalations < g.model_escalations)))

-- `exceeded` reports true exactly when one of the four global counters is strictly past its bound;
-- the number of recovery attempts plays no part in it.
pub exceeded_iff : (g : LoopGuard) → ((exceeded g).0 ≡ true) ↔ IsExceeded g
unfolding exceeded guard_reasons_of
exceeded_iff g = (λ h. ground arith, λ h. ground arith)

-- It gives reasons exactly when it reports true.
pub exceeded_reasons : (g : LoopGuard) → (exceeded g).0 ≡ not (is_empty (exceeded g).1)
unfolding exceeded
exceeded_reasons g = refl

-- `n` recovery attempts in a row, each admitted before it is counted.
pub start_attempts : ℕ → LoopGuard → Option LoopGuard
start_attempts zero g = some g
start_attempts (suc n) g =
    let rest = start_attempts n (record_recovery_attempt_started g) in
    if can_start_recovery_attempt g then rest else none

start_attempts-from :
    (n : ℕ) (g : LoopGuard)
    → g.recovery_attempts ≤ g.policy.max_recovery_attempts
    → start_attempts n g ≡ (
        if leb (g.recovery_attempts + n) g.policy.max_recovery_attempts
        then some (record g { recovery_attempts = g.recovery_attempts + n })
        else none)
unfolding start_attempts can_start_recovery_attempt record_recovery_attempt_started
start_attempts-from zero g h = ground arith
start_attempts-from (suc n) g h =
    ground (arith, start_attempts-from n (record g { recovery_attempts = g.recovery_attempts + 1 }))

-- A new episode admits exactly as many recovery attempts as the policy allows: `n` in a row are
-- admitted if and only if `n` is at most the bound, whatever earlier episodes used up; and only the
-- episode's own counter moves.
pub start_attempts_episode :
    (n : ℕ) (g : LoopGuard)
    → start_attempts n (start_new_recovery_episode g) ≡ (
        if leb n g.policy.max_recovery_attempts
        then some (record g { recovery_attempts = n })
        else none)
unfolding start_new_recovery_episode
start_attempts_episode n g =
    ground (arith, start_attempts-from n (record g { recovery_attempts = 0 }))
