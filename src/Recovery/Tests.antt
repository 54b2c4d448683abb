-- ===== src/Recovery/Tests.antt =====
-- The ladder and the guard under a policy of three recovery attempts.
use agent_gear.Common.{◌<◌, ◌≡◌, refl, true, [], contains, get_last?, All, ◌⊎◌, ◌↔◌, arith}
use agent_gear.Errors.{ok, err, recovery_exhausted, attempt_bound}
use agent_gear.Config.{WatchdogPolicy, default_watchdog}
use agent_gear.Recovery.{strategy_ladder, next_strategy, is_last_resort, LoopGuard, exceeded}
use agent_gear.Recovery.Ladder.{next_strategy-exhausted, climb, climb-take, take}
use agent_gear.Recovery.Guard.{IsExceeded, exceeded_iff}

abbrev three : WatchdogPolicy
three = record default_watchdog { max_recovery_attempts = 3 }

climb-take_example : climb three 3 ≡ ok (take 3 strategy_ladder)
climb-take_example = climb-take three 3 (omega arith) (omega arith)

past : next_strategy three [] 4 ≡ err (recovery_exhausted attempt_bound)
unfolding next_strategy
past = refl

next_strategy-exhausted_example :
    (3 < 4)
    ⊎ ((is_last_resort (get_last? []) ≡ true) ⊎ All (λ s. contains s [] ≡ true) strategy_ladder)
next_strategy-exhausted_example =
    next_strategy-exhausted three [] 4 (recovery_exhausted attempt_bound) past

abbrev tired : LoopGuard
tired = record {
  policy = three;
  identical_failure_streak = 0;
  recovery_attempts = 3;
  no_progress_cycles = 9;
  total_attempts = 4;
  model_escalations = 0;
}

exceeded_iff_example : ((exceeded tired).0 ≡ true) ↔ IsExceeded tired
exceeded_iff_example = exceeded_iff tired
