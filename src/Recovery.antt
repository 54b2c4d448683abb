-- ===== src/Recovery.antt =====
-- watchdog/recovery.py: the ladder of recovery strategies, and the counters of the loop guard.
pub mod Ladder
pub mod Guard
mod Tests
use agent_gear.Common.{
  ℕ, ◌+◌, ◌-◌, String, Bool, true, false, not, Option, none, some, List, [], ◌∷◌, ◌++◌, str_eq, ltb,
  ◌==◌, contains, get_last?, is_empty, if◌then◌else◌, ◌&&◌,
}
use agent_gear.Errors.{Result, ok, err, recovery_exhausted, attempt_bound, last_resort, all_tried}
use agent_gear.Errors.Checks.{◌>>=◌, ◌>>◌, raise_if}
use agent_gear.Config.{WatchdogPolicy}
use agent_gear.Models.Messages.{
  GuardReason, identical_failure_streak, no_progress_cycles, total_attempts, model_escalations,
}

abbrev pub request_human : String
request_human = "request_human_intervention"

abbrev pub strategy_ladder : List String
strategy_ladder =
    "re_read_error" ∷ "inspect_assumptions" ∷ "split_task" ∷ "change_approach"
    ∷ "restore_checkpoint" ∷ "restart_tool" ∷ "use_another_agent" ∷ "increase_reasoning"
    ∷ "change_model_tier" ∷ request_human ∷ []

-- `tried_strategies and tried_strategies[-1] == STRATEGY_LADDER[-1]`
abbrev pub is_last_resort : Option String → Bool
is_last_resort none = false
is_last_resort (some s) = str_eq s request_human

-- The loop over the ladder: the first strategy that was not tried.
unfoldable pub first_untried : List String → List String → Option String
first_untried tried [] = none
first_untried tried (s ∷ rest) = if contains s tried then first_untried tried rest else some s

abbrev pub found_or_exhausted : Option String → Result String
found_or_exhausted none = err (recovery_exhausted all_tried)
found_or_exhausted (some s) = ok s

unfoldable pub next_strategy : WatchdogPolicy → List String → ℕ → Result String
next_strategy policy tried attempt_number = do
  raise_if (ltb policy.max_recovery_attempts attempt_number) (recovery_exhausted attempt_bound)
  raise_if (is_last_resort (get_last? tried)) (recovery_exhausted last_resort)
  found_or_exhausted (first_untried tried strategy_ladder)

pub record LoopGuard : Type 0 where
  pub policy : WatchdogPolicy
  pub identical_failure_streak : ℕ
  pub recovery_attempts : ℕ
  pub no_progress_cycles : ℕ
  pub total_attempts : ℕ
  pub model_escalations : ℕ

unfoldable pub new_guard : WatchdogPolicy → LoopGuard
new_guard policy = record {
  policy = policy;
  identical_failure_streak = 0;
  recovery_attempts = 0;
  no_progress_cycles = 0;
  total_attempts = 0;
  model_escalations = 0;
}

unfoldable pub record_attempt : LoopGuard → LoopGuard
record_attempt g = record g { total_attempts = g.total_attempts + 1 }

unfoldable pub record_identical_failure : Bool → LoopGuard → LoopGuard
record_identical_failure is_repeat g = record g {
  identical_failure_streak = if is_repeat then g.identical_failure_streak + 1 else 0;
}

unfoldable pub record_no_progress_cycle : LoopGuard → LoopGuard
record_no_progress_cycle g = record g { no_progress_cycles = g.no_progress_cycles + 1 }

unfoldable pub guard_progress : LoopGuard → LoopGuard
guard_progress g = record g { no_progress_cycles = 0 }

unfoldable pub guard_escalation : LoopGuard → LoopGuard
guard_escalation g = record g { model_escalations = g.model_escalations + 1 }

unfoldable pub can_start_recovery_attempt : LoopGuard → Bool
can_start_recovery_attempt g = ltb g.recovery_attempts g.policy.max_recovery_attempts

-- `max(0, …)` is the subtraction that stops at 0.
unfoldable pub recovery_attempts_remaining : LoopGuard → ℕ
recovery_attempts_remaining g = g.policy.max_recovery_attempts - g.recovery_attempts

unfoldable pub is_recovery_exhausted : LoopGuard → Bool
unfolding can_start_recovery_attempt
is_recovery_exhausted g = not (can_start_recovery_attempt g)

unfoldable pub record_recovery_attempt_started : LoopGuard → LoopGuard
record_recovery_attempt_started g = record g { recovery_attempts = g.recovery_attempts + 1 }

unfoldable pub start_new_recovery_episode : LoopGuard → LoopGuard
start_new_recovery_episode g = record g { recovery_attempts = 0 }

-- `if failed: reasons.append(reason)`
abbrev pub reason_if {ℓ} : {A : Type ℓ} → Bool → A → List A
reason_if true r = r ∷ []
reason_if false r = []

unfoldable pub guard_reasons_of : LoopGuard → List GuardReason
guard_reasons_of g =
    let p = g.policy in
    reason_if (ltb p.max_identical_failures g.identical_failure_streak)
      (identical_failure_streak g.identical_failure_streak p.max_identical_failures)
    ++ (reason_if (ltb p.max_no_progress_cycles g.no_progress_cycles)
          (no_progress_cycles g.no_progress_cycles p.max_no_progress_cycles)
        ++ (reason_if (ltb p.max_total_attempts g.total_attempts)
              (total_attempts g.total_attempts p.max_total_attempts)
            ++ reason_if
                (ltb 0 g.model_escalations && ltb p.max_model_escalations g.model_escalations)
                (model_escalations g.model_escalations p.max_model_escalations)))

unfoldable pub exceeded : LoopGuard → Bool × List GuardReason
exceeded g = let reasons = guard_reasons_of g in (not (is_empty reasons), reasons)
