-- ===== src/Watchdog/Recovering.antt =====
-- Stall detection and the recovery from it, up to the heartbeats.
use agent_gear.Common.{
  ℕ, ◌+◌, String, Bool, true, false, not, ◌&&◌, ◌||◌, Option, none, some, List, [], ◌∷◌, ◌++◌, pos,
  is_blank, is_empty, length, get_last?, set_last, str_eq, if◌then◌else◌,
}
use agent_gear.Errors.{
  Error, Result, ok, err, recovery_exhausted, budget_exceeded, invalid_observation,
  invalid_state_transition,
}
use agent_gear.Errors.Exec.{Exec, pure, raise, raise_if, modify, gets, lift, ◌>>=◌, ◌>>◌}
use agent_gear.Floats.{Float, float_of}
use agent_gear.Models.{
  ExecutionState, planning, running, testing, reviewing, stalled, recovering, RecoveryResult,
  RecoveryEpisodeOutcome, error_resolved,
}
use agent_gear.Models.Messages.{
  Message, text, stall_reasons, guard_reasons, raised, recovering_via, recovered_via,
  recovery_failed, GuardReason,
}
use agent_gear.Models.Messages
use agent_gear.Models.Records.{RecoveryAttempt, make_recovery_attempt, make_progress_event}
use agent_gear.StateMachine.{transition}
use agent_gear.Progress.{last_progress_at, record_event}
use agent_gear.Stall.{StallVerdict, detect}
use agent_gear.Recovery.{
  record_no_progress_cycle, guard_progress, exceeded, can_start_recovery_attempt, next_strategy,
  record_recovery_attempt_started, request_human,
}
use agent_gear.Budget.{BudgetReservation, reserve, commit, recovery}
use agent_gear.Escalation.{estimate_cost}
use agent_gear.Watchdog.State.{
  Core, on_machine, on_budget, on_progress, checked_time, commit_time, state_of, is_active,
}
use agent_gear.Watchdog.Episodes.{
  open_new_recovery_episode, close_recovery_episode, transition_to_blocked,
}

-- The verdict of the stall detector, which is asked only in an active state of a started execution.
abbrev pub verdict_at : ℕ → Option ℕ → Core → StallVerdict
verdict_at t none c = record { is_stalled = false; reasons = [] }
verdict_at t (some started_at) c =
    if is_active (state_of c)
    then detect c.policy.watchdog t started_at (last_progress_at c.progress) c.activities
    else record { is_stalled = false; reasons = [] }

-- The stall branch of `evaluate`, up to its heartbeat.
unfoldable pub enter_stall : ℕ → StallVerdict → Exec Core (Unit {0})
enter_stall t verdict = do
  modify (λ c. record c { last_error = some (stall_reasons verdict.reasons) })
  modify (λ c. record c { loop_guard = record_no_progress_cycle c.loop_guard })
  on_machine (transition stalled (float_of t) [] (stall_reasons verdict.reasons))
  modify (open_new_recovery_episode t (stall_reasons verdict.reasons))
  modify (commit_time t)

-- `evaluate` up to its heartbeat: the time, and whether a stall was entered.
unfoldable pub evaluate_core : Float → Exec Core (ℕ × Bool)
evaluate_core at = do
  t ← checked_time at
  verdict ← gets (λ c. verdict_at t c.started_at c)
  if verdict.is_stalled then enter_stall t verdict else modify (commit_time t)
  pure (t, verdict.is_stalled)

abbrev pub is_stalled_state : ExecutionState → Bool
is_stalled_state stalled = true
is_stalled_state _ = false

-- STALLED → RECOVERING → BLOCKED, for a cause.
unfoldable pub give_up : ℕ → String → Message → Message → Exec Core (Unit {0})
give_up t reason blocker root_cause = do
  on_machine (transition recovering (float_of t) [] (text reason))
  transition_to_blocked t blocker root_cause

-- The reasons of the loop guard, or its own one where the guard has none.
abbrev pub bound_reasons : Core → List GuardReason
bound_reasons c =
    if (exceeded c.loop_guard).0
    then (exceeded c.loop_guard).1
    else Messages.recovery_attempts c.loop_guard.recovery_attempts
        c.policy.watchdog.max_recovery_attempts
      ∷ []

-- A recovery attempt that is admitted and paid for.
unfoldable pub begin_attempt : ℕ → String → String → ℕ → Exec Core RecoveryAttempt
begin_attempt t reason strategy attempt_number = do
  modify (λ c. record c { loop_guard = record_recovery_attempt_started c.loop_guard })
  modify (λ c. record c { tried_strategies = c.tried_strategies ++ strategy ∷ [] })
  attempt ← lift (
      make_recovery_attempt reason strategy (pos attempt_number) RecoveryResult.pending
        (float_of t))
  modify (λ c. record c { recovery_attempts = c.recovery_attempts ++ attempt ∷ [] })
  on_machine (transition recovering (float_of t) [] (recovering_via strategy))
  modify (commit_time t)
  pure attempt

abbrev pub is_budget_exceeded : Error → Bool
is_budget_exceeded budget_exceeded = true
is_budget_exceeded _ = false

abbrev pub is_recovery_exhausted_error : Error → Bool
is_recovery_exhausted_error (recovery_exhausted why) = true
is_recovery_exhausted_error _ = false

-- `except BudgetExceededError`; any other exception goes on.
abbrev pub after_reserve :
    ℕ → String → String → ℕ → Result BudgetReservation → Exec Core (Option RecoveryAttempt)
after_reserve t reason strategy number (ok reservation) = do
  on_budget (commit reservation.reservation_id)
  attempt ← begin_attempt t reason strategy number
  pure (some attempt)
after_reserve t reason strategy number (err e) =
    if is_budget_exceeded e
    then (do give_up t reason (text "recovery budget exhausted") (raised e); pure none)
    else raise e

-- The `try` around `reserve`: the result of the call is a value here.
abbrev pub try_reserve : String → Exec Core (Result BudgetReservation)
try_reserve strategy c =
    let (answer, c') =
      on_budget
        (reserve recovery (pos c.context_budget_tokens)
          (float_of (estimate_cost c.tier c.context_budget_tokens)) strategy)
        c in
    (ok answer, c')

-- `except RecoveryExhaustedError`; any other exception goes on.
abbrev pub after_strategy : ℕ → String → ℕ → Result String → Exec Core (Option RecoveryAttempt)
after_strategy t reason number (ok strategy) = do
  answer ← try_reserve strategy
  after_reserve t reason strategy number answer
after_strategy t reason number (err e) =
    if is_recovery_exhausted_error e
    then (do give_up t reason (text "no recovery strategy available") (raised e); pure none)
    else raise e

-- The admission by the loop guard, and what follows it.
unfoldable pub admit_recovery : ℕ → String → Exec Core (Option RecoveryAttempt)
admit_recovery t reason = do
  refused ← gets (λ c. (exceeded c.loop_guard).0 || not (can_start_recovery_attempt c.loop_guard))
  reasons ← gets bound_reasons
  number ← gets (λ c. length c.recovery_attempts + 1)
  strategy ←
      gets
        (λ c. next_strategy c.policy.watchdog c.tried_strategies (length c.recovery_attempts + 1))
  (if refused
      then (do
        give_up t reason (text "loop protection bound reached during recovery")
            (guard_reasons reasons)
        pure none)
      else after_strategy t reason number strategy)

-- `begin_recovery` up to its heartbeat: the time, and the attempt, if one begins.
unfoldable pub begin_recovery_core : Float → String → Exec Core (ℕ × Option RecoveryAttempt)
begin_recovery_core at reason = do
  t ← checked_time at
  ready ← gets (λ c. is_stalled_state (state_of c))
  raise_if (not ready) invalid_state_transition
  attempt ← admit_recovery t reason
  pure (t, attempt)

abbrev pub is_recovering : ExecutionState → Bool
is_recovering recovering = true
is_recovering _ = false

-- `resume_state in _RECOVERY_RESUME_STATES`
abbrev pub can_resume : ExecutionState → Bool
can_resume planning = true
can_resume running = true
can_resume testing = true
can_resume reviewing = true
can_resume _ = false

abbrev pub is_success : RecoveryResult → Bool
is_success RecoveryResult.success = true
is_success _ = false

abbrev pub is_pending : RecoveryResult → Bool
is_pending RecoveryResult.pending = true
is_pending _ = false

abbrev pub is_blank_text : Option String → Bool
is_blank_text none = false
is_blank_text (some e) = is_blank e

-- `evidence or …`
abbrev pub evidence_or : Option String → Message → Message
evidence_or none other = other
evidence_or (some e) other = text e

-- The SUCCESS branch.
unfoldable pub recover : ℕ → ExecutionState → Message → Exec Core (Unit {0})
recover t resume_state description = do
  close_recovery_episode RecoveryEpisodeOutcome.success t
  on_machine (transition resume_state (float_of t) [] description)
  event ← lift (make_progress_event error_resolved description (float_of t))
  on_progress (record_event event)
  modify (λ c. record c { last_progress_evidence = some description })
  modify (λ c. record c { loop_guard = guard_progress c.loop_guard })
  modify (commit_time t)

-- `"; ".join(guard_reasons) or f"recovery via … failed"`
abbrev pub failure_cause : List GuardReason → String → Message
failure_cause [] strategy = recovery_failed strategy
failure_cause (r ∷ rs) strategy = guard_reasons (r ∷ rs)

-- The FAILURE branch.
unfoldable pub fail_recovery : ℕ → String → Option String → Exec Core (Unit {0})
fail_recovery t strategy evidence = do
  over ← gets (λ c. exceeded c.loop_guard)
  (if over.0 || str_eq strategy request_human
      then transition_to_blocked t (text "recovery attempts exhausted")
          (evidence_or evidence (failure_cause over.1 strategy))
      else (do
        on_machine
            (transition stalled (float_of t) [] (evidence_or evidence (recovery_failed strategy)))
        modify (commit_time t)))

-- What follows the checks, for the last attempt of the episode.
abbrev pub resolve_attempt :
    ℕ
    → RecoveryResult
    → ExecutionState
    → Option String
    → Option RecoveryAttempt
    → Exec Core (Unit {0})
resolve_attempt t result resume_state evidence none = raise invalid_observation
resolve_attempt t result resume_state evidence (some last) = do
  resolved ← lift (
      make_recovery_attempt last.reason last.strategy (pos last.attempt_number) result (float_of t))
  modify (λ c. record c { recovery_attempts = set_last resolved c.recovery_attempts })
  (if is_success result
      then recover t resume_state (evidence_or evidence (recovered_via last.strategy))
      else fail_recovery t last.strategy evidence)

-- `record_recovery_result` up to its heartbeat.
unfoldable pub record_recovery_result_core :
    Float → RecoveryResult → ExecutionState → Option String → Exec Core ℕ
record_recovery_result_core at result resume_state evidence = do
  t ← checked_time at
  ready ← gets (λ c. is_recovering (state_of c))
  raise_if (not ready) invalid_state_transition
  nothing_tried ← gets (λ c. is_empty c.recovery_attempts)
  raise_if nothing_tried invalid_observation
  raise_if (is_pending result) invalid_observation
  raise_if (is_success result && not (can_resume resume_state)) invalid_state_transition
  raise_if (is_blank_text evidence) invalid_observation
  last ← gets (λ c. get_last? c.recovery_attempts)
  resolve_attempt t result resume_state evidence last
  pure t
