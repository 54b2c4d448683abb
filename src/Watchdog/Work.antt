-- ===== src/Watchdog/Work.antt =====
-- The constructor, and the methods that report ordinary work, up to the heartbeat.
use agent_gear.Common.{
  ℕ, ◌+◌, String, Bool, true, false, not, ◌&&◌, ◌||◌, Option, none, some, List, [], ◌∷◌, ◌++◌, ℤ,
  pos, is_blank, get_last?, str_eq, if◌then◌else◌,
}
use agent_gear.Errors.{Result, ok, configuration, invalid_observation, invalid_state_transition}
use agent_gear.Errors.Checks
use agent_gear.Errors.Exec.{Exec, pure, asks, raise_if, modify, gets, lift, ◌>>=◌, ◌>>◌}
use agent_gear.Floats.{
  Float, float_of, truthy, truthy_int, require_non_negative_float, require_positive_int,
}
use agent_gear.Models.{
  ModelTier, ReasoningEffort, ExecutionState, planning, running, stalled, recovering, blocked,
  completed, ProgressSignalKind,
}
use agent_gear.Models.Messages.{Message, text, started}
use agent_gear.Models.Records.{Checkpoint, make_checkpoint, make_progress_event}
use agent_gear.Config.{Policy}
use agent_gear.StateMachine.{new_machine, transition}
use agent_gear.Progress.{new_tracker, record_event}
use agent_gear.Stall.{ActivityRecord, make_activity}
use agent_gear.Recovery.{
  new_guard, record_attempt, record_identical_failure, guard_progress, guard_escalation,
}
use agent_gear.Budget.{new_ledger, reserve, commit, initial_plan, escalation}
use agent_gear.Escalation.{EscalationSignals, EscalationDecision, decide_escalation, estimate_cost}
use agent_gear.Watchdog.State.{
  Core, on_machine, on_budget, on_progress, checked_time, checked_active, commit_time, state_of,
}

-- `__init__`, without the checks of `state_dir`.
unfoldable pub new_core :
    String → Policy → ModelTier → ReasoningEffort → ℤ → Option (ℕ × ℕ) → Result Core
new_core execution_id policy tier reasoning context_budget_tokens planned =
    Checks.◌>>◌ (Checks.raise_if (is_blank execution_id) invalid_observation) (
      Checks.◌>>=◌ (require_positive_int configuration context_budget_tokens) λ tokens.
        Checks.◌>>=◌
          (new_ledger (pos policy.budget.max_estimated_tokens)
            (float_of policy.budget.max_estimated_cost))
          λ ledger. ok (record {
            execution_id = execution_id;
            policy = policy;
            tier = tier;
            reasoning = reasoning;
            context_budget_tokens = tokens;
            escalations_used = 0;
            machine = new_machine execution_id;
            progress = new_tracker;
            loop_guard = new_guard policy.watchdog;
            budget = ledger;
            activities = [];
            checkpoints = [];
            recovery_attempts = [];
            tried_strategies = [];
            episode_number = 0;
            episode_opened_at = none;
            episode_stall_reason = text "";
            recovery_history = [];
            blocked_report = none;
            started_at = none;
            last_observed_at = none;
            current_task = "";
            last_progress_evidence = none;
            last_error = none;
            planned_initial = planned;
          }))

abbrev pub is_some {ℓ} : {A : Type ℓ} → Option A → Bool
is_some none = false
is_some (some a) = true

abbrev pub is_planning : ExecutionState → Bool
is_planning planning = true
is_planning _ = false

-- What `start` charges: the estimate of the plan, or the arguments.
abbrev pub initial_amounts : Option (ℕ × ℕ) → ℤ → Float → ℤ × Float
initial_amounts none tokens cost = (tokens, cost)
initial_amounts (some (tokens, cost)) _ _ = (pos tokens, float_of cost)

-- `if initial_tokens or initial_cost: reserve and commit`
unfoldable pub charge_initial : ℤ → Float → Exec Core (Unit {0})
charge_initial tokens cost =
    if truthy_int tokens || truthy cost
    then (do
      reservation ← on_budget (reserve initial_plan tokens cost "initial_plan")
      on_budget (commit reservation.reservation_id))
    else pure tt

unfoldable pub start_core : String → Float → ℤ → Float → Exec Core ℕ
start_core task at tokens cost = do
  raise_if (is_blank task) invalid_observation
  begun ← gets (λ c. not (is_planning (state_of c)) || is_some c.started_at)
  raise_if begun invalid_state_transition
  planned ← gets (λ c. c.planned_initial)
  raise_if (is_some planned && (truthy_int tokens || truthy cost)) invalid_observation
  t ← checked_time at
  charge_initial (initial_amounts planned tokens cost).0 (initial_amounts planned tokens cost).1
  modify (λ c. record c { started_at = some t; current_task = task })
  on_machine (transition running (float_of t) [] (started task))
  modify (commit_time t)
  pure t

-- `target in {STALLED, RECOVERING, BLOCKED, COMPLETED}`
abbrev pub is_reserved_target : ExecutionState → Bool
is_reserved_target stalled = true
is_reserved_target recovering = true
is_reserved_target blocked = true
is_reserved_target completed = true
is_reserved_target _ = false

unfoldable pub advance_core : ExecutionState → Float → Message → Exec Core ℕ
advance_core target at note = do
  checked_active
  raise_if (is_reserved_target target) invalid_state_transition
  t ← checked_time at
  on_machine (transition target (float_of t) [] note)
  modify (commit_time t)
  pure t

-- The last activity failed with the same fingerprint.
abbrev pub failed_alike : String → Option ActivityRecord → Bool
failed_alike fingerprint none = false
failed_alike fingerprint (some a) = not a.succeeded && str_eq a.fingerprint fingerprint

-- `if error: self._last_error = error`, for an error that the record has accepted and so is not empty
abbrev pub error_or : Option String → Option Message → Option Message
error_or none before = before
error_or (some e) before = some (text e)

unfoldable pub record_activity_core :
    Float → String → Bool → Bool → Float → Option String → Exec Core ℕ
record_activity_core at fingerprint succeeded is_trivial duration error = do
  checked_active
  raise_if (is_blank fingerprint) invalid_observation
  t ← checked_time at
  d ← lift (require_non_negative_float invalid_observation duration)
  is_repeat ← gets (λ c. not succeeded && failed_alike fingerprint (get_last? c.activities))
  activity ← lift (make_activity (float_of t) fingerprint succeeded is_trivial (float_of d) error)
  modify (λ c. record c { activities = c.activities ++ activity ∷ [] })
  modify (λ c. record c { loop_guard = record_attempt c.loop_guard })
  modify (λ c. record c { loop_guard = record_identical_failure is_repeat c.loop_guard })
  modify (λ c. record c { last_error = error_or error c.last_error })
  modify (commit_time t)
  pure t

unfoldable pub record_progress_core : Float → ProgressSignalKind → String → Exec Core ℕ
record_progress_core at kind description = do
  checked_active
  raise_if (is_blank description) invalid_observation
  t ← checked_time at
  event ← lift (make_progress_event kind (text description) (float_of t))
  on_progress (record_event event)
  modify (λ c. record c { loop_guard = guard_progress c.loop_guard })
  modify (λ c. record c { last_progress_evidence = some (text description) })
  modify (commit_time t)
  pure t

-- The branch of `record_escalation` that applies an approved decision.
abbrev pub apply_escalation :
    EscalationDecision → Option ModelTier → Option ReasoningEffort → Exec Core (Unit {0})
apply_escalation d (some tier) (some reasoning) = do
  tokens ← gets (λ c. c.context_budget_tokens)
  reservation ←
      on_budget (reserve escalation (pos tokens) (float_of (estimate_cost tier tokens)) d.reason)
  on_budget (commit reservation.reservation_id)
  modify (λ c. record c {
    tier = tier;
    reasoning = reasoning;
    escalations_used = c.escalations_used + 1;
    loop_guard = guard_escalation c.loop_guard;
  })
apply_escalation d _ _ = pure tt

unfoldable pub record_escalation_core : Float → EscalationSignals → Exec Core EscalationDecision
record_escalation_core at signals = do
  checked_active
  t ← checked_time at
  d ← asks (λ c.
      decide_escalation c.tier c.reasoning (pos c.escalations_used) signals c.policy
        (pos c.context_budget_tokens) (some c.budget))
  if d.should_escalate then apply_escalation d d.next_tier d.next_reasoning else pure tt
  modify (commit_time t)
  pure d

-- `checkpoint` up to the durable append.
unfoldable pub checkpoint_of :
    Float → String → List String → List String → Option String → Exec Core Checkpoint
checkpoint_of at phase done pending last_good_state = do
  checked_active
  raise_if (is_blank phase) invalid_observation
  t ← checked_time at
  id ← gets (λ c. c.execution_id)
  lift (make_checkpoint id phase done pending last_good_state (float_of t))

-- What it writes in memory after that.
unfoldable pub keep_checkpoint : Checkpoint → Exec Core ℕ
keep_checkpoint cp = do
  modify (λ c. record c { checkpoints = c.checkpoints ++ cp ∷ [] })
  modify (commit_time cp.at_seconds)
  pure cp.at_seconds

unfoldable pub complete_core : Float → List String → Exec Core ℕ
complete_core at evidence = do
  t ← checked_time at
  on_machine (transition completed (float_of t) evidence (text ""))
  modify (commit_time t)
  pure t
