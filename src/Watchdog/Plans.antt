-- ===== src/Watchdog/Plans.antt =====
-- `from_plan`: the watchdog of a plan that the planner accepted.
use mathlib.Core.Path.{subst}
use agent_gear.Common.{
  ℕ, ◌*◌, ◌≤◌, ◌≡◌, refl, String, true, false, none, some, [], ◌∷◌, all, get_last?, pos, is_blank,
  lookup, insert, arith,
}
use agent_gear.Errors.{Error, Result, ok}
use agent_gear.Errors.Exec.{◌>>=◌}
use agent_gear.Floats.{
  float_of, truthy, truthy_int, require_positive_int, require_positive_float,
  require_non_negative_float,
}
use agent_gear.Config.{Policy}
use agent_gear.Models.{ModelTier, ReasoningEffort, running}
use agent_gear.Models.Messages.{text, started}
use agent_gear.StateMachine.{new_machine, transition, moved, can_transition, allowed, is_evidence}
use agent_gear.Progress.{new_tracker}
use agent_gear.Recovery.{new_guard}
use agent_gear.Budget.Laws.{reserve_lem, fits_affordable}
use agent_gear.Budget.{
  Ledger, initial_plan, committed, require_reservation, replace_state, new_ledger, commit, resolve,
  affordable, committed_tokens, committed_cost, reserved_tokens, reserved_cost, total, in_use,
}
use agent_gear.Planning.{build_execution_plan, ExecutionPlan, agent_count}
use agent_gear.Models.Tasks.{TaskProfile, ComplexityAssessment, RiskAssessment}
use agent_gear.Planning.Budgets.{
  plan_of, planned_tokens, planned_cost, accepted_plan, staffing-positive, product-positive,
}
use agent_gear.Watchdog.State.{
  Core, state_of, checked_time, validate_time, commit_time, on_budget, on_machine,
}
use agent_gear.Watchdog.Work.{new_core, start_core, charge_initial}

-- The estimate that the plan's watchdog charges when it starts.
abbrev pub planned_amounts : ExecutionPlan → ℕ × ℕ
planned_amounts plan =
    (plan.context_budget_tokens * agent_count plan.strategy, plan.max_estimated_cost)

unfoldable pub from_plan : String → ExecutionPlan → Policy → Result Core
unfolding new_core
from_plan execution_id plan policy =
    new_core execution_id policy plan.primary_model.tier plan.primary_model.reasoning
      (pos plan.context_budget_tokens) (some (planned_amounts plan))

positive_int : (e : Error) (n : ℕ) → 1 ≤ n → require_positive_int e (pos n) ≡ ok n
unfolding require_positive_int
positive_int e n h = ground arith

truthy_positive : (n : ℕ) → 1 ≤ n → truthy_int (pos n) ≡ true
unfolding truthy_int
truthy_positive n h = ground arith

positive_float : (e : Error) (n : ℕ) → 1 ≤ n → require_positive_float e (float_of n) ≡ ok n
unfolding require_positive_float
positive_float e n h = ground arith

module _ (id : String) (policy : Policy) (tier : ModelTier) (reasoning : ReasoningEffort)
    (tokens t c : ℕ) where
  abbrev fresh : Core
  fresh = record {
    execution_id = id;
    policy = policy;
    tier = tier;
    reasoning = reasoning;
    context_budget_tokens = tokens;
    escalations_used = 0;
    machine = new_machine id;
    progress = new_tracker;
    loop_guard = new_guard policy.watchdog;
    budget = record {
      max_tokens = policy.budget.max_estimated_tokens;
      max_cost = policy.budget.max_estimated_cost;
      reservations = [];
      id_counter = 1;
      agent_dispatches = 0;
    };
    activities = [];
    checkpoints = [];
    recovery_attempts = [];
    tried_strategies = [];
    episode_number = 0;
    episode_opened_at = none;
    episode_stall_reason = text "";
    recovery_history = [];
    blocked_report = none;
    started_at = none;
    last_observed_at = none;
    current_task = "";
    last_progress_evidence = none;
    last_error = none;
    planned_initial = some (t, c);
  }

  module _ (named : is_blank id ≡ false) (context : 1 ≤ tokens) (some_tokens : 1 ≤ t)
      (some_cost : 1 ≤ c) (tokens_fit : t ≤ policy.budget.max_estimated_tokens)
      (cost_fits : c ≤ policy.budget.max_estimated_cost) where
    fresh-built : new_core id policy tier reasoning (pos tokens) (some (t, c)) ≡ ok fresh
    unfolding new_core new_ledger
    fresh-built =
        rw
          (
            named,
            positive_int _ tokens context,
            positive_int _ policy.budget.max_estimated_tokens (omega arith),
            positive_float _ policy.budget.max_estimated_cost (omega arith),
          )
          refl

    fresh-affords : affordable fresh.budget t c ≡ true
    unfolding in_use total
    fresh-affords = fits_affordable fresh.budget t c (omega arith) (omega arith)

    -- The ledger once the estimate is committed.
    abbrev charged : Ledger
    charged = record {
      max_tokens = policy.budget.max_estimated_tokens;
      max_cost = policy.budget.max_estimated_cost;
      reservations =
          (
            1,
            record {
              reservation_id = 1;
              kind = initial_plan;
              tokens = t;
              cost = c;
              state = committed;
              label = "initial_plan";
            },
          )
          ∷ [];
      id_counter = 2;
      agent_dispatches = 0;
    }

    fresh-charged :
        charge_initial (pos t) (float_of c) fresh ≡ (ok tt, record fresh { budget = charged })
    unfolding charge_initial on_budget commit resolve require_reservation replace_state lookup
        insert ◌>>=◌
    fresh-charged =
        rw
          (
            truthy_positive t some_tokens,
            reserve_lem initial_plan t c "initial_plan" fresh.budget,
            fresh-affords,
          )
          refl

    -- What the start leaves.
    abbrev begun : String → ℕ → Core
    begun task at = record fresh {
      machine = moved running (float_of at) [] (started task) (new_machine id);
      budget = charged;
      started_at = some at;
      last_observed_at = some at;
      current_task = task;
    }

    fresh-starts :
        (task : String) (at : ℕ)
        → is_blank task ≡ false
        → start_core task (float_of at) (pos 0) (float_of 0) fresh ≡ (ok at, begun task at)
    unfolding start_core checked_time validate_time on_machine transition commit_time ◌>>=◌
        new_machine can_transition allowed get_last? is_evidence all truthy truthy_int
        require_non_negative_float
    fresh-starts task at tasked = rw (tasked, fresh-charged) refl

    fresh-runs :
        (task : String) (at : ℕ)
        → is_blank task ≡ false
        → (before : Core) × (after : Core) × (new_core id policy tier reasoning
              (pos tokens)
              (some (t, c))
            ≡ ok before)
          × (start_core task (float_of at) (pos 0) (float_of 0) before ≡ (ok at, after))
          × (state_of after ≡ running)
          × (committed_tokens after.budget ≡ t)
          × (committed_cost after.budget ≡ c)
          × (reserved_tokens after.budget ≡ 0)
          × (reserved_cost after.budget ≡ 0)
    unfolding committed_tokens committed_cost reserved_tokens reserved_cost total
    fresh-runs task at tasked = (
      fresh,
      begun task at,
      fresh-built,
      fresh-starts task at tasked,
      refl,
      omega arith,
      omega arith,
      refl,
      refl,
    )

-- The watchdog of a plan starts and commits the plan's estimate.
abbrev Runs : String → String → ℕ → Policy → ExecutionPlan → Type 0
Runs id task at policy plan =
    (before : Core) × (after : Core) × (from_plan id plan policy ≡ ok before)
    × (start_core task (float_of at) (pos 0) (float_of 0) before ≡ (ok at, after))
    × (state_of after ≡ running)
    × (committed_tokens after.budget ≡ plan.context_budget_tokens * agent_count plan.strategy)
    × (committed_cost after.budget ≡ plan.max_estimated_cost)
    × (reserved_tokens after.budget ≡ 0)
    × (reserved_cost after.budget ≡ 0)

-- Every plan that the planner accepted can be run: for it and an identifier that is not blank `from_plan`
-- makes a watchdog, whose start up to the write of the heartbeat, at any time and with a task that has a
-- name, does not raise. It leaves the execution RUNNING, with exactly the plan's tokens and cost committed
-- in its ledger and nothing reserved.
pub from_plan-runs :
    (id task : String) (at : ℕ) (profile : TaskProfile) (complexity : ComplexityAssessment)
    (risk : RiskAssessment) (policy : Policy) (plan : ExecutionPlan)
    → is_blank id ≡ false
    → is_blank task ≡ false
    → build_execution_plan profile complexity risk policy ≡ ok plan
    → (before : Core) × (after : Core) × (from_plan id plan policy ≡ ok before)
      × (start_core task (float_of at) (pos 0) (float_of 0) before ≡ (ok at, after))
      × (state_of after ≡ running)
      × (committed_tokens after.budget ≡ plan.context_budget_tokens * agent_count plan.strategy)
      × (committed_cost after.budget ≡ plan.max_estimated_cost)
      × (reserved_tokens after.budget ≡ 0)
      × (reserved_cost after.budget ≡ 0)
unfolding from_plan
from_plan-runs id task at profile complexity risk policy plan named tasked accepted =
    let (same, cost, tokens) = accepted_plan profile complexity risk policy plan accepted in
    let p = plan_of profile complexity risk policy in
    let n = planned_tokens profile complexity risk policy in
    let (agents, priced) = staffing-positive profile complexity risk policy in
    let t = n * agent_count p.strategy in
    let c = planned_cost profile complexity risk policy in
    let some_tokens = product-positive n (agent_count p.strategy) (omega arith) agents in
    subst (Runs id task at policy) same (
      fresh-runs id policy p.primary_model.tier p.primary_model.reasoning n t c named (omega arith)
        some_tokens priced tokens cost task at tasked)
