-- ===== src/Api/Guarded.antt =====
-- What the plan of a task promises to the caller of `plan`.
use agent_gear.Common.{◌≤◌, ◌≡◌, sym, refl, ◌∙◌, Option, true}
use agent_gear.Errors.{ok}
use agent_gear.Config.{Policy}
use agent_gear.Models.{tier_rank, reasoning_rank}
use agent_gear.Models.Tasks.{TaskProfile, TaskSignals, make_task_profile}
use agent_gear.Analysis.Scores.{
  complexity_of, risk_of, assess_complexity-total, assess_risk-total, make_task_profile-InRange,
}
use agent_gear.Planning.{ExecutionPlan, build_execution_plan, has_reviewer}
use agent_gear.Planning.Critical.{IsCritical, plan-IsGuarded}
use agent_gear.Api.{analyze, plan, or_default}

-- The analysis of a task that its constructor accepted never raises: only the planner can.
pub plan-build :
    (signals : TaskSignals) (p : TaskProfile) (policy : Option Policy)
    → make_task_profile signals ≡ ok p
    → plan p policy ≡ build_execution_plan p (complexity_of p) (risk_of p) (or_default policy)
unfolding plan analyze
plan-build signals p policy made =
    let in_range = make_task_profile-InRange signals p made in
    rw (assess_complexity-total p in_range, assess_risk-total p in_range) refl

-- The plan of a task under the given policy, or under the default policy where none is given: where that
-- policy requires the review of critical tasks and the security impact, the data impact or the
-- irreversibility of the task reaches its threshold, then whatever the other signals, the plan that
-- `plan` returns has at least the policy's minimum tier and minimum reasoning effort, and it has a
-- reviewer and says so.
pub critical_plan-IsGuarded :
    (signals : TaskSignals) (p : TaskProfile) (given : Option Policy) (made : ExecutionPlan)
    → make_task_profile signals ≡ ok p
    → plan p given ≡ ok made
    → IsCritical (or_default given) p
    → (or_default given).critical_risk.require_review ≡ true
    → (tier_rank (or_default given).critical_risk.min_tier ≤ tier_rank made.primary_model.tier)
      × (reasoning_rank (or_default given).critical_risk.min_reasoning
          ≤ reasoning_rank made.primary_model.reasoning)
      × (has_reviewer made.strategy.execution_order ≡ true)
      × (made.review_required ≡ true)
critical_plan-IsGuarded signals p given made accepted planned critical review =
    let in_range = make_task_profile-InRange signals p accepted in
    plan-IsGuarded signals p (complexity_of p) (risk_of p) (or_default given) made accepted
      (assess_complexity-total p in_range) (assess_risk-total p in_range)
      (sym (plan-build signals p given accepted) ∙ planned) critical review
