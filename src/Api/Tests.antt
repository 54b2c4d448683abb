-- ===== src/Api/Tests.antt =====
-- The plan of a task that touches security, by `plan` under the default policy.
use agent_gear.Common.{◌≤◌, ◌≡◌, ◌∙◌, refl, none, inl, true, arith}
use agent_gear.Errors.{ok}
use agent_gear.Config.{default_policy}
use agent_gear.Models.{tier_rank, reasoning_rank}
use agent_gear.Analysis.Tests.{login, login_signals, login-made}
use agent_gear.Planning.{has_reviewer}
use agent_gear.Planning.Tests.{login_plan, login_accepted}
use agent_gear.Api.{plan}
use agent_gear.Api.Guarded.{plan-build, critical_plan-IsGuarded}

login_planned : plan login none ≡ ok login_plan
login_planned = plan-build login_signals login none login-made ∙ login_accepted

critical_plan-IsGuarded_example :
    (tier_rank default_policy.critical_risk.min_tier ≤ tier_rank login_plan.primary_model.tier)
    × (reasoning_rank default_policy.critical_risk.min_reasoning
        ≤ reasoning_rank login_plan.primary_model.reasoning)
    × (has_reviewer login_plan.strategy.execution_order ≡ true)
    × (login_plan.review_required ≡ true)
critical_plan-IsGuarded_example =
    critical_plan-IsGuarded login_signals login none login_plan login-made login_planned
      (inl (omega arith)) refl
