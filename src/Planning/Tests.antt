-- ===== src/Planning/Tests.antt =====
-- The plan of a task that touches security.
use agent_gear.Common.{ℕ, ◌*◌, ◌≡◌, ◌≤◌, ◌<◌, ◌⊎◌, refl}
use agent_gear.Errors.{ok, err, budget_exceeded}
use agent_gear.Config.{default_policy}
use agent_gear.Models.Tasks.{ComplexityAssessment, RiskAssessment}
use agent_gear.Ratios.{◌⊕◌, ◌⊖◌, ◌⊛◌}
use agent_gear.Analysis.{
  weighted_sum, complexity_weights, complexity_factors, risk_weights, risk_factors,
}
use agent_gear.Analysis.Scores.{complexity_of, risk_of}
use agent_gear.Analysis.Tests.{login}
use agent_gear.Routing.{route}
use agent_gear.Planning.{
  build_execution_plan, build_execution_strategy, needs_multi_agent, agent_count, ExecutionPlan,
  ExecutionStrategy, desired_context_budget,
}
use agent_gear.Planning.Staffing.{IsStaffed, build_execution_strategy-IsStaffed}
use agent_gear.Planning.Budgets.{
  build_execution_plan-IsAffordable, plan_of, planned_tokens, planned_cost, staffing,
}

abbrev pub login_complexity : ComplexityAssessment
login_complexity = complexity_of login

abbrev pub login_risk : RiskAssessment
login_risk = risk_of login

abbrev pub login_plan : ExecutionPlan
login_plan = plan_of login login_complexity login_risk default_policy

abbrev login_tokens : ℕ
login_tokens = planned_tokens login login_complexity login_risk default_policy

abbrev login_staffing : ExecutionStrategy
login_staffing = staffing login login_complexity login_risk default_policy

abbrev login_cost : ℕ
login_cost = planned_cost login login_complexity login_risk default_policy

pub login_accepted :
    build_execution_plan login login_complexity login_risk default_policy ≡ ok login_plan
unfolding build_execution_plan weighted_sum complexity_weights ◌⊕◌ ◌⊛◌ complexity_factors ◌⊖◌
    risk_weights risk_factors
login_accepted = refl

build_execution_strategy-IsStaffed_example :
    IsStaffed (needs_multi_agent login_complexity login_risk default_policy) (
      build_execution_strategy login_complexity login_risk
        (route login_complexity login_risk default_policy)
        default_policy)
build_execution_strategy-IsStaffed_example =
    build_execution_strategy-IsStaffed login_complexity login_risk
      (route login_complexity login_risk default_policy) default_policy

build_execution_plan-IsAffordable_example :
    ((build_execution_plan login login_complexity login_risk default_policy ≡ ok login_plan)
      × (agent_count login_staffing ≤ default_policy.budget.max_agents)
      × (desired_context_budget login login_complexity
          ≤ default_policy.budget.max_context_budget_tokens)
      × (login_cost ≤ default_policy.budget.max_estimated_cost)
      × (login_tokens * agent_count login_staffing ≤ default_policy.budget.max_estimated_tokens))
    ⊎ ((build_execution_plan login login_complexity login_risk default_policy ≡ err budget_exceeded)
        × ((default_policy.budget.max_agents < agent_count login_staffing)
            ⊎ ((default_policy.budget.max_context_budget_tokens
                  < desired_context_budget login login_complexity)
                ⊎ ((default_policy.budget.max_estimated_cost < login_cost)
                    ⊎ (default_policy.budget.max_estimated_tokens
                        < login_tokens * agent_count login_staffing)))))
build_execution_plan-IsAffordable_example =
    build_execution_plan-IsAffordable login login_complexity login_risk default_policy
