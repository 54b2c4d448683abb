-- ===== src/Planning/Budgets.antt =====
-- The budget checks of a plan.
use native.Mathlib.Nat.{mul-le-mul_right}
use agent_gear.Common.{
  ℕ, ◌*◌, ◌≤◌, ◌<◌, ◌≡◌, refl, ap, sym, ◌∙◌, ◌⊎◌, inl, inr, Bool, true, false, ◌&&◌, max, List, [],
  ◌∷◌, map, all, ltb, is_empty, leb→le, arith,
}
use agent_gear.Errors.{ok, err, budget_exceeded}
use agent_gear.Errors.Checks.{◌>>◌, raise_if, ok_injective, ok_not_err}
use agent_gear.Config.{Policy}
use agent_gear.Models.{ModelTier, fast, standard, advanced, frontier}
use agent_gear.Models.Tasks.{TaskProfile, ComplexityAssessment, RiskAssessment}
use agent_gear.Escalation.{estimate_cost, relative_cost}
use agent_gear.Routing.{route}
use agent_gear.Planning.{
  AgentAssignment, ExecutionStrategy, ExecutionPlan, agent_count, count_agents, role_of,
  build_execution_strategy, build_execution_plan, desired_context_budget, total_cost, has_reviewer,
}
use agent_gear.Planning.Staffing.{is_counted, has_builder, build_execution_strategy-IsStaffed}

-- Four ceilings, checked in turn.
within_ceilings :
    (A : Type 0) (plan : A) (a b c d max_a max_b max_c max_d : ℕ)
    → let answer =
        (raise_if (ltb max_a a) budget_exceeded
          >> (raise_if (ltb max_b b) budget_exceeded
              >> (raise_if (ltb max_c c) budget_exceeded
                  >> (raise_if (ltb max_d d) budget_exceeded >> ok plan)))) in
      ((answer ≡ ok plan) × (a ≤ max_a) × (b ≤ max_b) × (c ≤ max_c) × (d ≤ max_d))
      ⊎ ((answer ≡ err budget_exceeded)
          × ((max_a < a) ⊎ ((max_b < b) ⊎ ((max_c < c) ⊎ (max_d < d)))))
within_ceilings A plan a b c d max_a max_b max_c max_d = ground arith

module _ (profile : TaskProfile) (complexity : ComplexityAssessment) (risk : RiskAssessment)
    (policy : Policy) where
  -- The staffing and the amounts of a plan, before the budget is asked.
  abbrev pub staffing : ExecutionStrategy
  staffing = build_execution_strategy complexity risk (route complexity risk policy) policy

  abbrev pub planned_tokens : ℕ
  planned_tokens = max (desired_context_budget profile complexity) 1

  abbrev pub planned_cost : ℕ
  planned_cost = total_cost planned_tokens staffing.agents

  abbrev pub plan_of : ExecutionPlan
  plan_of = record {
    task_profile = profile;
    actionable_context = profile.actionable_context;
    complexity = complexity;
    risk = risk;
    primary_model = route complexity risk policy;
    strategy = staffing;
    context_budget_tokens = planned_tokens;
    max_estimated_cost = planned_cost;
    max_agents = policy.budget.max_agents;
    review_required = has_reviewer staffing.execution_order;
  }

  -- Planning is all or nothing. Either the plan has the staffing of the routed model, with its agents,
  -- its context, its cost and its tokens each within the policy's budget; or one of the four is above
  -- its ceiling, and BudgetExceededError is raised.
  pub build_execution_plan-IsAffordable :
      ((build_execution_plan profile complexity risk policy ≡ ok plan_of)
        × (agent_count staffing ≤ policy.budget.max_agents)
        × (desired_context_budget profile complexity ≤ policy.budget.max_context_budget_tokens)
        × (planned_cost ≤ policy.budget.max_estimated_cost)
        × (planned_tokens * agent_count staffing ≤ policy.budget.max_estimated_tokens))
      ⊎ ((build_execution_plan profile complexity risk policy ≡ err budget_exceeded)
          × ((policy.budget.max_agents < agent_count staffing)
              ⊎ ((policy.budget.max_context_budget_tokens
                    < desired_context_budget profile complexity)
                  ⊎ ((policy.budget.max_estimated_cost < planned_cost)
                      ⊎ (policy.budget.max_estimated_tokens
                          < planned_tokens * agent_count staffing)))))
  unfolding build_execution_plan
  build_execution_plan-IsAffordable =
      within_ceilings ExecutionPlan plan_of (agent_count staffing)
        (desired_context_budget profile complexity) planned_cost
        (planned_tokens * agent_count staffing) policy.budget.max_agents
        policy.budget.max_context_budget_tokens policy.budget.max_estimated_cost
        policy.budget.max_estimated_tokens

  -- An accepted plan is the one above, within the budget.
  pub accepted_plan :
      (plan : ExecutionPlan)
      → build_execution_plan profile complexity risk policy ≡ ok plan
      → (plan_of ≡ plan)
        × (planned_cost ≤ policy.budget.max_estimated_cost)
        × (planned_tokens * agent_count staffing ≤ policy.budget.max_estimated_tokens)
  accepted_plan plan built = elim build_execution_plan-IsAffordable [
    | inl (same, _, _, cost, tokens) ↦ (ok_injective _ _ (sym same ∙ built), cost, tokens)
    | inr (refused, _) ↦ absurd (ok_not_err _ _ (sym built ∙ refused))
  ]

both_true : (a b : Bool) → (a && b) ≡ true → a ≡ true
both_true a b h = ground arith

-- A tier costs at least one millionth for each token.
estimate_cost-positive :
    (tier : ModelTier) (tokens : ℕ) → 1 ≤ tokens → 1 ≤ estimate_cost tier tokens
unfolding estimate_cost relative_cost
estimate_cost-positive fast tokens h = omega arith
estimate_cost-positive standard tokens h = omega arith
estimate_cost-positive advanced tokens h = omega arith
estimate_cost-positive frontier tokens h = omega arith

pub product-positive : (a b : ℕ) → 1 ≤ a → 1 ≤ b → 1 ≤ a * b
product-positive a b h k = omega (arith, mul-le-mul_right b h)

-- A crew with an agent in it has a count, and costs something.
crew-positive :
    (tokens : ℕ) (agents : List AgentAssignment)
    → 1 ≤ tokens
    → is_empty agents ≡ false
    → all is_counted agents ≡ true
    → (1 ≤ count_agents agents) × (1 ≤ total_cost tokens agents)
unfolding all count_agents total_cost
crew-positive tokens [] h e c = cc
crew-positive tokens (a ∷ rest) h e c =
    let counted = leb→le 1 a.count (both_true (is_counted a) (all is_counted rest) c) in
    (
      omega arith,
      omega (
        arith,
        product-positive (estimate_cost a.tier tokens) a.count
            (estimate_cost-positive a.tier tokens h) counted,
      ),
    )

has_builder-filled :
    (agents : List AgentAssignment)
    → has_builder (map role_of agents) ≡ true
    → is_empty agents ≡ false
has_builder-filled [] h = cc
has_builder-filled (a ∷ rest) h = refl

-- Every staffing has an agent, and costs something.
pub staffing-positive :
    (profile : TaskProfile) (complexity : ComplexityAssessment) (risk : RiskAssessment)
    (policy : Policy)
    → (1 ≤ agent_count (staffing profile complexity risk policy))
      × (1 ≤ planned_cost profile complexity risk policy)
staffing-positive profile complexity risk policy =
    let model = route complexity risk policy in
    let (roles, _, builds, _, _, counted, _) =
      build_execution_strategy-IsStaffed complexity risk model policy in
    crew-positive (planned_tokens profile complexity risk policy)
      (build_execution_strategy complexity risk model policy).agents (omega arith)
      (has_builder-filled _ (ap has_builder (sym roles) ∙ builds)) counted
