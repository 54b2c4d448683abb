-- ===== src/Planning.antt =====
-- planning.py: the staffing of a task and its execution plan. The rationale and the two summaries, which
-- are texts, are left out.
pub mod Staffing
pub mod Budgets
pub mod Critical
pub mod Tests
use agent_gear.Common.{
  ℕ, zero, suc, ◌+◌, ◌*◌, max, Bool, true, false, ◌&&◌, ◌||◌, List, [], ◌∷◌, ◌++◌, ltb, leb, map,
  if◌then◌else◌,
}
use agent_gear.Errors.{Result, ok, err, budget_exceeded}
use agent_gear.Errors.Checks.{◌>>=◌, ◌>>◌, raise_if}
use agent_gear.Ratios.{Ratio, millionths, count_of, ◌≤?◌, ◌⊕◌, ◌⊛◌, floor}
use agent_gear.Config.{Policy}
use agent_gear.Models.{ModelTier, ReasoningEffort, fast, standard, advanced, frontier}
use agent_gear.Models.Tasks.{
  TaskProfile, ActionableTaskContext, ComplexityAssessment, RiskAssessment, get_factor,
}
use agent_gear.Routing.{ModelProfile, route, is_signalled}
use agent_gear.Escalation.{estimate_cost}

pub data AgentRole : Type 0 where
  planner researcher builder reviewer judge : AgentRole

pub record AgentAssignment : Type 0 where
  pub role : AgentRole
  pub tier : ModelTier
  pub reasoning : ReasoningEffort
  pub count : ℕ

pub record ExecutionStrategy : Type 0 where
  pub agents : List AgentAssignment
  pub judge_required : Bool
  pub execution_order : List AgentRole

-- `sum(a.count for a in agents)`
unfoldable pub count_agents : List AgentAssignment → ℕ
count_agents [] = 0
count_agents (a ∷ rest) = a.count + count_agents rest

abbrev pub agent_count : ExecutionStrategy → ℕ
agent_count s = count_agents s.agents

unfoldable pub one_step_down : ModelTier → ModelTier
one_step_down frontier = advanced
one_step_down advanced = standard
one_step_down standard = fast
one_step_down fast = fast

unfoldable pub one_step_up : ModelTier → ModelTier
one_step_up fast = standard
one_step_up standard = advanced
one_step_up advanced = frontier
one_step_up frontier = frontier

-- `a >= b`, for a threshold of millionths
abbrev pub reaches : Ratio → ℕ → Bool
reaches a b = millionths b ≤? a

-- An agent that joins the pipeline where a test holds.
abbrev pub joins_if : Bool → AgentAssignment → List AgentAssignment
joins_if true a = a ∷ []
joins_if false a = []

-- The check of the constructor asks for a count of at least one, which every call below has.
abbrev pub assign : AgentRole → ModelTier → ReasoningEffort → ℕ → AgentAssignment
assign role tier reasoning count = record {
  role = role;
  tier = tier;
  reasoning = reasoning;
  count = count;
}

abbrev pub role_of : AgentAssignment → AgentRole
role_of a = a.role

module _ (complexity : ComplexityAssessment) (risk : RiskAssessment) where
  abbrev pub ambiguity : Ratio
  ambiguity = get_factor "ambiguity" complexity.factors

  abbrev pub architectural_impact : Ratio
  architectural_impact = get_factor "architectural_impact" complexity.factors

  abbrev pub critical_forces_review : Policy → Bool
  critical_forces_review policy = is_signalled risk policy && policy.critical_risk.require_review

  unfoldable pub needs_multi_agent : Policy → Bool
  unfolding get_factor
  needs_multi_agent policy =
      reaches complexity.score policy.multi_agent_complexity_threshold
      || reaches risk.score policy.multi_agent_risk_threshold
      || reaches ambiguity 500000
      || reaches architectural_impact 500000
      || reaches (get_factor "prior_failures" risk.factors) 500000
      || critical_forces_review policy

  unfoldable pub researcher_count : ℕ
  unfolding get_factor
  researcher_count =
      if reaches ambiguity 750000 then 2 else if reaches ambiguity 500000 then 1 else 0

  -- `researcher_count >= 2 or risk.score >= _JUDGE_RISK_THRESHOLD`
  unfoldable pub is_judged : Bool
  unfolding researcher_count
  is_judged = leb 2 researcher_count || reaches risk.score 750000

  unfoldable pub lone_builder : ModelProfile → ExecutionStrategy
  lone_builder model = record {
    agents = assign AgentRole.builder model.tier model.reasoning 1 ∷ [];
    judge_required = false;
    execution_order = AgentRole.builder ∷ [];
  }

  unfoldable pub pipeline : ModelProfile → Policy → List AgentAssignment
  unfolding get_factor researcher_count is_judged one_step_down one_step_up
  pipeline model policy =
      joins_if (reaches architectural_impact 500000)
        (assign AgentRole.planner model.tier ReasoningEffort.low 1)
      ++ (joins_if (leb 1 researcher_count) (
            assign AgentRole.researcher (one_step_down model.tier) ReasoningEffort.medium
              researcher_count)
          ++ (joins_if is_judged (
                assign AgentRole.judge
                  (if reaches risk.score 750000 then one_step_up model.tier else model.tier)
                  ReasoningEffort.high 1)
              ++ (assign AgentRole.builder model.tier model.reasoning 1
                  ∷ assign AgentRole.reviewer
                      (if reaches risk.score policy.multi_agent_risk_threshold
                        then one_step_up model.tier
                        else model.tier)
                      ReasoningEffort.medium 1
                  ∷ [])))

  -- The order has the role of each agent: the code appends to both lists at once.
  unfoldable pub build_execution_strategy : ModelProfile → Policy → ExecutionStrategy
  unfolding needs_multi_agent lone_builder pipeline is_judged
  build_execution_strategy model policy =
      if needs_multi_agent policy
      then record {
        agents = pipeline model policy;
        judge_required = is_judged;
        execution_order = map role_of (pipeline model policy);
      }
      else lone_builder model

pub record ExecutionPlan : Type 0 where
  pub task_profile : TaskProfile
  pub actionable_context : ActionableTaskContext
  pub complexity : ComplexityAssessment
  pub risk : RiskAssessment
  pub primary_model : ModelProfile
  pub strategy : ExecutionStrategy
  pub context_budget_tokens : ℕ
  pub max_estimated_cost : ℕ
  pub max_agents : ℕ
  pub review_required : Bool

-- `sum(estimate_cost(a.tier, tokens) * a.count for a in agents)`
unfoldable pub total_cost : ℕ → List AgentAssignment → ℕ
unfolding estimate_cost
total_cost tokens [] = 0
total_cost tokens (a ∷ rest) = estimate_cost a.tier tokens * a.count + total_cost tokens rest

-- `AgentRole.REVIEWER in order`
unfoldable pub has_reviewer : List AgentRole → Bool
has_reviewer [] = false
has_reviewer (AgentRole.reviewer ∷ rest) = true
has_reviewer (_ ∷ rest) = has_reviewer rest

-- `int(expected_output_tokens * (2.0 + 4.0 * score))`
unfoldable pub desired_context_budget : TaskProfile → ComplexityAssessment → ℕ
unfolding floor
desired_context_budget profile complexity =
    floor (count_of profile.expected_output_tokens ⊛ (count_of 2 ⊕ count_of 4 ⊛ complexity.score))

unfoldable pub build_execution_plan :
    TaskProfile → ComplexityAssessment → RiskAssessment → Policy → Result ExecutionPlan
unfolding route build_execution_strategy count_agents desired_context_budget total_cost has_reviewer
build_execution_plan profile complexity risk policy =
    let model = route complexity risk policy in
    let strategy = build_execution_strategy complexity risk model policy in
    let desired = desired_context_budget profile complexity in
    let tokens = max desired 1 in
    let cost = total_cost tokens strategy.agents in
    (do
      raise_if (ltb policy.budget.max_agents (agent_count strategy)) budget_exceeded
      raise_if (ltb policy.budget.max_context_budget_tokens desired) budget_exceeded
      raise_if (ltb policy.budget.max_estimated_cost cost) budget_exceeded
      raise_if (ltb policy.budget.max_estimated_tokens (tokens * agent_count strategy))
          budget_exceeded
      ok (record {
        task_profile = profile;
        actionable_context = profile.actionable_context;
        complexity = complexity;
        risk = risk;
        primary_model = model;
        strategy = strategy;
        context_budget_tokens = tokens;
        max_estimated_cost = cost;
        max_agents = policy.budget.max_agents;
        review_required = has_reviewer strategy.execution_order;
      }))
