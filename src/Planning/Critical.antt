-- ===== src/Planning/Critical.antt =====
-- A critical signal of a task, from its profile to its plan.
use mathlib.Core.Path.{subst}
use agent_gear.Common.{
  ℕ, ◌+◌, ◌≤◌, ◌≡◌, refl, sym, ◌∙◌, ◌⊎◌, inl, inr, Bool, true, ◌||◌, le→leb, max, arith,
}
use agent_gear.Errors.{ok}
use agent_gear.Errors.Checks.{ok_injective}
use agent_gear.Floats.{one}
use agent_gear.Ratios.{millionths, ◌≤?◌, ◌⊖◌, count_of}
use agent_gear.Config.{Policy}
use agent_gear.Models.{tier_rank, reasoning_rank}
use agent_gear.Models.Tasks.{
  TaskProfile, TaskSignals, make_task_profile, ComplexityAssessment, RiskAssessment, get_factor,
}
use agent_gear.Analysis.{assess_complexity, assess_risk, risk_factors}
use agent_gear.Analysis.Scores.{risk_of, assess_risk-total, make_task_profile-InRange}
use agent_gear.Routing.{is_signalled, signal_at, route}
use agent_gear.Routing.Monotone.{no_reasons}
use agent_gear.Routing.Floors.{route-ranks, rank_if}
use agent_gear.Planning.{ExecutionPlan, build_execution_plan, needs_multi_agent, has_reviewer}
use agent_gear.Planning.Staffing.{build_execution_strategy-IsStaffed}
use agent_gear.Planning.Budgets.{plan_of, accepted_plan}

-- One of the three signals of a profile reaches its threshold in the policy.
abbrev pub IsCritical : Policy → TaskProfile → Type 0
IsCritical policy p =
    (policy.critical_risk.security_impact_at ≤ p.security_impact)
    ⊎ ((policy.critical_risk.data_impact_at ≤ p.data_impact)
        ⊎ (policy.critical_risk.irreversibility_at + p.reversibility ≤ one))

millionths-le : (a b : ℕ) → a ≤ b → (millionths a ≤? millionths b) ≡ true
millionths-le a b h = le→leb _ _ (omega arith)

complement-reaches : (a b : ℕ) → a + b ≤ one → (millionths a ≤? (count_of 1 ⊖ millionths b)) ≡ true
unfolding ◌⊖◌
complement-reaches a b h = le→leb _ _ (omega arith)

signalled :
    (policy : Policy) (p : TaskProfile)
    → IsCritical policy p
    → is_signalled (risk_of p) policy ≡ true
unfolding signal_at get_factor risk_factors
signalled policy p (inl h) = rw (no_reasons (risk_of p) policy, millionths-le _ _ h) refl
signalled policy p (inr (inl h)) =
    rw (no_reasons (risk_of p) policy, millionths-le _ _ h) (ground arith)
signalled policy p (inr (inr h)) =
    rw (no_reasons (risk_of p) policy, complement-reaches _ _ h) (ground arith)

or_true : (b : Bool) → (b || true) ≡ true
or_true b = ground arith

-- A signal that is critical, with a policy that requires its review, makes the staffing multi-agent.
forces_agents :
    (complexity : ComplexityAssessment) (risk : RiskAssessment) (policy : Policy)
    → is_signalled risk policy ≡ true
    → policy.critical_risk.require_review ≡ true
    → needs_multi_agent complexity risk policy ≡ true
unfolding needs_multi_agent
forces_agents complexity risk policy h k = rw (h, k) (or_true _)

abbrev IsGuarded : Policy → ExecutionPlan → Type 0
IsGuarded policy plan =
    (tier_rank policy.critical_risk.min_tier ≤ tier_rank plan.primary_model.tier)
    × (reasoning_rank policy.critical_risk.min_reasoning
        ≤ reasoning_rank plan.primary_model.reasoning)
    × (has_reviewer plan.strategy.execution_order ≡ true)
    × (plan.review_required ≡ true)

floored : (n a b : ℕ) (applies : Bool) → n ≡ max a (rank_if applies b) → applies ≡ true → b ≤ n
floored n a b applies h k = ground arith

guarded :
    (p : TaskProfile) (complexity : ComplexityAssessment) (risk : RiskAssessment) (policy : Policy)
    → is_signalled risk policy ≡ true
    → policy.critical_risk.require_review ≡ true
    → IsGuarded policy (plan_of p complexity risk policy)
guarded p complexity risk policy signal review =
    let (tier, effort) = route-ranks complexity risk policy in
    let model = route complexity risk policy in
    let (_, _, _, _, reviews, _, _) =
      build_execution_strategy-IsStaffed complexity risk model policy in
    let reviewed = reviews ∙ forces_agents complexity risk policy signal review in
    (
      floored _ _ (tier_rank policy.critical_risk.min_tier) (is_signalled risk policy) tier signal,
      floored _ _ (reasoning_rank policy.critical_risk.min_reasoning) (is_signalled risk policy)
          effort signal,
      reviewed,
      reviewed,
    )

-- Under a policy that requires the review of critical tasks, whatever the other signals of a task, if its
-- security impact, its data impact or its irreversibility reaches the policy's threshold, then each plan
-- that the planner accepts for its assessments has at least the policy's minimum tier and minimum
-- reasoning effort, and it has a reviewer and says so.
pub plan-IsGuarded :
    (signals : TaskSignals) (p : TaskProfile) (complexity : ComplexityAssessment)
    (risk : RiskAssessment) (policy : Policy) (plan : ExecutionPlan)
    → make_task_profile signals ≡ ok p
    → assess_complexity p ≡ ok complexity
    → assess_risk p ≡ ok risk
    → build_execution_plan p complexity risk policy ≡ ok plan
    → IsCritical policy p
    → policy.critical_risk.require_review ≡ true
    → (tier_rank policy.critical_risk.min_tier ≤ tier_rank plan.primary_model.tier)
      × (reasoning_rank policy.critical_risk.min_reasoning
          ≤ reasoning_rank plan.primary_model.reasoning)
      × (has_reviewer plan.strategy.execution_order ≡ true)
      × (plan.review_required ≡ true)
plan-IsGuarded signals p complexity risk policy plan made assessed_c assessed_r built critical
      review =
    let same_risk =
      ok_injective _ _
        (sym (assess_risk-total p (make_task_profile-InRange signals p made)) ∙ assessed_r) in
    let signal =
      subst (λ r. is_signalled r policy ≡ true) same_risk (signalled policy p critical) in
    let (same, _, _) = accepted_plan p complexity risk policy plan built in
    subst (IsGuarded policy) same (guarded p complexity risk policy signal review)
