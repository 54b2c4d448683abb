-- ===== src/Routing/Floors.antt =====
-- The ranks that the router selects, as maxima.
use agent_gear.Common.{ℕ, max, Bool, true, false, ◌≡◌, ap, ◌∙◌, arith, if◌then◌else◌}
use agent_gear.Config.{Policy}
use agent_gear.Models.{ModelTier, ReasoningEffort, tier_rank, reasoning_rank, advanced}
use agent_gear.Models.Tasks.{ComplexityAssessment, RiskAssessment}
use agent_gear.Routing.{
  floor_tier, floor_reasoning, is_signalled, is_high_risk, tier_of_score, effort_of_score,
  select_model_tier, select_reasoning_effort, route,
}

-- The rank of a floor that applies, or of none.
abbrev pub rank_if : Bool → ℕ → ℕ
rank_if applies n = if applies then n else 0

pub tier_rank-floor_tier :
    (applies : Bool) (floor tier : ModelTier)
    → tier_rank (floor_tier applies floor tier)
      ≡ max (tier_rank tier) (rank_if applies (tier_rank floor))
unfolding floor_tier
tier_rank-floor_tier true floor tier = ground arith
tier_rank-floor_tier false floor tier = omega arith

pub reasoning_rank-floor_reasoning :
    (applies : Bool) (floor effort : ReasoningEffort)
    → reasoning_rank (floor_reasoning applies floor effort)
      ≡ max (reasoning_rank effort) (rank_if applies (reasoning_rank floor))
unfolding floor_reasoning
reasoning_rank-floor_reasoning true floor effort = ground arith
reasoning_rank-floor_reasoning false floor effort = omega arith

tier_rank-floor_twice :
    (b c : Bool) (f g tier : ModelTier)
    → tier_rank (floor_tier b f (floor_tier c g tier))
      ≡ max (max (tier_rank tier) (rank_if c (tier_rank g))) (rank_if b (tier_rank f))
tier_rank-floor_twice b c f g tier =
    tier_rank-floor_tier b f (floor_tier c g tier)
    ∙ ap (λ n. max n (rank_if b (tier_rank f))) (tier_rank-floor_tier c g tier)

reasoning_rank-floor_twice :
    (b c : Bool) (f g effort : ReasoningEffort)
    → reasoning_rank (floor_reasoning b f (floor_reasoning c g effort))
      ≡ max
          (max (reasoning_rank effort) (rank_if c (reasoning_rank g)))
          (rank_if b (reasoning_rank f))
reasoning_rank-floor_twice b c f g effort =
    reasoning_rank-floor_reasoning b f (floor_reasoning c g effort)
    ∙ ap (λ n. max n (rank_if b (reasoning_rank f))) (reasoning_rank-floor_reasoning c g effort)

-- The tier of a routing decision is the highest of three: the one that the score clears, ADVANCED
-- where the risk score is at least 0.85, and the configured minimum where a single signal is critical.
-- The reasoning effort is the highest of the one that its score clears, the configured floor, and the
-- configured minimum where a single signal is critical.
pub route-ranks :
    (complexity : ComplexityAssessment) (risk : RiskAssessment) (policy : Policy)
    → (tier_rank (route complexity risk policy).tier
        ≡ max
            (max
              (tier_rank (tier_of_score complexity risk policy))
              (rank_if (is_high_risk risk) (tier_rank advanced)))
            (rank_if (is_signalled risk policy) (tier_rank policy.critical_risk.min_tier)))
      × (reasoning_rank (route complexity risk policy).reasoning
          ≡ max
              (max
                (reasoning_rank (effort_of_score complexity risk policy))
                (reasoning_rank policy.default_reasoning_floor))
              (rank_if
                (is_signalled risk policy)
                (reasoning_rank policy.critical_risk.min_reasoning)))
unfolding route select_model_tier select_reasoning_effort
route-ranks complexity risk policy =
    let signalled = is_signalled risk policy in
    let cr = policy.critical_risk in
    (
      tier_rank-floor_twice signalled (is_high_risk risk) cr.min_tier advanced
          (tier_of_score complexity risk policy),
      reasoning_rank-floor_twice signalled true cr.min_reasoning policy.default_reasoning_floor
          (effort_of_score complexity risk policy),
    )
