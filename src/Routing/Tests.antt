-- ===== src/Routing/Tests.antt =====
-- An easy task, and a harder one with a critical signal.
use agent_gear.Common.{◌≡◌, ◌≤◌, [], ◌∷◌, max, arith}
use agent_gear.Ratios.{millionths}
use agent_gear.Config.{default_policy}
use agent_gear.Models.{tier_rank, reasoning_rank, advanced}
use agent_gear.Models.Tasks.{
  ComplexityAssessment, RiskAssessment, ComplexityLevel, RiskLevel, get_factor,
}
use agent_gear.Routing.{route, tier_of_score, effort_of_score, is_high_risk, is_signalled}
use agent_gear.Routing.Floors.{rank_if, route-ranks}
use agent_gear.Routing.Monotone.{route_mono}

abbrev easy : ComplexityAssessment
easy = record { score = millionths 100000; level = ComplexityLevel.trivial; factors = [] }

abbrev hard : ComplexityAssessment
hard = record { score = millionths 700000; level = ComplexityLevel.high; factors = [] }

abbrev safe : RiskAssessment
safe = record { score = millionths 50000; level = RiskLevel.minimal; factors = [] }

abbrev exposed : RiskAssessment
exposed = record {
  score = millionths 300000;
  level = RiskLevel.critical;
  factors = ("security_impact", millionths 1000000) ∷ [];
}

route-ranks_example :
    (tier_rank (route easy exposed default_policy).tier
      ≡ max
          (max
            (tier_rank (tier_of_score easy exposed default_policy))
            (rank_if (is_high_risk exposed) (tier_rank advanced)))
          (rank_if (is_signalled exposed default_policy) (tier_rank advanced)))
    × (reasoning_rank (route easy exposed default_policy).reasoning
        ≡ max
            (max
              (reasoning_rank (effort_of_score easy exposed default_policy))
              (reasoning_rank default_policy.default_reasoning_floor))
            (rank_if
              (is_signalled exposed default_policy)
              (reasoning_rank default_policy.critical_risk.min_reasoning)))
route-ranks_example = route-ranks easy exposed default_policy

route_mono_example :
    (tier_rank (route easy safe default_policy).tier
      ≤ tier_rank (route hard exposed default_policy).tier)
    × (reasoning_rank (route easy safe default_policy).reasoning
        ≤ reasoning_rank (route hard exposed default_policy).reasoning)
unfolding get_factor
route_mono_example =
    route_mono easy hard safe exposed default_policy (omega arith) (omega arith)
      (omega arith, omega arith, omega arith)
