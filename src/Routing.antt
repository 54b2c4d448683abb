-- ===== src/Routing.antt =====
-- routing.py: the choice of a model tier and of a reasoning effort. The rationale texts are left out;
-- `estimate_cost` is in Escalation, whose costs it gives.
pub mod Floors
pub mod Monotone
mod Tests
use agent_gear.Common.{
  ℕ, String, Bool, true, false, ◌&&◌, Option, List, [], ◌∷◌, ◌++◌, ltb, is_empty, not,
  if◌then◌else◌,
}
use agent_gear.Ratios.{Ratio, millionths, ◌≤?◌, ◌⊕◌, ◌⊖◌, ◌⊛◌, at_most_one}
use agent_gear.Config.{Policy}
use agent_gear.Config.Routing.{normalized, resolve}
use agent_gear.Models.{
  ModelTier, ReasoningEffort, fast, standard, advanced, frontier, tier_rank, reasoning_rank,
}
use agent_gear.Models.Tasks.{ComplexityAssessment, RiskAssessment, Factors, get_factor}

-- The resolved routing decision.
pub record ModelProfile : Type 0 where
  pub tier : ModelTier
  pub reasoning : ReasoningEffort
  pub resolved_model : Option String

unfoldable pub combined_tier_score : ComplexityAssessment → RiskAssessment → Ratio
unfolding at_most_one
combined_tier_score complexity risk =
    at_most_one (millionths 500000 ⊛ complexity.score ⊕ millionths 500000 ⊛ risk.score)

unfoldable pub reasoning_score : ComplexityAssessment → RiskAssessment → Ratio
unfolding at_most_one
reasoning_score complexity risk =
    at_most_one (millionths 350000 ⊛ complexity.score ⊕ millionths 650000 ⊛ risk.score)

-- The name of a factor that reaches its threshold.
unfoldable pub signal_at : String → ℕ → Factors → List String
unfolding get_factor
signal_at name threshold factors =
    if millionths threshold ≤? get_factor name factors then name ∷ [] else []

-- The critical signals, by their names.
unfoldable pub critical_signal_reasons : RiskAssessment → Policy → List String
unfolding signal_at
critical_signal_reasons risk policy =
    signal_at "security_impact" policy.critical_risk.security_impact_at risk.factors
    ++ signal_at "data_impact" policy.critical_risk.data_impact_at risk.factors
    ++ signal_at "irreversibility" policy.critical_risk.irreversibility_at risk.factors

-- A signed shift: what it adds to a threshold and what it takes away, one of them zero.
pub record Shift : Type 0 where
  pub added : Ratio
  pub removed : Ratio

-- `bias * _MAX_THRESHOLD_SHIFT`, where `bias` is `(cw + lw) - qw`
unfoldable pub threshold_shift : Policy → Shift
unfolding normalized
threshold_shift policy =
    let (cw, qw, lw) = normalized policy.routing_weights in
    record {
      added = ((cw ⊕ lw) ⊖ qw) ⊛ millionths 150000;
      removed = (qw ⊖ (cw ⊕ lw)) ⊛ millionths 150000;
    }

-- `_clip(t + shift)`
unfoldable pub shifted : ℕ → Shift → Ratio
unfolding at_most_one
shifted t shift = at_most_one ((millionths t ⊕ shift.added) ⊖ shift.removed)

-- The cheapest tier whose threshold the score clears.
unfoldable pub cleared_tier : Ratio → Ratio → Ratio → Ratio → ModelTier
cleared_tier score standard_at advanced_at frontier_at =
    if frontier_at ≤? score
    then frontier
    else if advanced_at ≤? score
    then advanced
    else if standard_at ≤? score
    then standard
    else fast

-- `if applies and tier.rank < floor.rank: tier = floor`
unfoldable pub floor_tier : Bool → ModelTier → ModelTier → ModelTier
unfolding tier_rank
floor_tier applies floor tier =
    if applies && ltb (tier_rank tier) (tier_rank floor) then floor else tier

unfoldable pub floor_reasoning : Bool → ReasoningEffort → ReasoningEffort → ReasoningEffort
unfolding reasoning_rank
floor_reasoning applies floor effort =
    if applies && ltb (reasoning_rank effort) (reasoning_rank floor) then floor else effort

abbrev pub is_signalled : RiskAssessment → Policy → Bool
is_signalled risk policy = not (is_empty (critical_signal_reasons risk policy))

-- `risk.score >= _CRITICAL_RISK_OVERRIDE`
abbrev pub is_high_risk : RiskAssessment → Bool
is_high_risk risk = millionths 850000 ≤? risk.score

unfoldable pub tier_of_score : ComplexityAssessment → RiskAssessment → Policy → ModelTier
unfolding combined_tier_score threshold_shift shifted cleared_tier
tier_of_score complexity risk policy =
    let shift = threshold_shift policy in
    let t = policy.routing_thresholds in
    cleared_tier (combined_tier_score complexity risk) (shifted t.standard_at shift)
      (shifted t.advanced_at shift) (shifted t.frontier_at shift)

unfoldable pub select_model_tier : ComplexityAssessment → RiskAssessment → Policy → ModelTier
unfolding tier_of_score floor_tier critical_signal_reasons
select_model_tier complexity risk policy =
    floor_tier (is_signalled risk policy) policy.critical_risk.min_tier
      (floor_tier (is_high_risk risk) advanced (tier_of_score complexity risk policy))

unfoldable pub effort_of_score : ComplexityAssessment → RiskAssessment → Policy → ReasoningEffort
unfolding reasoning_score
effort_of_score complexity risk policy =
    let score = reasoning_score complexity risk in
    let rt = policy.reasoning_thresholds in
    if millionths rt.max_at ≤? score
    then ReasoningEffort.max
    else if millionths rt.xhigh_at ≤? score
    then ReasoningEffort.xhigh
    else if millionths rt.high_at ≤? score
    then ReasoningEffort.high
    else if millionths rt.medium_at ≤? score
    then ReasoningEffort.medium
    else if millionths rt.low_at ≤? score
    then ReasoningEffort.low
    else ReasoningEffort.none

unfoldable pub select_reasoning_effort :
    ComplexityAssessment → RiskAssessment → Policy → ReasoningEffort
unfolding effort_of_score floor_reasoning critical_signal_reasons
select_reasoning_effort complexity risk policy =
    floor_reasoning (is_signalled risk policy) policy.critical_risk.min_reasoning
      (floor_reasoning true policy.default_reasoning_floor (effort_of_score complexity risk policy))

unfoldable pub route : ComplexityAssessment → RiskAssessment → Policy → ModelProfile
unfolding select_model_tier select_reasoning_effort resolve
route complexity risk policy =
    let tier = select_model_tier complexity risk policy in
    record {
      tier = tier;
      reasoning = select_reasoning_effort complexity risk policy;
      resolved_model = resolve policy.model_tier_mapping tier;
    }
