-- ===== src/Analysis.antt =====
-- analysis.py: the scores of a task's complexity and risk, with their factors. The rationale texts are
-- left out.

pub mod Scores
pub mod Tests
use agent_gear.Common.{
  ℕ, ◌+◌, ◌-◌, String, Bool, true, false, ◌||◌, Option, none, some, List, [], ◌∷◌, map, is_empty,
  if◌then◌else◌,
}
use agent_gear.Errors.{Result, ok, err}
use agent_gear.Ratios.{Ratio, millionths, count_of, ◌≤?◌, ◌⊕◌, ◌⊖◌, ◌⊛◌, at_most_one}
use agent_gear.Models.Tasks.{
  ComplexityLevel, RiskLevel, TaskProfile, Candidate, exactly, Factors, get_factor,
  ComplexityAssessment, make_complexity_assessment, RiskAssessment, make_risk_assessment,
}

-- `count / (count + k)`; the constants k are 12, 5 and 3.
unfoldable pub saturating : ℕ → ℕ → Ratio
saturating count k = record { num = count; rest = count + k - 1 }

-- `a < b`
abbrev is_below : Ratio → ℕ → Bool
is_below a b = if millionths b ≤? a then false else true

unfoldable pub complexity_level : Ratio → ComplexityLevel
complexity_level score =
    if is_below score 150000
    then ComplexityLevel.trivial
    else if is_below score 350000
    then ComplexityLevel.low
    else if is_below score 600000
    then ComplexityLevel.moderate
    else if is_below score 850000
    then ComplexityLevel.high
    else ComplexityLevel.very_high

unfoldable pub risk_level : Ratio → RiskLevel
risk_level score =
    if is_below score 150000
    then RiskLevel.minimal
    else if is_below score 350000
    then RiskLevel.low
    else if is_below score 600000
    then RiskLevel.moderate
    else if is_below score 850000
    then RiskLevel.high
    else RiskLevel.critical

-- `_COMPLEXITY_WEIGHTS` and `_RISK_WEIGHTS`, in millionths
unfoldable pub complexity_weights : List (String × ℕ)
complexity_weights =
    ("files_affected", 200000)
    ∷ ("modules_affected", 200000)
    ∷ ("architectural_impact", 250000)
    ∷ ("ambiguity", 150000)
    ∷ ("novelty", 100000)
    ∷ ("low_test_coverage", 100000)
    ∷ []

unfoldable pub risk_weights : List (String × ℕ)
risk_weights =
    ("security_impact", 300000)
    ∷ ("data_impact", 250000)
    ∷ ("irreversibility", 200000)
    ∷ ("architectural_impact", 100000)
    ∷ ("prior_failures", 150000)
    ∷ []

-- `sum(factors[k] * weights[k] for k in weights)`; every key of the two tables is among the factors.
unfoldable pub weighted_sum : Factors → List (String × ℕ) → Ratio
unfolding get_factor
weighted_sum factors [] = count_of 0
weighted_sum factors ((name, w) ∷ rest) =
    get_factor name factors ⊛ millionths w ⊕ weighted_sum factors rest

unfoldable pub complexity_factors : TaskProfile → Factors
unfolding saturating
complexity_factors profile =
    ("files_affected", saturating profile.files_affected 12)
    ∷ ("modules_affected", saturating profile.modules_affected 5)
    ∷ ("architectural_impact", millionths profile.architectural_impact)
    ∷ ("ambiguity", millionths profile.ambiguity)
    ∷ ("novelty", millionths profile.novelty)
    ∷ ("low_test_coverage", count_of 1 ⊖ millionths profile.existing_test_coverage)
    ∷ []

unfoldable pub risk_factors : TaskProfile → Factors
unfolding saturating
risk_factors profile =
    ("security_impact", millionths profile.security_impact)
    ∷ ("data_impact", millionths profile.data_impact)
    ∷ ("irreversibility", count_of 1 ⊖ millionths profile.reversibility)
    ∷ ("architectural_impact", millionths profile.architectural_impact)
    ∷ ("prior_failures", saturating profile.prior_failures 3)
    ∷ []

-- A mapping of numbers, as it is handed to a constructor.
unfoldable pub candidates : Factors → List (String × Candidate)
candidates [] = []
candidates ((name, v) ∷ rest) = (name, exactly v) ∷ candidates rest

unfoldable pub assess_complexity : TaskProfile → Result ComplexityAssessment
unfolding complexity_level complexity_weights weighted_sum complexity_factors candidates
    make_complexity_assessment at_most_one
assess_complexity profile =
    let factors = complexity_factors profile in
    let score = at_most_one (weighted_sum factors complexity_weights) in
    make_complexity_assessment (exactly score) (complexity_level score) (candidates factors)

-- `critical_signals` is not empty.
unfoldable pub has_critical_signal : Factors → Bool
unfolding get_factor
has_critical_signal factors =
    (millionths 850000 ≤? get_factor "security_impact" factors)
    || (millionths 850000 ≤? get_factor "data_impact" factors)
    || (millionths 850000 ≤? get_factor "irreversibility" factors)

unfoldable pub assess_risk : TaskProfile → Result RiskAssessment
unfolding risk_level risk_weights weighted_sum risk_factors candidates make_risk_assessment
    at_most_one has_critical_signal
assess_risk profile =
    let factors = risk_factors profile in
    let score = at_most_one (weighted_sum factors risk_weights) in
    let level = if has_critical_signal factors then RiskLevel.critical else risk_level score in
    make_risk_assessment (exactly score) level (candidates factors)
