-- ===== src/Models/Tasks.antt =====
-- models.py: the description of a task and its assessments, with the checks of their constructors.
use agent_gear.Common.{
  ℕ, String, not, Option, List, [], ◌∷◌, ℤ, all, is_blank, str_eq, if◌then◌else◌,
}
use agent_gear.Errors.{Result, ok, err, task_profile}
use agent_gear.Errors.Checks.{◌>>=◌, ◌>>◌, raise_if, raise_if_some}
use agent_gear.Floats.{Float, require_unit_interval, require_non_negative_int}
use agent_gear.Ratios.{Ratio, count_of, ◌≤?◌}

pub data ComplexityLevel : Type 0 where
  trivial low moderate high very_high : ComplexityLevel

pub data RiskLevel : Type 0 where
  minimal low moderate high critical : RiskLevel

-- Every item is a text that is not blank.
unfoldable pub context_items : List String → Result (List String)
context_items items = do raise_if (not (all (λ s. not (is_blank s)) items)) task_profile; ok items

pub record ActionableTaskContext : Type 0 where
  pub affected_files : List String
  pub dependencies : List String
  pub acceptance_criteria : List String
  pub verification : List String
  pub rollback_strategy : Option String

unfoldable pub make_actionable_context :
    List String
    → List String
    → List String
    → List String
    → Option String
    → Result ActionableTaskContext
unfolding context_items
make_actionable_context affected_files dependencies criteria verification rollback_strategy = do
  affected ← context_items affected_files
  needed ← context_items dependencies
  accepted ← context_items criteria
  verified ← context_items verification
  raise_if_some is_blank rollback_strategy task_profile
  ok (record {
    affected_files = affected;
    dependencies = needed;
    acceptance_criteria = accepted;
    verification = verified;
    rollback_strategy = rollback_strategy;
  })

-- The signals from 0.0 to 1.0 are numbers of millionths.
pub record TaskProfile : Type 0 where
  pub description : String
  pub files_affected : ℕ
  pub modules_affected : ℕ
  pub architectural_impact : ℕ
  pub security_impact : ℕ
  pub data_impact : ℕ
  pub ambiguity : ℕ
  pub novelty : ℕ
  pub reversibility : ℕ
  pub existing_test_coverage : ℕ
  pub prior_failures : ℕ
  pub expected_output_tokens : ℕ
  pub actionable_context : ActionableTaskContext

-- The arguments of the constructor, before its checks.
pub record TaskSignals : Type 0 where
  pub description : String
  pub files_affected : ℤ
  pub modules_affected : ℤ
  pub architectural_impact : Float
  pub security_impact : Float
  pub data_impact : Float
  pub ambiguity : Float
  pub novelty : Float
  pub reversibility : Float
  pub existing_test_coverage : Float
  pub prior_failures : ℤ
  pub expected_output_tokens : ℤ
  pub actionable_context : ActionableTaskContext

unfoldable pub make_task_profile : TaskSignals → Result TaskProfile
unfolding require_non_negative_int require_unit_interval
make_task_profile signals = do
  raise_if (is_blank signals.description) task_profile
  files ← require_non_negative_int task_profile signals.files_affected
  modules ← require_non_negative_int task_profile signals.modules_affected
  architecture ← require_unit_interval task_profile signals.architectural_impact
  security ← require_unit_interval task_profile signals.security_impact
  data_change ← require_unit_interval task_profile signals.data_impact
  ambiguity ← require_unit_interval task_profile signals.ambiguity
  novelty ← require_unit_interval task_profile signals.novelty
  reversibility ← require_unit_interval task_profile signals.reversibility
  coverage ← require_unit_interval task_profile signals.existing_test_coverage
  failures ← require_non_negative_int task_profile signals.prior_failures
  tokens ← require_non_negative_int task_profile signals.expected_output_tokens
  ok (record {
    description = signals.description;
    files_affected = files;
    modules_affected = modules;
    architectural_impact = architecture;
    security_impact = security;
    data_impact = data_change;
    ambiguity = ambiguity;
    novelty = novelty;
    reversibility = reversibility;
    existing_test_coverage = coverage;
    prior_failures = failures;
    expected_output_tokens = tokens;
    actionable_context = signals.actionable_context;
  })

-- A number that is offered as a score or a factor.
pub data Candidate : Type 0 where
  not_finite negative : Candidate
  exactly : Ratio → Candidate

-- `_validate_unit_interval` of such a number.
unfoldable pub validate_unit_interval : Candidate → Result Ratio
validate_unit_interval (exactly r) = if r ≤? count_of 1 then ok r else err task_profile
validate_unit_interval _ = err task_profile

-- A mapping of factors, in its order.
abbrev pub Factors : Type 0
Factors = List (String × Ratio)

unfoldable pub validate_factors : List (String × Candidate) → Result Factors
unfolding validate_unit_interval
validate_factors [] = ok []
validate_factors ((name, value) ∷ rest) = do
  raise_if (is_blank name) task_profile
  v ← validate_unit_interval value
  vs ← validate_factors rest
  ok ((name, v) ∷ vs)

-- `factors.get(key, 0.0)`
unfoldable pub get_factor : String → Factors → Ratio
get_factor key [] = count_of 0
get_factor key ((name, v) ∷ rest) = if str_eq name key then v else get_factor key rest

-- The rationale text is left out, here and below.
pub record ComplexityAssessment : Type 0 where
  pub score : Ratio
  pub level : ComplexityLevel
  pub factors : Factors

unfoldable pub make_complexity_assessment :
    Candidate → ComplexityLevel → List (String × Candidate) → Result ComplexityAssessment
unfolding validate_unit_interval validate_factors
make_complexity_assessment score level factors = do
  s ← validate_unit_interval score
  fs ← validate_factors factors
  ok (record { score = s; level = level; factors = fs })

pub record RiskAssessment : Type 0 where
  pub score : Ratio
  pub level : RiskLevel
  pub factors : Factors

unfoldable pub make_risk_assessment :
    Candidate → RiskLevel → List (String × Candidate) → Result RiskAssessment
unfolding validate_unit_interval validate_factors
make_risk_assessment score level factors = do
  s ← validate_unit_interval score
  fs ← validate_factors factors
  ok (record { score = s; level = level; factors = fs })
