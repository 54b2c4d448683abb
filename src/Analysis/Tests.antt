-- ===== src/Analysis/Tests.antt =====
-- The analysis of a task that touches security.
use agent_gear.Common.{◌≡◌, refl, none, [], pos, All, is_blank}
use agent_gear.Errors.{ok}
use agent_gear.Floats.{float_of, require_unit_interval, require_non_negative_int}
use agent_gear.Ratios.{count_of, ◌≼◌}
use agent_gear.Models.Tasks.{
  TaskSignals, TaskProfile, make_task_profile, ComplexityAssessment, RiskAssessment,
}
use agent_gear.Analysis.{assess_complexity, assess_risk}
use agent_gear.Analysis.Scores.{IsFactor, IsLevelled, assess-InUnit}

abbrev pub login_signals : TaskSignals
login_signals = record {
  description = "change the login check";
  files_affected = pos 2;
  modules_affected = pos 1;
  architectural_impact = float_of 100000;
  security_impact = float_of 1000000;
  data_impact = float_of 0;
  ambiguity = float_of 200000;
  novelty = float_of 0;
  reversibility = float_of 1000000;
  existing_test_coverage = float_of 500000;
  prior_failures = pos 0;
  expected_output_tokens = pos 2000;
  actionable_context = record {
    affected_files = [];
    dependencies = [];
    acceptance_criteria = [];
    verification = [];
    rollback_strategy = none;
  };
}

abbrev pub login : TaskProfile
login = record {
  description = "change the login check";
  files_affected = 2;
  modules_affected = 1;
  architectural_impact = 100000;
  security_impact = 1000000;
  data_impact = 0;
  ambiguity = 200000;
  novelty = 0;
  reversibility = 1000000;
  existing_test_coverage = 500000;
  prior_failures = 0;
  expected_output_tokens = 2000;
  actionable_context = login_signals.actionable_context;
}

pub login-made : make_task_profile login_signals ≡ ok login
unfolding make_task_profile require_unit_interval require_non_negative_int is_blank
login-made = refl

assess-InUnit_example :
    (c : ComplexityAssessment) × (r : RiskAssessment) × (assess_complexity login ≡ ok c)
    × (assess_risk login ≡ ok r)
    × (c.score ≼ count_of 1)
    × (r.score ≼ count_of 1)
    × All IsFactor c.factors
    × All IsFactor r.factors
    × IsLevelled login r
assess-InUnit_example = assess-InUnit login_signals login login-made
