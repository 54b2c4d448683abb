-- ===== src/Api.antt =====
-- api.py: the way from a task to its plan in one call.
pub mod Guarded
mod Tests
use agent_gear.Common.{Option, none, some}
use agent_gear.Errors.{Result, ok}
use agent_gear.Errors.Checks.{◌>>=◌}
use agent_gear.Config.{Policy, default_policy}
use agent_gear.Models.Tasks.{TaskProfile, ComplexityAssessment, RiskAssessment}
use agent_gear.Analysis.{assess_complexity, assess_risk}
use agent_gear.Planning.{ExecutionPlan, build_execution_plan}

unfoldable pub analyze : TaskProfile → Result (ComplexityAssessment × RiskAssessment)
analyze profile = do
  complexity ← assess_complexity profile
  risk ← assess_risk profile
  ok (complexity, risk)

-- `policy or Policy.default()`: a policy is never false.
abbrev pub or_default : Option Policy → Policy
or_default none = default_policy
or_default (some policy) = policy

unfoldable pub plan : TaskProfile → Option Policy → Result ExecutionPlan
plan profile policy = do
  (complexity, risk) ← analyze profile
  build_execution_plan profile complexity risk (or_default policy)
