-- ===== src/Config.antt =====
-- config.py: the policies of the watchdog and of the budget, and `Policy`, with the checks of their
-- `__post_init__`. The child modules have the policies that routing reads.
pub mod Routing
pub mod Resolving
mod Tests
use agent_gear.Common.{ℕ, Bool, ℤ, ltb, [], ◌∷◌, arith}
use agent_gear.Errors.{Result, ok, configuration}
use agent_gear.Errors.Checks.{◌>>=◌, ◌>>◌, raise_if}
use agent_gear.Floats.{
  Float, require_positive_float, require_positive_int, require_non_negative_int,
  require_unit_interval,
}
use agent_gear.Models.{ReasoningEffort, advanced}
use agent_gear.Config.Routing.{
  RoutingWeights, RoutingThresholds, ReasoningThresholds, ModelTierMapping, CriticalRiskPolicy,
}

pub record WatchdogPolicy : Type 0 where
  pub enabled : Bool
  pub no_progress_seconds : ℕ
  pub no_progress_cycles : ℕ
  pub max_identical_failures : ℕ
  pub max_recovery_attempts : ℕ
  pub max_no_progress_cycles : ℕ
  pub max_total_attempts : ℕ
  pub max_model_escalations : ℕ
  pub trivial_command_timeout_seconds : ℕ

unfoldable pub make_watchdog_policy :
    Bool → Float → ℤ → ℤ → ℤ → ℤ → ℤ → ℤ → Float → Result WatchdogPolicy
unfolding require_positive_float require_positive_int require_non_negative_int
make_watchdog_policy enabled seconds cycles failures recoveries max_cycles total escalations slow =
    do
      no_progress_seconds ← require_positive_float configuration seconds
      no_progress_cycles ← require_positive_int configuration cycles
      max_identical_failures ← require_positive_int configuration failures
      max_recovery_attempts ← require_positive_int configuration recoveries
      max_no_progress_cycles ← require_positive_int configuration max_cycles
      max_total_attempts ← require_positive_int configuration total
      max_model_escalations ← require_non_negative_int configuration escalations
      trivial_timeout ← require_positive_float configuration slow
      raise_if (ltb max_no_progress_cycles no_progress_cycles) configuration
      ok (record {
        enabled = enabled;
        no_progress_seconds = no_progress_seconds;
        no_progress_cycles = no_progress_cycles;
        max_identical_failures = max_identical_failures;
        max_recovery_attempts = max_recovery_attempts;
        max_no_progress_cycles = max_no_progress_cycles;
        max_total_attempts = max_total_attempts;
        max_model_escalations = max_model_escalations;
        trivial_command_timeout_seconds = trivial_timeout;
      })

pub record BudgetPolicy : Type 0 where
  pub max_agents : ℕ
  pub max_context_budget_tokens : ℕ
  pub max_estimated_cost : ℕ
  pub max_estimated_tokens : ℕ

unfoldable pub make_budget_policy : ℤ → ℤ → Float → ℤ → Result BudgetPolicy
unfolding require_positive_float require_positive_int
make_budget_policy agents context cost tokens = do
  max_agents ← require_positive_int configuration agents
  max_context_budget_tokens ← require_positive_int configuration context
  max_estimated_cost ← require_positive_float configuration cost
  max_estimated_tokens ← require_positive_int configuration tokens
  ok (record {
    max_agents = max_agents;
    max_context_budget_tokens = max_context_budget_tokens;
    max_estimated_cost = max_estimated_cost;
    max_estimated_tokens = max_estimated_tokens;
  })

pub record Policy : Type 0 where
  pub routing_weights : RoutingWeights
  pub routing_thresholds : RoutingThresholds
  pub reasoning_thresholds : ReasoningThresholds
  pub watchdog : WatchdogPolicy
  pub budget : BudgetPolicy
  pub model_tier_mapping : ModelTierMapping
  pub critical_risk : CriticalRiskPolicy
  pub default_reasoning_floor : ReasoningEffort
  pub multi_agent_risk_threshold : ℕ
  pub multi_agent_complexity_threshold : ℕ

unfoldable pub make_policy :
    RoutingWeights
    → RoutingThresholds
    → ReasoningThresholds
    → WatchdogPolicy
    → BudgetPolicy
    → ModelTierMapping
    → CriticalRiskPolicy
    → ReasoningEffort
    → Float
    → Float
    → Result Policy
unfolding require_unit_interval
make_policy weights tiers efforts watchdog budget mapping critical floor risk complexity = do
  r ← require_unit_interval configuration risk
  c ← require_unit_interval configuration complexity
  ok (record {
    routing_weights = weights;
    routing_thresholds = tiers;
    reasoning_thresholds = efforts;
    watchdog = watchdog;
    budget = budget;
    model_tier_mapping = mapping;
    critical_risk = critical;
    default_reasoning_floor = floor;
    multi_agent_risk_threshold = r;
    multi_agent_complexity_threshold = c;
  })

-- The defaults of the fields.
abbrev pub default_watchdog : WatchdogPolicy
default_watchdog = record {
  enabled = Bool.true;
  no_progress_seconds = 120000000;
  no_progress_cycles = 3;
  max_identical_failures = 2;
  max_recovery_attempts = 3;
  max_no_progress_cycles = 5;
  max_total_attempts = 10;
  max_model_escalations = 2;
  trivial_command_timeout_seconds = 15000000;
}

abbrev pub default_budget : BudgetPolicy
default_budget = record {
  max_agents = 4;
  max_context_budget_tokens = 32000;
  max_estimated_cost = 5000000;
  max_estimated_tokens = 200000;
}

abbrev pub default_critical_risk : CriticalRiskPolicy
default_critical_risk = record {
  security_impact_at = 850000;
  data_impact_at = 850000;
  irreversibility_at = 850000;
  min_tier = advanced;
  min_reasoning = ReasoningEffort.high;
  require_review = Bool.true;
}

-- `_DEFAULT_TIER_MODEL_MAP`
abbrev pub default_mapping : ModelTierMapping
default_mapping = record {
  mapping =
      ("fast", "Luna") ∷ ("standard", "Luna") ∷ ("advanced", "Terra") ∷ ("frontier", "Sol") ∷ [];
}

abbrev pub default_policy : Policy
default_policy = record {
  routing_weights = record {
    cost_weight = 400000;
    quality_weight = 400000;
    latency_weight = 200000;
    positive = omega arith;
  };
  routing_thresholds = record { standard_at = 250000; advanced_at = 550000; frontier_at = 800000 };
  reasoning_thresholds = record {
    low_at = 150000;
    medium_at = 350000;
    high_at = 600000;
    xhigh_at = 800000;
    max_at = 930000;
  };
  watchdog = default_watchdog;
  budget = default_budget;
  model_tier_mapping = default_mapping;
  critical_risk = default_critical_risk;
  default_reasoning_floor = ReasoningEffort.low;
  multi_agent_risk_threshold = 500000;
  multi_agent_complexity_threshold = 550000;
}
