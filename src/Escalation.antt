-- ===== src/Escalation.antt =====
-- escalation.py, with `estimate_cost` of routing.py.
pub mod Decision
mod Tests
use agent_gear.Common.{
  ℕ, zero, suc, ◌+◌, ◌*◌, ◌-◌, String, Bool, true, false, not, ◌&&◌, ◌||◌, Option, none, some, List,
  ℤ, pos, negsuc, ltb, leb, ◌==◌, str_eq, min, max, if◌then◌else◌,
}
use agent_gear.Errors.{Result, ok, err, invalid_observation}
use agent_gear.Errors.Checks.{◌>>=◌, ◌>>◌}
use agent_gear.Floats.{
  Float, float_of, require_non_negative_float, require_non_negative_int, require_positive_int,
  require_unit_interval,
}
use agent_gear.Config.{Policy}
use agent_gear.Budget.{Ledger, can_afford}
use agent_gear.Models.{
  ModelTier, ReasoningEffort, fast, standard, advanced, frontier, tier_rank, reasoning_rank,
}

-- `RELATIVE_COST_PER_1K_TOKENS`, for one token: in millionths of a cost unit they are whole numbers.
unfoldable pub relative_cost : ModelTier → ℕ
relative_cost fast = 1
relative_cost standard = 4
relative_cost advanced = 18
relative_cost frontier = 70

unfoldable pub estimate_cost : ModelTier → ℕ → ℕ
unfolding relative_cost
estimate_cost tier tokens = relative_cost tier * tokens

pub record EscalationSignals : Type 0 where
  pub repeated_failures : ℕ
  pub uncertainty : ℕ
  pub architectural_risk : Bool
  pub security_risk : Bool
  pub insufficient_context : Bool
  pub failed_tests : Bool
  pub stalled : Bool
  pub elapsed_seconds : ℕ

unfoldable pub make_signals :
    ℤ → Float → Bool → Bool → Bool → Bool → Bool → Float → Result EscalationSignals
unfolding require_non_negative_int require_unit_interval require_non_negative_float
make_signals failures uncertainty architectural security context tests stalled elapsed = do
  n ← require_non_negative_int invalid_observation failures
  u ← require_unit_interval invalid_observation uncertainty
  t ← require_non_negative_float invalid_observation elapsed
  ok (record {
    repeated_failures = n;
    uncertainty = u;
    architectural_risk = architectural;
    security_risk = security;
    insufficient_context = context;
    failed_tests = tests;
    stalled = stalled;
    elapsed_seconds = t;
  })

-- The rationale texts are left out.
pub record EscalationDecision : Type 0 where
  pub should_escalate : Bool
  pub next_tier : Option ModelTier
  pub next_reasoning : Option ReasoningEffort
  pub reason : String

-- `_TIER_LADDER[i]` and `_REASONING_LADDER[i]`, for the indices that occur.
unfoldable pub tier_at : ℕ → ModelTier
tier_at zero = fast
tier_at (suc zero) = standard
tier_at (suc (suc zero)) = advanced
tier_at (suc (suc (suc _))) = frontier

unfoldable pub reasoning_at : ℕ → ReasoningEffort
reasoning_at zero = ReasoningEffort.none
reasoning_at (suc zero) = ReasoningEffort.low
reasoning_at (suc (suc zero)) = ReasoningEffort.medium
reasoning_at (suc (suc (suc zero))) = ReasoningEffort.high
reasoning_at (suc (suc (suc (suc zero)))) = ReasoningEffort.xhigh
reasoning_at (suc (suc (suc (suc (suc _))))) = ReasoningEffort.max

unfoldable pub next_step : ModelTier → ReasoningEffort → ModelTier × ReasoningEffort
unfolding tier_at reasoning_at tier_rank reasoning_rank
next_step tier reasoning =
    (tier_at (min (tier_rank tier + 1) 3), reasoning_at (min (reasoning_rank reasoning + 1) 5))

unfoldable pub critical_jump : ReasoningEffort → ModelTier × ReasoningEffort
unfolding reasoning_at reasoning_rank
critical_jump reasoning =
    (frontier, reasoning_at (max (reasoning_rank reasoning) (reasoning_rank ReasoningEffort.high)))

unfoldable pub triggering_reason : EscalationSignals → Option String
triggering_reason s =
    if s.security_risk
    then some "security_risk"
    else if s.architectural_risk
    then some "architectural_risk"
    else if leb 2 s.repeated_failures
    then some "repeated_failure"
    else if leb 600000 s.uncertainty
    then some "uncertainty"
    else if s.insufficient_context
    then some "insufficient_context"
    else if s.failed_tests
    then some "failed_tests"
    else if s.stalled
    then some "stalled_execution"
    else none

abbrev pub refuse : String → EscalationDecision
refuse why = record {
  should_escalate = false;
  next_tier = none;
  next_reasoning = none;
  reason = why;
}

-- `reason in ("security_risk", "architectural_risk")`
abbrev pub is_critical : String → Bool
is_critical reason = str_eq reason "security_risk" || str_eq reason "architectural_risk"

unfoldable pub proposed : String → ModelTier → ReasoningEffort → ModelTier × ReasoningEffort
unfolding next_step critical_jump
proposed reason tier reasoning =
    if is_critical reason then critical_jump reasoning else next_step tier reasoning

-- The budget check: by the ledger, or by the static ceiling where no ledger is given.
unfoldable pub fits_budget : Policy → Option Ledger → ℕ → ℕ → Result Bool
fits_budget policy none tokens cost = ok (leb cost policy.budget.max_estimated_cost)
fits_budget policy (some ledger) tokens cost = can_afford ledger (pos tokens) (float_of cost)

-- What is decided once a reason is there and the bound leaves room.
unfoldable pub decide_step :
    String → ModelTier → ReasoningEffort → Policy → ℕ → Option Ledger → Result EscalationDecision
decide_step reason tier reasoning policy tokens ledger =
    let (next_tier, next_reasoning) = proposed reason tier reasoning in
    if (tier_rank next_tier == tier_rank tier)
      && (reasoning_rank next_reasoning == reasoning_rank reasoning)
    then ok (refuse "ceiling_reached")
    else (do
      fits ← fits_budget policy ledger tokens (estimate_cost next_tier tokens)
      ok (
          if fits
          then record {
            should_escalate = true;
            next_tier = some next_tier;
            next_reasoning = some next_reasoning;
            reason = reason;
          }
          else refuse "cost_budget_exceeded"))

abbrev pub decide_reason :
    Option String
    → ModelTier
    → ReasoningEffort
    → ℕ
    → Policy
    → ℕ
    → Option Ledger
    → Result EscalationDecision
decide_reason none tier reasoning used policy tokens ledger = ok (refuse "no_trigger")
decide_reason (some reason) tier reasoning used policy tokens ledger =
    if leb policy.watchdog.max_model_escalations used
    then ok (refuse "escalation_limit_reached")
    else decide_step reason tier reasoning policy tokens ledger

unfoldable pub decide_escalation :
    ModelTier
    → ReasoningEffort
    → ℤ
    → EscalationSignals
    → Policy
    → ℤ
    → Option Ledger
    → Result EscalationDecision
decide_escalation tier reasoning escalations_used signals policy context_budget_tokens ledger = do
  used ← require_non_negative_int invalid_observation escalations_used
  tokens ← require_positive_int invalid_observation context_budget_tokens
  decide_reason (triggering_reason signals) tier reasoning used policy tokens ledger
