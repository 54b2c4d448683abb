-- ===== src/Escalation/Tests.antt =====
-- Decisions on concrete signals, with a ledger that is still empty.
use agent_gear.Common.{◌≡◌, ◌≤◌, refl, true, false, some, [], pos, arith}
use agent_gear.Errors.{ok}
use agent_gear.Config.{default_policy}
use agent_gear.Models.{fast, frontier, ReasoningEffort, tier_rank, reasoning_rank}
use agent_gear.Floats.{require_non_negative_int, require_positive_int, require_non_negative_float}
use agent_gear.Budget.{Ledger, can_afford, affordable, total}
use agent_gear.Escalation.{
  EscalationSignals, EscalationDecision, decide_escalation, triggering_reason, decide_step,
  proposed, fits_budget, estimate_cost,
}
use agent_gear.Escalation.Decision.{
  Outcome, decide_escalation-Decided, time_never_escalates, critical_goes_to_frontier, approval,
}

abbrev quiet : EscalationSignals
quiet = record {
  repeated_failures = 0;
  uncertainty = 0;
  architectural_risk = false;
  security_risk = false;
  insufficient_context = false;
  failed_tests = false;
  stalled = false;
  elapsed_seconds = 0;
}

abbrev risky : EscalationSignals
risky = record quiet { security_risk = true }

abbrev ledger : Ledger
ledger = record {
  max_tokens = 200000;
  max_cost = 5000000;
  reservations = [];
  id_counter = 1;
  agent_dispatches = 0;
}

decide_escalation-Decided_example :
    (d : EscalationDecision) × (decide_escalation fast ReasoningEffort.low
        (pos 0)
        risky
        default_policy
        (pos 20)
        (some ledger)
      ≡ ok d)
    × Outcome fast ReasoningEffort.low default_policy 20 ledger 0 risky d
decide_escalation-Decided_example =
    decide_escalation-Decided fast ReasoningEffort.low default_policy 20 ledger 0 risky
      (omega arith)

time_never_escalates_example :
    decide_escalation fast ReasoningEffort.low
      (pos 0)
      (record risky { elapsed_seconds = 9000 })
      default_policy
      (pos 20)
      (some ledger)
    ≡ decide_escalation fast ReasoningEffort.low (pos 0) risky default_policy (pos 20) (some ledger)
time_never_escalates_example =
    time_never_escalates fast ReasoningEffort.low (pos 0) risky 9000 default_policy (pos 20)
      (some ledger)

abbrev jump : EscalationDecision
jump = approval "security_risk" (frontier, ReasoningEffort.high)

jump-decided :
    decide_escalation fast ReasoningEffort.low (pos 0) risky default_policy (pos 20) (some ledger)
    ≡ ok jump
unfolding decide_escalation require_non_negative_int require_positive_int triggering_reason
    decide_step tier_rank proposed fits_budget can_afford require_non_negative_float affordable
    total estimate_cost
jump-decided = refl

critical_goes_to_frontier_example :
    (some frontier ≡ some frontier)
    × ((r : ReasoningEffort) × (some ReasoningEffort.high ≡ some r)
        × (reasoning_rank ReasoningEffort.high ≤ reasoning_rank r))
critical_goes_to_frontier_example =
    critical_goes_to_frontier fast ReasoningEffort.low (pos 0) risky default_policy (pos 20)
      (some ledger) jump refl jump-decided refl
