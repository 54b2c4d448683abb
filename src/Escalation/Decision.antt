-- ===== src/Escalation/Decision.antt =====
-- What the escalation engine decides: when it escalates, to what, and that the budget bears it.
use agent_gear.Common.{
  leb→le, ℕ, zero, suc, ◌+◌, ◌<◌, ◌≤◌, ◌≡◌, refl, ◌⊎◌, String, true, false, ◌&&◌, ◌||◌, Option,
  none, some, ℤ, pos, arith, leb, ◌==◌, Bool-cases, inl, inr,
}
use agent_gear.Errors.{ok, invalid_observation}
use agent_gear.Floats.{require_non_negative_float, require_non_negative_int, require_positive_int}
use agent_gear.Config.{Policy}
use agent_gear.Budget.{Ledger, can_afford, affordable}
use agent_gear.Models.{ModelTier, ReasoningEffort, frontier, tier_rank, reasoning_rank}
use agent_gear.Escalation.{
  EscalationSignals, EscalationDecision, decide_escalation, decide_step, decide_reason,
  triggering_reason, proposed, critical_jump, estimate_cost, refuse, is_critical, fits_budget,
}

-- What holds of the step that a decision to escalate proposes.
pub record IsEscalation (tier : ModelTier) (reasoning : ReasoningEffort) (tokens : ℕ)
    (ledger : Ledger) (next_tier : ModelTier) (next_reasoning : ReasoningEffort) : Type 0 where
  pub tier_up : tier_rank tier ≤ tier_rank next_tier
  pub reasoning_up : reasoning_rank reasoning ≤ reasoning_rank next_reasoning
  pub strict :
      tier_rank tier + reasoning_rank reasoning
      < tier_rank next_tier + reasoning_rank next_reasoning
  pub fits : affordable ledger tokens (estimate_cost next_tier tokens) ≡ true

proposed_up :
    (reason : String) (tier : ModelTier) (reasoning : ReasoningEffort)
    → let (next_tier, next_reasoning) = proposed reason tier reasoning in
      (tier_rank tier ≤ tier_rank next_tier)
      × (reasoning_rank reasoning ≤ reasoning_rank next_reasoning)
unfolding proposed
proposed_up reason tier reasoning = ground arith

-- The next step, and what the decision says of it.
abbrev pub approval : String → ModelTier × ReasoningEffort → EscalationDecision
approval reason (tier, reasoning) = record {
  should_escalate = true;
  next_tier = some tier;
  next_reasoning = some reasoning;
  reason = reason;
}

positive : (n : ℕ) → 0 < n → require_positive_int invalid_observation (pos n) ≡ ok n
unfolding require_positive_int
positive zero h = elim h [ ]
positive (suc n) h = refl

room_left : (used bound : ℕ) → leb bound used ≡ false → used < bound
room_left used bound h = ground arith

module _ (tier : ModelTier) (reasoning : ReasoningEffort) (policy : Policy) (tokens : ℕ)
    (ledger : Ledger) where
  -- What is decided for a reason: nothing where the step does not go up, nothing where the ledger
  -- cannot afford it, and else the step that the reason proposes.
  abbrev pub Decided : String → EscalationDecision → Type 0
  Decided reason d =
      ((d ≡ refuse "ceiling_reached")
        × (tier_rank (proposed reason tier reasoning).0 ≡ tier_rank tier)
        × (reasoning_rank (proposed reason tier reasoning).1 ≡ reasoning_rank reasoning))
      ⊎ (((d ≡ refuse "cost_budget_exceeded")
            × (affordable ledger tokens (estimate_cost (proposed reason tier reasoning).0 tokens)
                ≡ false))
          ⊎ ((d ≡ approval reason (proposed reason tier reasoning))
              × IsEscalation tier reasoning tokens ledger (proposed reason tier reasoning).0
                  (proposed reason tier reasoning).1))

  at_ceiling :
      (reason : String)
      → ((tier_rank (proposed reason tier reasoning).0 == tier_rank tier)
          && (reasoning_rank (proposed reason tier reasoning).1 == reasoning_rank reasoning))
        ≡ true
      → (tier_rank (proposed reason tier reasoning).0 ≡ tier_rank tier)
        × (reasoning_rank (proposed reason tier reasoning).1 ≡ reasoning_rank reasoning)
  at_ceiling reason h = ground (arith, h)

  strictly_up :
      (reason : String)
      → ((tier_rank (proposed reason tier reasoning).0 == tier_rank tier)
          && (reasoning_rank (proposed reason tier reasoning).1 == reasoning_rank reasoning))
        ≡ false
      → tier_rank tier + reasoning_rank reasoning
        < tier_rank (proposed reason tier reasoning).0
          + reasoning_rank (proposed reason tier reasoning).1
  strictly_up reason h = ground (arith, proposed_up reason tier reasoning)

  decide_step-Decided :
      (reason : String)
      → (d : EscalationDecision) × (decide_step reason tier reasoning policy tokens (some ledger)
          ≡ ok d)
        × Decided reason d
  unfolding decide_step fits_budget can_afford require_non_negative_int require_non_negative_float
  decide_step-Decided reason =
      elim (Bool-cases (
        (tier_rank (proposed reason tier reasoning).0 == tier_rank tier)
        && (reasoning_rank (proposed reason tier reasoning).1 == reasoning_rank reasoning))) [
          | inl same ↦ (
            refuse "ceiling_reached",
            rw same,
            inl (refl, (at_ceiling reason same).0, (at_ceiling reason same).1),
          )
          | inr up ↦
              elim (Bool-cases (
                affordable ledger tokens
                  (estimate_cost (proposed reason tier reasoning).0 tokens))) [
                    | inl fits ↦ (
                      approval reason (proposed reason tier reasoning),
                      rw (up, fits),
                      inr (
                          inr (
                            refl,
                            record {
                              tier_up = (proposed_up reason tier reasoning).0;
                              reasoning_up = (proposed_up reason tier reasoning).1;
                              strict = strictly_up reason up;
                              fits = fits;
                            },
                          )),
                    )
                    | inr over ↦
                        (refuse "cost_budget_exceeded", rw (up, over), inr (inl (refl, over)))
                  ]
        ]

  -- Nothing without evidence, nothing at the bound on escalations, and else what is decided for the
  -- reason that the evidence gives.
  abbrev pub Outcome : ℕ → EscalationSignals → EscalationDecision → Type 0
  Outcome used signals d =
      ((d ≡ refuse "no_trigger") × (triggering_reason signals ≡ none))
      ⊎ (((d ≡ refuse "escalation_limit_reached") × (policy.watchdog.max_model_escalations ≤ used))
          ⊎ ((reason : String) × (triggering_reason signals ≡ some reason)
              × (used < policy.watchdog.max_model_escalations)
              × Decided reason d))

  -- With a ledger, a count of escalations that is not negative and tokens that are positive, a decision
  -- never raises, and refuses for four causes only: no evidence, the bound on escalations reached, a
  -- proposed step that does not go up, and one that the ledger cannot afford. In every other case it
  -- approves the step that the evidence proposes, which goes up and fits the ledger.
  pub decide_escalation-Decided :
      (used : ℕ) (signals : EscalationSignals)
      → 0 < tokens
      → (d : EscalationDecision) × (decide_escalation tier reasoning
            (pos used)
            signals
            policy
            (pos tokens)
            (some ledger)
          ≡ ok d)
        × Outcome used signals d
  unfolding decide_escalation require_non_negative_int
  decide_escalation-Decided used signals h =
      rw (positive tokens h) (by_reason (triggering_reason signals) refl)
    where
      by_reason :
          (o : Option String)
          → triggering_reason signals ≡ o
          → (d : EscalationDecision) × (decide_reason
                (triggering_reason signals)
                tier
                reasoning
                used
                policy
                tokens
                (some ledger)
              ≡ ok d)
            × Outcome used signals d
      by_reason none e = (refuse "no_trigger", rw e, inl (refl, e))
      by_reason (some reason) e =
          elim (Bool-cases (leb policy.watchdog.max_model_escalations used)) [
            | inl full ↦
                (refuse "escalation_limit_reached", rw (e, full), inr (inl (refl, leb→le _ _ full)))
            | inr room ↦
                let (d, made, outcome) = decide_step-Decided reason in
                (d, rw (e, room) made, inr (inr (reason, e, room_left used _ room, outcome)))
          ]

-- Elapsed time decides nothing: two sets of signals that differ in it alone have the same decision,
-- whatever the other arguments, the ones out of range included.
pub time_never_escalates :
    (tier : ModelTier) (reasoning : ReasoningEffort) (used : ℤ) (signals : EscalationSignals)
    (elapsed : ℕ) (policy : Policy) (tokens : ℤ) (ledger : Option Ledger)
    → decide_escalation tier reasoning used
        (record signals { elapsed_seconds = elapsed })
        policy
        tokens
        ledger
      ≡ decide_escalation tier reasoning used signals policy tokens ledger
unfolding decide_escalation triggering_reason
time_never_escalates tier reasoning used signals elapsed policy tokens ledger = refl

approved_step :
    (tier : ModelTier) (reasoning : ReasoningEffort) (used : ℤ) (signals : EscalationSignals)
    (policy : Policy) (tokens : ℤ) (ledger : Option Ledger) (d : EscalationDecision)
    (reason : String)
    → triggering_reason signals ≡ some reason
    → decide_escalation tier reasoning used signals policy tokens ledger ≡ ok d
    → d.should_escalate ≡ true
    → d ≡ approval reason (proposed reason tier reasoning)
unfolding decide_escalation decide_step
approved_step tier reasoning used signals policy tokens ledger d reason triggered made up =
    ground arith

critical_reason :
    (signals : EscalationSignals)
    → (signals.security_risk || signals.architectural_risk) ≡ true
    → (reason : String) × (triggering_reason signals ≡ some reason) × (is_critical reason ≡ true)
unfolding triggering_reason
critical_reason signals h = elim (Bool-cases signals.security_risk) [
  | inl e ↦ ("security_risk", rw e, refl)
  | inr e ↦ ("architectural_risk", ground (arith, h), refl)
]

high_or_more :
    (reasoning : ReasoningEffort)
    → reasoning_rank ReasoningEffort.high ≤ reasoning_rank (critical_jump reasoning).1
unfolding critical_jump
high_or_more reasoning = ground arith

critical_proposal :
    (reason : String) (tier : ModelTier) (reasoning : ReasoningEffort)
    → is_critical reason ≡ true
    → ((proposed reason tier reasoning).0 ≡ frontier)
      × (reasoning_rank ReasoningEffort.high ≤ reasoning_rank (proposed reason tier reasoning).1)
unfolding proposed
critical_proposal reason tier reasoning h = rw h (refl, high_or_more reasoning)

-- A security or architectural risk that escalates goes to FRONTIER at once, with reasoning HIGH or
-- above.
pub critical_goes_to_frontier :
    (tier : ModelTier) (reasoning : ReasoningEffort) (used : ℤ) (signals : EscalationSignals)
    (policy : Policy) (tokens : ℤ) (ledger : Option Ledger) (d : EscalationDecision)
    → (signals.security_risk || signals.architectural_risk) ≡ true
    → decide_escalation tier reasoning used signals policy tokens ledger ≡ ok d
    → d.should_escalate ≡ true
    → (d.next_tier ≡ some frontier)
      × ((r : ReasoningEffort) × (d.next_reasoning ≡ some r)
          × (reasoning_rank ReasoningEffort.high ≤ reasoning_rank r))
critical_goes_to_frontier tier reasoning used signals policy tokens ledger d critical made up =
    let (reason, triggered, urgent) = critical_reason signals critical in
    let approved =
      approved_step tier reasoning used signals policy tokens ledger d reason triggered made up in
    let jump = critical_proposal reason tier reasoning urgent in
    (cc (approved, jump.0), ((proposed reason tier reasoning).1, cc approved, jump.1))
