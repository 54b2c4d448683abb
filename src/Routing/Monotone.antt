-- ===== src/Routing/Monotone.antt =====
-- A task that is harder and riskier is never routed to less.
use agent_gear.Common.{
  ℕ, String, Bool, true, ◌&&◌, ◌≡◌, ◌≤◌, refl, List, [], ◌∷◌, ◌++◌, is_empty, leb→le, le→leb, arith,
}
use agent_gear.Ratios.{
  Ratio, millionths, ◌≤?◌, ◌≼◌, ≼_trans, ◌⊕◌, ◌⊛◌, ⊕_mono, ⊛_mono, at_most_one, at_most_one_mono,
}
use agent_gear.Config.{Policy}
use agent_gear.Models.{tier_rank, reasoning_rank, advanced}
use agent_gear.Models.Tasks.{ComplexityAssessment, RiskAssessment, Factors, get_factor}
use agent_gear.Routing.{
  is_signalled, is_high_risk, tier_of_score, effort_of_score, cleared_tier, combined_tier_score,
  reasoning_score, signal_at, critical_signal_reasons, route,
}
use agent_gear.Routing.Floors.{rank_if, route-ranks}

-- A threshold that the lower score reaches is reached by the higher.
reached : (t a b : Ratio) → a ≼ b → t ≤? a ≡ true → t ≤? b ≡ true
reached t a b h e = le→leb _ _ (≼_trans t a b (leb→le _ _ e) h)

cleared_tier_mono :
    (a b s t u : Ratio)
    → a ≼ b
    → tier_rank (cleared_tier a s t u) ≤ tier_rank (cleared_tier b s t u)
unfolding cleared_tier tier_rank
cleared_tier_mono a b s t u h = ground (arith, reached s a b h, reached t a b h, reached u a b h)

-- Three signals, none of them higher on the left.
abbrev pub SignalsWithin : RiskAssessment → RiskAssessment → Type 0
SignalsWithin r s =
    (get_factor "security_impact" r.factors ≼ get_factor "security_impact" s.factors)
    × (get_factor "data_impact" r.factors ≼ get_factor "data_impact" s.factors)
    × (get_factor "irreversibility" r.factors ≼ get_factor "irreversibility" s.factors)

signal_at_mono :
    (name : String) (t : ℕ) (f g : Factors)
    → get_factor name f ≼ get_factor name g
    → is_empty (signal_at name t g) ≡ true
    → is_empty (signal_at name t f) ≡ true
unfolding signal_at
signal_at_mono name t f g h e =
    ground (arith, reached (millionths t) (get_factor name f) (get_factor name g) h)

is_empty-append : (xs ys : List String) → is_empty (xs ++ ys) ≡ (is_empty xs && is_empty ys)
is_empty-append [] ys = refl
is_empty-append (x ∷ xs) ys = refl

pub no_reasons :
    (risk : RiskAssessment) (policy : Policy)
    → is_empty (critical_signal_reasons risk policy)
      ≡ is_empty (signal_at "security_impact" policy.critical_risk.security_impact_at risk.factors)
        && is_empty (signal_at "data_impact" policy.critical_risk.data_impact_at risk.factors)
        && is_empty
            (signal_at "irreversibility" policy.critical_risk.irreversibility_at risk.factors)
unfolding critical_signal_reasons
no_reasons risk policy = rw (is_empty-append, is_empty-append) refl

signalled_mono :
    (r s : RiskAssessment) (policy : Policy)
    → SignalsWithin r s
    → is_signalled r policy ≡ true
    → is_signalled s policy ≡ true
signalled_mono r s policy (h, k, l) =
    let cr = policy.critical_risk in
    ground (
      arith,
      no_reasons r policy,
      no_reasons s policy,
      signal_at_mono "security_impact" cr.security_impact_at r.factors s.factors h,
      signal_at_mono "data_impact" cr.data_impact_at r.factors s.factors k,
      signal_at_mono "irreversibility" cr.irreversibility_at r.factors s.factors l,
    )

-- A blend of two scores, and its clip, grow with both.
blend_mono :
    (v w a b c d : Ratio)
    → a ≼ b
    → c ≼ d
    → at_most_one (v ⊛ a ⊕ w ⊛ c) ≼ at_most_one (v ⊛ b ⊕ w ⊛ d)
blend_mono v w a b c d h k =
    at_most_one_mono _ _ (⊕_mono (v ⊛ a) (v ⊛ b) (w ⊛ c) (w ⊛ d) (⊛_mono v a b h) (⊛_mono w c d k))

module _ (c d : ComplexityAssessment) (r s : RiskAssessment) (policy : Policy)
    (harder : c.score ≼ d.score) (riskier : r.score ≼ s.score) where
  tier_of_score_mono : tier_rank (tier_of_score c r policy) ≤ tier_rank (tier_of_score d s policy)
  unfolding tier_of_score combined_tier_score
  tier_of_score_mono = cleared_tier_mono _ _ _ _ _ (
      blend_mono (millionths 500000) (millionths 500000) c.score d.score r.score s.score harder
        riskier)

  reached_effort :
      (t : ℕ)
      → millionths t ≤? reasoning_score c r ≡ true
      → millionths t ≤? reasoning_score d s ≡ true
  unfolding reasoning_score
  reached_effort t = reached (millionths t) _ _ (
      blend_mono (millionths 350000) (millionths 650000) c.score d.score r.score s.score harder
        riskier)

  effort_of_score_mono :
      reasoning_rank (effort_of_score c r policy) ≤ reasoning_rank (effort_of_score d s policy)
  unfolding effort_of_score reasoning_rank
  effort_of_score_mono =
      let rt = policy.reasoning_thresholds in
      ground (
        arith,
        reached_effort rt.max_at,
        reached_effort rt.xhigh_at,
        reached_effort rt.high_at,
        reached_effort rt.medium_at,
        reached_effort rt.low_at,
      )

rank_if_mono : (b c : Bool) (n : ℕ) → (b ≡ true → c ≡ true) → rank_if b n ≤ rank_if c n
rank_if_mono b c n h = ground arith

-- With the same policy, a task whose complexity and risk scores are no lower, and whose three critical
-- signals are no lower, is routed to a tier and to a reasoning effort that are no lower.
pub route_mono :
    (c d : ComplexityAssessment) (r s : RiskAssessment) (policy : Policy)
    → c.score ≼ d.score
    → r.score ≼ s.score
    → SignalsWithin r s
    → (tier_rank (route c r policy).tier ≤ tier_rank (route d s policy).tier)
      × (reasoning_rank (route c r policy).reasoning ≤ reasoning_rank (route d s policy).reasoning)
route_mono c d r s policy harder riskier signals =
    let (tier, effort) = route-ranks c r policy in
    let (tier', effort') = route-ranks d s policy in
    let cr = policy.critical_risk in
    let high =
      rank_if_mono (is_high_risk r) (is_high_risk s) (tier_rank advanced)
        (reached _ r.score s.score riskier) in
    let t =
      rank_if_mono (is_signalled r policy) (is_signalled s policy) (tier_rank cr.min_tier)
        (signalled_mono r s policy signals) in
    let e =
      rank_if_mono (is_signalled r policy) (is_signalled s policy) (reasoning_rank cr.min_reasoning)
        (signalled_mono r s policy signals) in
    let base = tier_of_score_mono c d r s policy harder riskier in
    let base' = effort_of_score_mono c d r s policy harder riskier in (omega arith, omega arith)
