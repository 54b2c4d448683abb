-- ===== src/Analysis/Scores.antt =====
-- The assessments of a task that its constructor accepted.
use mathlib.Core.Path.{subst}
use agent_gear.Common.{
  ℕ, ◌≤◌, ◌≡◌, refl, String, false, [], ◌∷◌, All, pos, negsuc, is_blank, le→leb, arith,
  if◌then◌else◌, ◌+◌, ◌⊎◌, inl, inr, true, Bool-cases,
}
use agent_gear.Errors.{Error, ok, task_profile}
use agent_gear.Errors.Checks.{raise_if, ok_injective, Yields, Yields-bind}
use agent_gear.Floats.{
  Float, nan, inf, neg_inf, finite, one, require_unit_interval, require_non_negative_int,
}
use agent_gear.Ratios.{Ratio, millionths, count_of, ◌≼◌, ◌⊖◌, at_most_one, at_most_one-le}
use agent_gear.Models.Tasks.{
  TaskProfile, TaskSignals, make_task_profile, Factors, get_factor, validate_factors,
  validate_unit_interval, ComplexityAssessment, make_complexity_assessment, RiskAssessment,
  make_risk_assessment, RiskLevel, exactly,
}
use agent_gear.Analysis.{
  saturating, complexity_factors, risk_factors, complexity_weights, risk_weights, weighted_sum,
  candidates, assess_complexity, assess_risk, has_critical_signal, complexity_level, risk_level,
}

-- A name that is not blank, with a value of at most one.
abbrev pub IsFactor : String × Ratio → Type 0
IsFactor (name, v) = (is_blank name ≡ false) × (v ≼ count_of 1)

unit_accepted : (r : Ratio) → r ≼ count_of 1 → validate_unit_interval (exactly r) ≡ ok r
unfolding validate_unit_interval
unit_accepted r h = rw (le→leb _ _ h) refl

factors_accepted : (fs : Factors) → All IsFactor fs → validate_factors (candidates fs) ≡ ok fs
unfolding validate_factors candidates
factors_accepted [] h = refl
factors_accepted ((name, v) ∷ fs) ((filled, unit), h) =
    rw (filled, unit_accepted v unit, factors_accepted fs h) refl

saturating-le : (count k : ℕ) → saturating count k ≼ count_of 1
unfolding saturating
saturating-le count k = omega arith

complement-le : (n : ℕ) → (count_of 1 ⊖ millionths n) ≼ count_of 1
unfolding ◌⊖◌
complement-le n = omega arith

-- The seven signals are at most one.
abbrev pub InRange : TaskProfile → Type 0
InRange p =
    (p.architectural_impact ≤ one)
    × (p.security_impact ≤ one)
    × (p.data_impact ≤ one)
    × (p.ambiguity ≤ one)
    × (p.novelty ≤ one)
    × (p.reversibility ≤ one)
    × (p.existing_test_coverage ≤ one)

require_unit-le : (e : Error) (f : Float) (n : ℕ) → require_unit_interval e f ≡ ok n → n ≤ one
unfolding require_unit_interval
require_unit-le e nan n h = cc
require_unit-le e inf n h = cc
require_unit-le e neg_inf n h = cc
require_unit-le e (finite (negsuc m)) n h = cc
require_unit-le e (finite (pos m)) n h = ground arith

pub make_task_profile-InRange : (signals : TaskSignals) → Yields InRange (make_task_profile signals)
unfolding make_task_profile
make_task_profile-InRange signals =
    let unit = require_unit-le task_profile in
    Yields-bind InRange (raise_if (is_blank signals.description) task_profile) _ λ _ _.
      Yields-bind InRange (require_non_negative_int task_profile signals.files_affected) _ λ _ _.
        Yields-bind InRange (require_non_negative_int task_profile signals.modules_affected) _
          λ _ _.
            Yields-bind InRange (require_unit_interval task_profile signals.architectural_impact) _
              λ _ a.
                Yields-bind InRange (require_unit_interval task_profile signals.security_impact) _
                  λ _ s.
                    Yields-bind InRange (require_unit_interval task_profile signals.data_impact) _
                      λ _ d.
                        Yields-bind InRange (require_unit_interval task_profile signals.ambiguity) _
                          λ _ m.
                            Yields-bind InRange (require_unit_interval task_profile signals.novelty)
                              _
                              λ _ n.
                                Yields-bind InRange
                                  (require_unit_interval task_profile signals.reversibility) _
                                  λ _ r.
                                    Yields-bind InRange
                                      (require_unit_interval task_profile
                                        signals.existing_test_coverage)
                                      _
                                      λ _ c.
                                        Yields-bind InRange
                                          (require_non_negative_int task_profile
                                            signals.prior_failures)
                                          _
                                          λ _ _.
                                            Yields-bind InRange
                                              (require_non_negative_int task_profile
                                                signals.expected_output_tokens)
                                              _
                                              λ _ _. λ q e. subst InRange (ok_injective _ q e) (
                                                unit signals.architectural_impact _ a,
                                                unit signals.security_impact _ s,
                                                unit signals.data_impact _ d,
                                                unit signals.ambiguity _ m,
                                                unit signals.novelty _ n,
                                                unit signals.reversibility _ r,
                                                unit signals.existing_test_coverage _ c,
                                              )

complexity_factors-IsFactor : (p : TaskProfile) → InRange p → All IsFactor (complexity_factors p)
unfolding complexity_factors is_blank
complexity_factors-IsFactor p (architecture, security, data_change, ambiguity, novelty, _, _) = (
  (refl, saturating-le p.files_affected 12),
  (
    (refl, saturating-le p.modules_affected 5),
    (
      (refl, omega arith),
      (
        (refl, omega arith),
        ((refl, omega arith), ((refl, complement-le p.existing_test_coverage), tt)),
      ),
    ),
  ),
)

risk_factors-IsFactor : (p : TaskProfile) → InRange p → All IsFactor (risk_factors p)
unfolding risk_factors is_blank
risk_factors-IsFactor p (architecture, security, data_change, _, _, _, _) = (
  (refl, omega arith),
  (
    (refl, omega arith),
    (
      (refl, complement-le p.reversibility),
      ((refl, omega arith), ((refl, saturating-le p.prior_failures 3), tt)),
    ),
  ),
)

-- What the analysis of a profile gives, where it does not raise.
abbrev pub complexity_of : TaskProfile → ComplexityAssessment
complexity_of p =
    let score = at_most_one (weighted_sum (complexity_factors p) complexity_weights) in
    record { score = score; level = complexity_level score; factors = complexity_factors p }

abbrev pub risk_of : TaskProfile → RiskAssessment
risk_of p =
    let score = at_most_one (weighted_sum (risk_factors p) risk_weights) in
    record {
      score = score;
      level = if has_critical_signal (risk_factors p) then RiskLevel.critical else risk_level score;
      factors = risk_factors p;
    }

pub assess_complexity-total :
    (p : TaskProfile) → InRange p → assess_complexity p ≡ ok (complexity_of p)
unfolding assess_complexity make_complexity_assessment
assess_complexity-total p h =
    rw
      (
        unit_accepted _ (at_most_one-le (weighted_sum (complexity_factors p) complexity_weights)),
        factors_accepted (complexity_factors p) (complexity_factors-IsFactor p h),
      )
      refl

pub assess_risk-total : (p : TaskProfile) → InRange p → assess_risk p ≡ ok (risk_of p)
unfolding assess_risk make_risk_assessment
assess_risk-total p h =
    rw
      (
        unit_accepted _ (at_most_one-le (weighted_sum (risk_factors p) risk_weights)),
        factors_accepted (risk_factors p) (risk_factors-IsFactor p h),
      )
      refl

-- A signal of a task that makes its risk critical by itself: it reaches 0.85.
abbrev pub IsAlarming : TaskProfile → Type 0
IsAlarming p =
    (850000 ≤ p.security_impact) ⊎ ((850000 ≤ p.data_impact) ⊎ (p.reversibility + 850000 ≤ one))

alarmed : (p : TaskProfile) → has_critical_signal (risk_factors p) ≡ true → IsAlarming p
unfolding has_critical_signal risk_factors get_factor ◌⊖◌
alarmed p h = ground arith

calm : (p : TaskProfile) → has_critical_signal (risk_factors p) ≡ false → ¬ IsAlarming p
unfolding has_critical_signal risk_factors get_factor ◌⊖◌
calm p h alarming = ground arith

-- The level of risk that an alarming task has, and one that is not.
abbrev pub IsLevelled : TaskProfile → RiskAssessment → Type 0
IsLevelled p r =
    (IsAlarming p × (r.level ≡ RiskLevel.critical))
    ⊎ ((¬ IsAlarming p) × (r.level ≡ risk_level r.score))

risk_of-IsLevelled : (p : TaskProfile) → IsLevelled p (risk_of p)
risk_of-IsLevelled p = elim (Bool-cases (has_critical_signal (risk_factors p))) [
  | inl e ↦ inl (alarmed p e, rw e refl)
  | inr e ↦ inr (calm p e, rw e refl)
]

-- The analysis of a task that the constructor accepted raises nothing: the two scores and every factor
-- are numbers from zero to one. The level of risk is CRITICAL, whatever the score, where the security
-- impact of the task, its data impact or its irreversibility, which is one less its reversibility, is at
-- least 0.85; where none of them is, it is the level of the score.
pub assess-InUnit :
    (signals : TaskSignals) (p : TaskProfile)
    → make_task_profile signals ≡ ok p
    → (c : ComplexityAssessment) × (r : RiskAssessment) × (assess_complexity p ≡ ok c)
      × (assess_risk p ≡ ok r)
      × (c.score ≼ count_of 1)
      × (r.score ≼ count_of 1)
      × All IsFactor c.factors
      × All IsFactor r.factors
      × IsLevelled p r
assess-InUnit signals p h =
    let range = make_task_profile-InRange signals p h in
    (
      complexity_of p,
      risk_of p,
      assess_complexity-total p range,
      assess_risk-total p range,
      at_most_one-le (weighted_sum (complexity_factors p) complexity_weights),
      at_most_one-le (weighted_sum (risk_factors p) risk_weights),
      complexity_factors-IsFactor p range,
      risk_factors-IsFactor p range,
      risk_of-IsLevelled p,
    )
