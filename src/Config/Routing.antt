-- ===== src/Config/Routing.antt =====
-- config.py: the parts of `Policy` that routing and planning read, with the checks of their
-- `__post_init__`. A weight or a threshold is a number of millionths.
use agent_gear.Common.{
  ℕ, zero, suc, ◌+◌, ◌<◌, String, Bool, true, false, not, ◌&&◌, Option, none, some, List, [], ◌∷◌,
  leb, contains, is_blank, str_eq, all, arith, if◌then◌else◌,
}
use agent_gear.Errors.{Result, ok, err, configuration}
use agent_gear.Errors.Checks.{◌>>=◌, ◌>>◌, raise_if}
use agent_gear.Floats.{Float, require_non_negative_float, require_unit_interval}
use agent_gear.Ratios.{Ratio, fraction}
use agent_gear.Models.{ModelTier, ReasoningEffort, fast, standard, advanced, frontier}

pub record RoutingWeights : Type 0 where
  pub cost_weight : ℕ
  pub quality_weight : ℕ
  pub latency_weight : ℕ
  pub positive : 0 < cost_weight + quality_weight + latency_weight

unfoldable pub weights_of : ℕ → ℕ → ℕ → Result RoutingWeights
weights_of zero zero zero = err configuration
weights_of (suc c) q l =
    ok (record {
      cost_weight = suc c;
      quality_weight = q;
      latency_weight = l;
      positive = omega arith;
    })
weights_of zero (suc q) l =
    ok (record {
      cost_weight = 0;
      quality_weight = suc q;
      latency_weight = l;
      positive = omega arith;
    })
weights_of zero zero (suc l) =
    ok (record {
      cost_weight = 0;
      quality_weight = 0;
      latency_weight = suc l;
      positive = omega arith;
    })

unfoldable pub make_routing_weights : Float → Float → Float → Result RoutingWeights
unfolding require_non_negative_float weights_of
make_routing_weights cost quality latency = do
  cw ← require_non_negative_float configuration cost
  qw ← require_non_negative_float configuration quality
  lw ← require_non_negative_float configuration latency
  weights_of cw qw lw

-- Cost, quality and latency as parts of their sum.
unfoldable pub normalized : RoutingWeights → Ratio × Ratio × Ratio
normalized w =
    let total = w.cost_weight + w.quality_weight + w.latency_weight in
    (
      fraction w.cost_weight total w.positive,
      fraction w.quality_weight total w.positive,
      fraction w.latency_weight total w.positive,
    )

pub record RoutingThresholds : Type 0 where
  pub standard_at : ℕ
  pub advanced_at : ℕ
  pub frontier_at : ℕ

unfoldable pub make_routing_thresholds : Float → Float → Float → Result RoutingThresholds
unfolding require_unit_interval
make_routing_thresholds standard_at advanced_at frontier_at = do
  s ← require_unit_interval configuration standard_at
  a ← require_unit_interval configuration advanced_at
  f ← require_unit_interval configuration frontier_at
  raise_if (not (leb s a && leb a f)) configuration
  ok (record { standard_at = s; advanced_at = a; frontier_at = f })

pub record ReasoningThresholds : Type 0 where
  pub low_at : ℕ
  pub medium_at : ℕ
  pub high_at : ℕ
  pub xhigh_at : ℕ
  pub max_at : ℕ

unfoldable pub make_reasoning_thresholds :
    Float → Float → Float → Float → Float → Result ReasoningThresholds
unfolding require_unit_interval
make_reasoning_thresholds low_at medium_at high_at xhigh_at max_at = do
  l ← require_unit_interval configuration low_at
  m ← require_unit_interval configuration medium_at
  h ← require_unit_interval configuration high_at
  x ← require_unit_interval configuration xhigh_at
  top ← require_unit_interval configuration max_at
  raise_if (not (leb l m && leb m h && leb h x && leb x top)) configuration
  ok (record { low_at = l; medium_at = m; high_at = h; xhigh_at = x; max_at = top })

-- `ModelTier.value`
unfoldable pub tier_value : ModelTier → String
tier_value fast = "fast"
tier_value standard = "standard"
tier_value advanced = "advanced"
tier_value frontier = "frontier"

-- `_VALID_TIERS`
unfoldable pub valid_tiers : List String
valid_tiers = "fast" ∷ "standard" ∷ "advanced" ∷ "frontier" ∷ []

pub record ModelTierMapping : Type 0 where
  pub mapping : List (String × String)

-- `mapping.get(key)`
unfoldable pub model_for : String → List (String × String) → Option String
model_for key [] = none
model_for key ((name, model) ∷ rest) = if str_eq name key then some model else model_for key rest

abbrev pub has_model : List (String × String) → String → Bool
has_model mapping name = elim (model_for name mapping) [ none ↦ false | some m ↦ true ]

-- A known tier and a name that is not blank.
unfoldable pub is_valid_entry : String × String → Bool
unfolding valid_tiers contains is_blank
is_valid_entry (name, model) = contains name valid_tiers && not (is_blank model)

unfoldable pub make_model_tier_mapping : List (String × String) → Result ModelTierMapping
unfolding model_for is_valid_entry valid_tiers all
make_model_tier_mapping mapping = do
  raise_if (not (all (has_model mapping) valid_tiers)) configuration
  raise_if (not (all is_valid_entry mapping)) configuration
  ok (record { mapping = mapping })

-- A missing tier, which raises KeyError, is `none`.
unfoldable pub resolve : ModelTierMapping → ModelTier → Option String
unfolding tier_value model_for
resolve m tier = model_for (tier_value tier) m.mapping

pub record CriticalRiskPolicy : Type 0 where
  pub security_impact_at : ℕ
  pub data_impact_at : ℕ
  pub irreversibility_at : ℕ
  pub min_tier : ModelTier
  pub min_reasoning : ReasoningEffort
  pub require_review : Bool

-- The tier and the effort are members of their enums here.
unfoldable pub make_critical_risk_policy :
    Float → Float → Float → ModelTier → ReasoningEffort → Bool → Result CriticalRiskPolicy
unfolding require_unit_interval
make_critical_risk_policy security data_impact irreversibility tier reasoning review = do
  s ← require_unit_interval configuration security
  d ← require_unit_interval configuration data_impact
  i ← require_unit_interval configuration irreversibility
  ok (record {
    security_impact_at = s;
    data_impact_at = d;
    irreversibility_at = i;
    min_tier = tier;
    min_reasoning = reasoning;
    require_review = review;
  })
