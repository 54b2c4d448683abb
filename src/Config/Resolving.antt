-- ===== src/Config/Resolving.antt =====
-- What the check of `ModelTierMapping` gives `resolve`.
use agent_gear.Common.{
  String, Bool, true, false, not, some, List, [], ◌∷◌, ◌≡◌, ◌∙◌, ap, sym, all, is_blank, arith,
}
use agent_gear.Errors.{ok}
use agent_gear.Errors.Checks.{raise_if_ok, ok_injective}
use agent_gear.Models.{ModelTier, fast, standard, advanced, frontier}
use agent_gear.Config.Routing.{
  ModelTierMapping, make_model_tier_mapping, model_for, has_model, is_valid_entry, resolve,
  tier_value, valid_tiers,
}

not-false : (b : Bool) → not b ≡ false → b ≡ true
not-false b h = ground arith

has_model-some :
    (mapping : List (String × String)) (name : String)
    → has_model mapping name ≡ true
    → (model : String) × (model_for name mapping ≡ some model)
has_model-some mapping name h = ground arith

valid_model :
    (mapping : List (String × String)) (name model : String)
    → all is_valid_entry mapping ≡ true
    → model_for name mapping ≡ some model
    → is_blank model ≡ false
unfolding all model_for is_valid_entry
valid_model [] name model h e = cc
valid_model ((key, value) ∷ rest) name model h e = ground (arith, valid_model rest name model)

-- Every tier of the enum is among `valid_tiers`.
tier_present :
    (mapping : List (String × String)) (tier : ModelTier)
    → all (has_model mapping) valid_tiers ≡ true
    → has_model mapping (tier_value tier) ≡ true
unfolding all valid_tiers tier_value
tier_present mapping fast h = ground arith
tier_present mapping standard h = ground arith
tier_present mapping advanced h = ground arith
tier_present mapping frontier h = ground arith

accepted :
    (entries : List (String × String)) (m : ModelTierMapping)
    → make_model_tier_mapping entries ≡ ok m
    → (m.mapping ≡ entries)
      × (all (has_model entries) valid_tiers ≡ true)
      × (all is_valid_entry entries ≡ true)
unfolding make_model_tier_mapping
accepted entries m h =
    let (present, rest) = raise_if_ok _ _ _ _ h in
    let (valid, same) = raise_if_ok _ _ _ _ rest in
    (sym (ap (λ x. x.mapping) (ok_injective _ _ same)), not-false _ present, not-false _ valid)

-- Where the constructor of the mapping accepts a dictionary, every tier resolves to a model whose
-- name is not blank, so that no routing raises KeyError.
pub resolve-named :
    (entries : List (String × String)) (m : ModelTierMapping) (tier : ModelTier)
    → make_model_tier_mapping entries ≡ ok m
    → (model : String) × (resolve m tier ≡ some model) × (is_blank model ≡ false)
unfolding resolve
resolve-named entries m tier h =
    let (same, present, valid) = accepted entries m h in
    let (model, found) =
      has_model-some entries (tier_value tier) (tier_present entries tier present) in
    (
      model,
      ap (model_for (tier_value tier)) same ∙ found,
      valid_model entries (tier_value tier) model valid found,
    )
