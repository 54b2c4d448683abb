-- ===== src/Config/Tests.antt =====
-- The default mapping of tiers.
use agent_gear.Common.{String, ◌≡◌, refl, some, false, is_blank, contains, all}
use agent_gear.Models.{frontier}
use agent_gear.Config.{default_mapping}
use agent_gear.Config.Routing.{
  resolve, make_model_tier_mapping, model_for, is_valid_entry, valid_tiers,
}
use agent_gear.Config.Resolving.{resolve-named}

resolve-named_example :
    (model : String) × (resolve default_mapping frontier ≡ some model) × (is_blank model ≡ false)
unfolding make_model_tier_mapping model_for is_valid_entry valid_tiers all contains is_blank
resolve-named_example = resolve-named default_mapping.mapping default_mapping frontier refl
