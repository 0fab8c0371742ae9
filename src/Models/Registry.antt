-- ===== src/Models/Registry.antt =====
-- services/model_router/src/forgeai_model_router/registry.py.
use forge_ai_autonomous_soft.Common.{
  Bool, false, ◌&&◌, ◌==◌, List, map, select, Text, text_eq, Dict, lookup, insert,
}
use forge_ai_autonomous_soft.Common.Outcome.{Outcome, returned, ◌>>=◌}
use forge_ai_autonomous_soft.Common.Catalog.{add_new, or_missing}
use forge_ai_autonomous_soft.Models.Profile.{
  ModelProfile, ModelTier, tier_eq, ModelRouterError, model_not_found, model_already_registered,
}

abbrev pub ModelRegistry : Type 0
ModelRegistry = Dict Text ModelProfile

unfoldable pub register_profile :
    ModelProfile → ModelRegistry → Outcome ModelRouterError ModelRegistry
register_profile profile profiles =
    add_new (model_already_registered profile.key) profile.key profile profiles

unfoldable pub get_profile : Text → ModelRegistry → Outcome ModelRouterError ModelProfile
get_profile key profiles = or_missing (model_not_found key) (lookup key profiles)

abbrev is_candidate : ModelTier → ModelProfile → Bool
is_candidate tier p = p.tier == tier && p.is_active

unfoldable pub list_by_tier : ModelTier → ModelRegistry → List ModelProfile
list_by_tier tier profiles =
    select (is_candidate tier) (map (λ (e : Text × ModelProfile). e.1) profiles)

unfoldable pub deactivate : Text → ModelRegistry → Outcome ModelRouterError ModelRegistry
unfolding get_profile
deactivate key profiles = do
  profile ← get_profile key profiles
  returned (insert key (record profile { is_active = false }) profiles)
