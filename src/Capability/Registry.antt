-- ===== src/Capability/Registry.antt =====
-- services/capability_registry/src/forgeai_capability_registry/registry.py. An implementation class
-- is a number.
use forge_ai_autonomous_soft.Common.{
  ℕ, List, [], ◌∷◌, map, Text, text_eq, text_leb, codes, pair_eq, Dict, lookup, has_key, keys,
  select, sort, dedup, ◌==◌, Bool,
}
use forge_ai_autonomous_soft.Common.Outcome.{Outcome, returned, raised, ◌>>=◌}
use forge_ai_autonomous_soft.Common.Catalog.{add_new, or_missing}
use forge_ai_autonomous_soft.Engine.Version.{Unicode}
use forge_ai_autonomous_soft.Engine.Version.Latest.{latest_from, sorted_versions}
use forge_ai_autonomous_soft.Capability.Errors.{
  CapabilityError, capability_already_registered, capability_not_found, version_checked,
}
use forge_ai_autonomous_soft.Capability.Definition.{CapabilityDefinition}

abbrev pub CapabilityRegistry : Type 0
CapabilityRegistry = Dict (Text × Text) (CapabilityDefinition × ℕ)

unfoldable pub register_capability :
    CapabilityDefinition → ℕ → CapabilityRegistry → Outcome CapabilityError CapabilityRegistry
register_capability definition implementation entries =
    add_new (capability_already_registered definition.id definition.version)
      (definition.id, definition.version) (definition, implementation) entries

-- `_get`
unfoldable pub get_entry :
    Text → Text → CapabilityRegistry → Outcome CapabilityError (CapabilityDefinition × ℕ)
get_entry capability_id version entries =
    or_missing (capability_not_found capability_id version)
      (lookup (capability_id, version) entries)

unfoldable pub get_definition :
    Text → Text → CapabilityRegistry → Outcome CapabilityError CapabilityDefinition
unfolding get_entry
get_definition capability_id version entries = do
  entry ← get_entry capability_id version entries
  returned entry.0

unfoldable pub get_implementation : Text → Text → CapabilityRegistry → Outcome CapabilityError ℕ
unfolding get_entry
get_implementation capability_id version entries = do
  entry ← get_entry capability_id version entries
  returned entry.1

unfoldable pub is_registered_capability : Text → Text → CapabilityRegistry → Bool
is_registered_capability capability_id version entries = has_key (capability_id, version) entries

unfoldable pub list_ids : CapabilityRegistry → List Text
list_ids entries = sort text_leb (dedup (map (λ (k : Text × Text). k.0) (keys entries)))

abbrev capability_candidates : Text → CapabilityRegistry → List CapabilityDefinition
capability_candidates capability_id entries =
    map (λ (e : (Text × Text) × (CapabilityDefinition × ℕ)). e.1.0)
      (select (λ (e : (Text × Text) × (CapabilityDefinition × ℕ)). e.0.0 == capability_id) entries)

module _ (unicode : Unicode) where
  abbrev latest_capability :
      Text → List CapabilityDefinition → Outcome CapabilityError CapabilityDefinition
  latest_capability capability_id [] = raised (capability_not_found capability_id (codes "latest"))
  latest_capability capability_id (d ∷ rest) =
      version_checked (latest_from unicode (λ (x : CapabilityDefinition). x.version) d rest)

  unfoldable pub get_latest_definition :
      Text → CapabilityRegistry → Outcome CapabilityError CapabilityDefinition
  unfolding latest_from
  get_latest_definition capability_id entries =
      latest_capability capability_id (capability_candidates capability_id entries)

  unfoldable pub list_capability_versions :
      Text → CapabilityRegistry → Outcome CapabilityError (List Text)
  unfolding sorted_versions
  list_capability_versions capability_id entries = version_checked (
      sorted_versions unicode (
        map (λ (k : Text × Text). k.1)
          (select (λ (k : Text × Text). k.0 == capability_id) (keys entries))))
