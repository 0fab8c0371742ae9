-- ===== src/Engine/Registry.antt =====
-- services/workflow_engine/src/forgeai_workflow_engine/registry.py: the in-memory catalog of the
-- definitions, whose `_definitions` dict is the state.
pub mod Catalog
use forge_ai_autonomous_soft.Common.{
  ℕ, Bool, true, false, Option, none, some, List, [], ◌∷◌, ◌++◌, map, Text, text_eq, text_leb,
  if◌then◌else◌, ◌==◌, pair_eq, Dict, lookup, insert, has_key, keys, select, sort, dedup, codes,
}
use forge_ai_autonomous_soft.Engine.Errors.{
  Result, ok, err, definition_already_registered, definition_not_found, ◌>>=◌, ◌>>◌,
}
use forge_ai_autonomous_soft.Engine.Version.{Unicode, Triple, triple_leb, parse_version}
use forge_ai_autonomous_soft.Engine.Version.Latest.{latest_from, sorted_versions}
use forge_ai_autonomous_soft.Engine.Definition.{WorkflowDefinition}

abbrev pub Registry : Type 0
Registry = Dict (Text × Text) WorkflowDefinition

unfoldable pub register : WorkflowDefinition → Registry → Result Registry
register d definitions =
    if has_key (d.key, d.version) definitions
    then err (definition_already_registered d.key d.version)
    else ok (insert (d.key, d.version) d definitions)

abbrev pub found_or : Text → Text → Option WorkflowDefinition → Result WorkflowDefinition
found_or key version none = err (definition_not_found key version)
found_or key version (some d) = ok d

unfoldable pub get : Text → Text → Registry → Result WorkflowDefinition
get key version definitions = found_or key version (lookup (key, version) definitions)

unfoldable pub is_registered : Text → Text → Registry → Bool
is_registered key version definitions = has_key (key, version) definitions

-- `sorted({key for key, _version in self._definitions})`
unfoldable pub list_keys : Registry → List Text
list_keys definitions = sort text_leb (dedup (map (λ (k : Text × Text). k.0) (keys definitions)))

-- `candidates`
abbrev pub candidates : Text → Registry → List WorkflowDefinition
candidates key definitions =
    map (λ (entry : (Text × Text) × WorkflowDefinition). entry.1)
      (select (λ (entry : (Text × Text) × WorkflowDefinition). entry.0.0 == key) definitions)

abbrev pub version_of : WorkflowDefinition → Text
version_of d = d.version

module _ (unicode : Unicode) where
  unfoldable pub latest : Text → List WorkflowDefinition → Result WorkflowDefinition
  unfolding latest_from
  latest key [] = err (definition_not_found key (codes "latest"))
  latest key (d ∷ rest) = latest_from unicode version_of d rest

  unfoldable pub get_latest : Text → Registry → Result WorkflowDefinition
  unfolding latest
  get_latest key definitions = latest key (candidates key definitions)

  unfoldable pub list_versions : Text → Registry → Result (List Text)
  unfolding sorted_versions
  list_versions key definitions =
      sorted_versions unicode (
        map (λ (k : Text × Text). k.1)
          (select (λ (k : Text × Text). k.0 == key) (keys definitions)))
