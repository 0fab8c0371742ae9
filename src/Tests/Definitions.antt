-- ===== src/Tests/Definitions.antt =====
-- Definitions, the catalog and the dependency graph, on the sample definition.
use forge_ai_autonomous_soft.Common.{
  none, ℕ, ◌<◌, ◌≡◌, ◌≢◌, inl, inr, refl, sym, subst, Bool-cases, true, List, [], ◌∷◌, ◌++◌, Text,
  text_eq, codes, elem, arith, if◌then◌else◌, ◌==◌,
}
use forge_ai_autonomous_soft.Common.{pair_eq}
use forge_ai_autonomous_soft.Common.Catalog.{first_registered}
use forge_ai_autonomous_soft.Core.{stage_status_eq}
use forge_ai_autonomous_soft.Engine.Errors.{
  EngineError, ok, err, out_of_fuel, definition_validation, definition_not_found,
  definition_already_registered,
}
use forge_ai_autonomous_soft.Engine.Definition.{WorkflowDefinition, load_from_dict}
use forge_ai_autonomous_soft.Engine.Definition.Valid.{IsSound, load_from_dict-IsSound}
use forge_ai_autonomous_soft.Engine.Registry.{
  Registry, register, get, get_latest, candidates, found_or, list_versions, is_registered,
}
use forge_ai_autonomous_soft.Engine.Registry.Catalog.{
  entry_key, register-get, get_latest-IsLatest, register_all, entries, get-register_all,
  list_versions-IsInOrder,
}
use forge_ai_autonomous_soft.Engine.Graph.{Dependencies, dependencies, topological_levels}
use forge_ai_autonomous_soft.Engine.Graph.Levels.{
  IsLayered, flatten, topological_levels-IsLayered, topological_levels-ne-out_of_fuel,
}
use forge_ai_autonomous_soft.Engine.Graph.Cycles.{IsRanked, topological_levels_of_ranked}
use forge_ai_autonomous_soft.Engine.Session.Rows.{Workflow}
use forge_ai_autonomous_soft.Engine.Registration.{register_version}
use forge_ai_autonomous_soft.Engine.Registration.Versions.{
  IsRegistered, register_version-IsRegistered,
}
use forge_ai_autonomous_soft.Engine.Registry.{version_of}
use forge_ai_autonomous_soft.Engine.Version.Latest.{IsLatest, IsInOrder}
use forge_ai_autonomous_soft.Tests.Samples.{
  sample_store, sample_unicode, sample_definition, newer_definition, plan_key, code_key,
}

load_from_dict-IsSound_example :
    ((d : WorkflowDefinition)
      → load_from_dict sample_unicode (λ policy. true) sample_definition ≡ ok d
      → (d ≡ sample_definition) × IsSound sample_unicode sample_definition)
    × ((e : EngineError)
        → load_from_dict sample_unicode (λ policy. true) sample_definition ≡ err e
        → e ≡ definition_validation)
load_from_dict-IsSound_example =
    load_from_dict-IsSound sample_unicode (λ policy. true) sample_definition

sample_loads :
    load_from_dict sample_unicode (λ policy. true) sample_definition ≡ ok sample_definition
unfolding load_from_dict
sample_loads = refl

abbrev one_definition : Registry
one_definition = (entry_key sample_definition, sample_definition) ∷ []

abbrev two_definitions : Registry
two_definitions = one_definition ++ (entry_key newer_definition, newer_definition) ∷ []

register-get_example :
    (get newer_definition.key newer_definition.version one_definition
      ≡ err (definition_not_found newer_definition.key newer_definition.version))
    × (get newer_definition.key newer_definition.version two_definitions ≡ ok newer_definition)
    × ((k : Text × Text)
        → k ≢ entry_key newer_definition
        → get k.0 k.1 two_definitions ≡ get k.0 k.1 one_definition)
    × ((e : WorkflowDefinition)
        → entry_key e ≡ entry_key newer_definition
        → register e two_definitions ≡ err (definition_already_registered e.key e.version))
unfolding register
register-get_example = register-get newer_definition one_definition two_definitions refl

abbrev sample_registry : Registry
sample_registry =
    (entry_key newer_definition, newer_definition)
    ∷ (entry_key sample_definition, sample_definition)
    ∷ []

get_latest-IsLatest_example :
    ((d : WorkflowDefinition)
      → get_latest sample_unicode (codes "feature") sample_registry ≡ ok d
      → IsLatest sample_unicode version_of (candidates (codes "feature") sample_registry) d)
    × (candidates (codes "feature") sample_registry ≡ []
        → get_latest sample_unicode (codes "feature") sample_registry
          ≡ err (definition_not_found (codes "feature") (codes "latest")))
get_latest-IsLatest_example = get_latest-IsLatest sample_unicode (codes "feature") sample_registry

list_versions-IsInOrder_example :
    IsInOrder sample_unicode (codes "1.0.2" ∷ codes "1.0.10" ∷ [])
    × ((version : Text)
        → elem version (codes "1.0.2" ∷ codes "1.0.10" ∷ [])
          ≡ is_registered (codes "feature") version sample_registry)
unfolding list_versions
list_versions-IsInOrder_example =
    list_versions-IsInOrder sample_unicode (codes "feature") sample_registry
      (codes "1.0.2" ∷ codes "1.0.10" ∷ []) refl

-- 1.0.10 is later than 1.0.2.
latest_of_two : get_latest sample_unicode (codes "feature") sample_registry ≡ ok newer_definition
unfolding get_latest
latest_of_two = refl

abbrev sample_graph : Dependencies
sample_graph = (plan_key, []) ∷ (code_key, plan_key ∷ []) ∷ []

abbrev sample_keys : List Text
sample_keys = code_key ∷ plan_key ∷ []

abbrev sample_levels : List (List Text)
sample_levels = (plan_key ∷ []) ∷ (code_key ∷ []) ∷ []

topological_levels-IsLayered_example :
    IsLayered sample_graph [] sample_levels
    × ((a : Text) → elem a (flatten sample_levels) ≡ elem a sample_keys)
unfolding topological_levels
topological_levels-IsLayered_example =
    topological_levels-IsLayered sample_keys sample_graph sample_levels refl

topological_levels-ne-out_of_fuel_example :
    topological_levels sample_keys sample_graph ≢ err out_of_fuel
topological_levels-ne-out_of_fuel_example =
    topological_levels-ne-out_of_fuel sample_keys sample_graph

abbrev sample_rank : Text → ℕ
sample_rank key = if key == code_key then 1 else 0

only : (a b : Text) → elem a (b ∷ []) ≡ true → a ≡ b
only a b h = (text_eq.beq_iff a b).0 (ground (arith, h))

-- The dependencies of the two stages.
edges :
    (a dep : Text)
    → elem a sample_keys ≡ true
    → elem dep (dependencies sample_graph a) ≡ true
    → (a ≡ code_key) × (dep ≡ plan_key)
unfolding dependencies
edges a dep m n = elim (Bool-cases (a == plan_key)) [
  | inl first ↦ absurd (
      cc (
        subst (λ x. elem dep (dependencies sample_graph x) ≡ true)
          ((text_eq.beq_iff a plan_key).0 first) n))
  | inr other ↦
      let same = only a code_key (ground (arith, other, m)) in
      (same, only dep plan_key (subst (λ x. elem dep (dependencies sample_graph x) ≡ true) same n))
]

sample-IsRanked : IsRanked sample_rank sample_keys sample_graph
sample-IsRanked = record {
  below = λ a dep m n.
      let (e, d) = edges a dep m n in
      subst (λ x. sample_rank dep < sample_rank x) (sym e)
        (subst (λ x. sample_rank x < sample_rank code_key) (sym d) (omega arith));
  known = λ a dep m n. subst (λ x. elem x sample_keys ≡ true) (sym (edges a dep m n).1) refl;
}

topological_levels_of_ranked_example :
    (levels : List (List Text)) × (topological_levels sample_keys sample_graph ≡ ok levels)
topological_levels_of_ranked_example =
    topological_levels_of_ranked sample_rank sample_keys sample_graph sample-IsRanked

abbrev sample_workflow : Workflow
sample_workflow = record {
  id = 1;
  key = codes "feature";
  name = codes "Feature";
  created_by = none;
}

register_version-IsRegistered_example :
    IsRegistered sample_workflow newer_definition sample_store
      (register_version sample_workflow newer_definition sample_store).1
      100
unfolding register_version
register_version-IsRegistered_example =
    register_version-IsRegistered sample_workflow newer_definition sample_store 100 refl

get-register_all_example :
    get newer_definition.key newer_definition.version
      (register_all (sample_definition ∷ newer_definition ∷ sample_definition ∷ []) [])
    ≡ found_or newer_definition.key newer_definition.version (
        first_registered
          (newer_definition.key, newer_definition.version)
          (entries (sample_definition ∷ newer_definition ∷ sample_definition ∷ [])))
get-register_all_example =
    get-register_all (sample_definition ∷ newer_definition ∷ sample_definition ∷ [])
      newer_definition.key newer_definition.version
