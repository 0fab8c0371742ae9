-- ===== src/Engine/Graph.antt =====
-- services/workflow_engine/src/forgeai_workflow_engine/dependency_graph.py: Kahn's algorithm by
-- levels. A set is a list with no element twice.
pub mod Levels
pub mod Cycles
use forge_ai_autonomous_soft.Common.{
  ℕ, zero, suc, Bool, not, Option, none, some, List, [], ◌∷◌, ◌++◌, Text, text_eq, text_leb, Dict,
  lookup, elem, all, select, sort, dedup, length,
}
use forge_ai_autonomous_soft.Engine.Errors.{Result, ok, err, cyclic_dependency, out_of_fuel}

abbrev pub Dependencies : Type 0
Dependencies = Dict Text (List Text)

-- `depends_on.get(stage_id, [])`
unfoldable pub dependencies : Dependencies → Text → List Text
dependencies depends_on stage_id = elim (lookup stage_id depends_on) [
  | none ↦ []
  | some deps ↦ deps
]

-- `remaining.difference_update(found)`
abbrev pub without : List Text → List Text → List Text
without found remaining = select (λ stage_id. not (elem stage_id found)) remaining

module _ (depends_on : Dependencies) where
  unfoldable pub is_ready : List Text → Text → Bool
  unfolding dependencies
  is_ready resolved stage_id = all (λ dep. elem dep resolved) (dependencies depends_on stage_id)

  abbrev pub ready : List Text → List Text → List Text
  ready resolved remaining = sort text_leb (select (is_ready resolved) remaining)

  -- The `while` loop. Each round removes a stage, so `length remaining` rounds are enough.
  unfoldable pub rounds : ℕ → List Text → List Text → List (List Text) → Result (List (List Text))
  unfolding is_ready
  rounds fuel [] resolved levels = ok levels
  rounds zero (r ∷ rs) resolved levels = err out_of_fuel
  rounds (suc fuel) (r ∷ rs) resolved levels = elim (ready resolved (r ∷ rs)) [
    | [] ↦ err (cyclic_dependency (sort text_leb (r ∷ rs)))
    | found ∷ more ↦
        rounds fuel (without (found ∷ more) (r ∷ rs)) (resolved ++ found ∷ more)
          (levels ++ (found ∷ more) ∷ [])
  ]

unfoldable pub topological_levels : List Text → Dependencies → Result (List (List Text))
unfolding rounds
topological_levels stage_ids depends_on =
    let remaining = dedup stage_ids in rounds depends_on (length remaining) remaining [] []
