-- ===== src/Engine/Definition.antt =====
-- services/workflow_engine/src/forgeai_workflow_engine/definition.py and loader.py. The raw data of
-- a definition is the record of its fields; pydantic's part (types, defaults, JSON) is not
-- modelled, its declared field constraints and the validators are.
pub mod Wrapped
pub mod Valid
use forge_ai_autonomous_soft.Common.{
  ℕ, suc, Bool, true, false, not, ◌&&◌, ◌||◌, Option, none, some, List, [], ◌∷◌, map, Text, text_eq,
  ltb, if◌then◌else◌, elem, all, length, Dict, insert, ◌==◌, find, codes,
}
use forge_ai_autonomous_soft.Core.{RetryPolicy, TimeoutPolicy, Float}
use forge_ai_autonomous_soft.Engine.Errors.{
  Result, ok, err, EngineError, unknown_stage_dependency, value_error, key_error,
  definition_validation, is_value_error, ◌>>=◌, ◌>>◌, require,
}
use forge_ai_autonomous_soft.Engine.Graph.{Dependencies, topological_levels}
use forge_ai_autonomous_soft.Engine.Version.{Unicode, parse_version}

pub record StageDefinition : Type 0 where
  pub id : Text
  pub name : Text
  pub description : Text
  pub inputs : List Text
  pub outputs : List Text
  pub depends_on : List Text
  pub estimated_seconds : Option ℕ
  pub capability : Option Text
  pub retry_policy : RetryPolicy
  pub timeout : TimeoutPolicy
  pub requires_approval : Bool
  pub allow_skip : Bool
  pub failure_handler : Option Text

pub record WorkflowDefinition : Type 0 where
  pub key : Text
  pub name : Text
  pub description : Text
  pub version : Text
  pub stages : List StageDefinition
  pub entry_conditions : List Text
  pub exit_conditions : List Text
  pub rollback_rules : List Text
  pub timeout : TimeoutPolicy
  pub retry_policy : RetryPolicy
  pub required_capabilities : List Text
  pub outputs : List Text
  pub artifacts : List Text

abbrev pub stage_ids : List StageDefinition → List Text
stage_ids stages = map (λ (stage : StageDefinition). stage.id) stages

-- `{stage.id: stage.depends_on for stage in self.stages}`: a later duplicate overwrites.
abbrev pub dependency_dict : List StageDefinition → Dependencies → Dependencies
dependency_dict [] d = d
dependency_dict (stage ∷ stages) d = dependency_dict stages (insert stage.id stage.depends_on d)

-- `_stage_ids_are_unique`, with the set of the ids seen so far.
unfoldable pub ids_are_unique : List Text → List StageDefinition → Result (Unit {0})
ids_are_unique seen [] = ok tt
ids_are_unique seen (stage ∷ stages) =
    let rest = ids_are_unique (stage.id ∷ seen) stages in
    if elem stage.id seen then err value_error else rest

-- The inner loop of `_dependencies_reference_real_stages`.
unfoldable pub references_exist : List Text → Text → List Text → Result (Unit {0})
references_exist known stage_id [] = ok tt
references_exist known stage_id (dependency ∷ rest) =
    if elem dependency known
    then references_exist known stage_id rest
    else err (unknown_stage_dependency stage_id dependency)

unfoldable pub handler_exists : List Text → StageDefinition → Result (Unit {0})
handler_exists known stage = elim stage.failure_handler [
  | none ↦ ok tt
  | some handler ↦
      if elem handler known then ok tt else err (unknown_stage_dependency stage.id handler)
]

unfoldable pub references_are_real : List Text → List StageDefinition → Result (Unit {0})
unfolding references_exist handler_exists
references_are_real known [] = ok tt
references_are_real known (stage ∷ stages) = do
  references_exist known stage.id stage.depends_on
  handler_exists known stage
  references_are_real known stages

-- `execution_levels`, which `_dependency_graph_has_no_cycles` also calls in substance.
unfoldable pub execution_levels : WorkflowDefinition → Result (List (List Text))
unfolding topological_levels
execution_levels d = topological_levels (stage_ids d.stages) (dependency_dict d.stages [])

-- `WorkflowDefinition.stage`
unfoldable pub stage : Text → WorkflowDefinition → Result StageDefinition
stage stage_id d = elim (find (λ (s : StageDefinition). s.id == stage_id) d.stages) [
  | none ↦ err key_error
  | some s ↦ ok s
]

-- The model validators, in the order of their declaration.
unfoldable pub validate_model : WorkflowDefinition → Result (Unit {0})
unfolding ids_are_unique references_are_real execution_levels
validate_model d = do
  ids_are_unique [] d.stages
  references_are_real (stage_ids d.stages) d.stages
  execution_levels d
  ok tt

-- `Field(min_length=1)`
abbrev non_empty : Text → Bool
non_empty [] = false
non_empty (c ∷ t) = true

-- `Field(gt=0)` of an optional int.
abbrev positive : Option ℕ → Bool
positive none = true
positive (some n) = ltb 0 n

-- `except ValidationError`
abbrev pub caught : {A : Type 0} → Result A → Result A
caught (ok v) = ok v
caught (err e) = if is_value_error e then err definition_validation else err e

-- `float_ok` tells whether the three floats of a policy are in their declared ranges.
module _ (unicode : Unicode) (float_ok : RetryPolicy → Bool) where
  unfoldable pub stage_fields_ok : StageDefinition → Bool
  stage_fields_ok s =
      non_empty s.id
      && non_empty s.name
      && positive s.estimated_seconds
      && positive s.timeout.seconds
      && float_ok s.retry_policy

  unfoldable pub fields_ok : WorkflowDefinition → Bool
  unfolding stage_fields_ok
  fields_ok d =
      non_empty d.key
      && non_empty d.name
      && ltb 0 (length d.stages)
      && all stage_fields_ok d.stages
      && positive d.timeout.seconds
      && float_ok d.retry_policy

  -- `WorkflowDefinition.model_validate`: the fields first, then the validators.
  unfoldable pub model_validate : WorkflowDefinition → Result WorkflowDefinition
  unfolding fields_ok validate_model parse_version
  model_validate d = do
    require (fields_ok d) value_error
    parse_version unicode d.version
    validate_model d
    ok d

  -- `DefinitionLoader.load_from_dict`: what pydantic wraps in its ValidationError becomes a
  -- DefinitionValidationError, any other exception of a validator escapes.
  unfoldable pub load_from_dict : WorkflowDefinition → Result WorkflowDefinition
  unfolding model_validate
  load_from_dict d = caught (model_validate d)

  -- `json.loads` is a parameter; `none` is its error.
  abbrev loaded : Option WorkflowDefinition → Result WorkflowDefinition
  loaded none = err definition_validation
  loaded (some d) = load_from_dict d

  -- `DefinitionLoader.load_from_json`
  unfoldable pub load_from_json :
      (Text → Option WorkflowDefinition) → (raw : Text) → Result WorkflowDefinition
  unfolding load_from_dict
  load_from_json json_loads raw = loaded (json_loads raw)
