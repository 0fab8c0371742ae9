-- ===== src/Engine/Registration.antt =====
-- services/workflow_engine/src/forgeai_workflow_engine/registration.py. The race of two sessions
-- that insert the same version at once is not modelled.
pub mod Versions
use forge_ai_autonomous_soft.Common.{
  ℕ, ◌+◌, Bool, true, false, ◌&&◌, Option, none, some, List, [], ◌∷◌, ◌++◌, Text, text_eq, eqb,
  find, ◌==◌, if◌then◌else◌,
}
use forge_ai_autonomous_soft.Engine.Errors.{definition_already_registered}
use forge_ai_autonomous_soft.Engine.Definition.{WorkflowDefinition, StageDefinition}
use forge_ai_autonomous_soft.Engine.Session.Rows.{Workflow, WorkflowVersion, WorkflowStage}
use forge_ai_autonomous_soft.Engine.Session.Actions.{
  Store, Action, pure, raise, gets, modify, fresh, ◌>>=◌, ◌>>◌,
}

abbrev add_workflow : Text → Text → Option ℕ → ℕ → Store → Store
add_workflow key name created_by i s = record s {
  workflows =
      s.workflows ++ record { id = i; key = key; name = name; created_by = created_by } ∷ [];
}

abbrev find_or_add : Text → Text → Option ℕ → Option Workflow → Action ℕ
find_or_add key name created_by (some workflow) = pure workflow.id
find_or_add key name created_by none = do
  i ← fresh
  modify (add_workflow key name created_by i)
  pure i

unfoldable pub get_or_create_workflow : Text → Text → Option ℕ → Action ℕ
unfolding fresh
get_or_create_workflow key name created_by = do
  found ← gets (λ s. find (λ (row : Workflow). row.key == key) s.workflows)
  find_or_add key name created_by found

-- The version that a workflow has already, if it has it.
abbrev pub existing : ℕ → Text → List WorkflowVersion → Option WorkflowVersion
existing workflow_id version rows =
    find (λ (row : WorkflowVersion). eqb row.workflow_id workflow_id && row.version == version) rows

abbrev pub version_row : ℕ → Workflow → WorkflowDefinition → WorkflowVersion
version_row i workflow definition = record {
  id = i;
  workflow_id = workflow.id;
  version = definition.version;
  graph_spec = definition;
}

abbrev pub stage_row : ℕ → ℕ → ℕ → StageDefinition → WorkflowStage
stage_row i version_id index stage = record {
  id = i;
  workflow_version_id = version_id;
  stage_key = stage.id;
  name = stage.name;
  sequence_index = index;
  depends_on = stage.depends_on;
  capability_key = stage.capability;
  retry_policy = stage.retry_policy;
  timeout_policy = stage.timeout;
  requires_approval = stage.requires_approval;
  allow_skip = stage.allow_skip;
}

-- The loop over `enumerate(definition.stages)`, from `index` on.
unfoldable pub add_stages : ℕ → ℕ → List StageDefinition → Action (Unit {0})
unfolding fresh
add_stages version_id index [] = pure tt
add_stages version_id index (stage ∷ stages) = do
  i ← fresh
  modify (λ s. record s { stages = s.stages ++ stage_row i version_id index stage ∷ [] })
  add_stages version_id (index + 1) stages

-- From the insertion of the version on, unless it exists.
abbrev pub add_version : Workflow → WorkflowDefinition → Option WorkflowVersion → Action ℕ
add_version workflow definition (some row) =
    raise (definition_already_registered workflow.key definition.version)
add_version workflow definition none = do
  i ← fresh
  modify (λ s. record s { versions = s.versions ++ version_row i workflow definition ∷ [] })
  add_stages i 0 definition.stages
  pure i

unfoldable pub register_version : Workflow → WorkflowDefinition → Action ℕ
unfolding fresh add_stages
register_version workflow definition = do
  found ← gets (λ s. existing workflow.id definition.version s.versions)
  add_version workflow definition found
