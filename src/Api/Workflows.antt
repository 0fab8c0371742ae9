-- ===== src/Api/Workflows.antt =====
-- apps/api/src/forgeai_api/modules/workflows: service.py, repository.py, exceptions.py and the
-- schemas of the replies. A service works in the database session of its request: what the engine's
-- tables are in the session, and what they were at the last commit.
pub mod Ownership
pub mod Requests
use forge_ai_autonomous_soft.Common.Catalog.{scalar_one_or_none}
use forge_ai_autonomous_soft.Common.{
  ℕ, ℤ, pos, Bool, true, false, ◌&&◌, not, eqb, Option, none, some, List, [], ◌∷◌, ◌++◌, map,
  select, Text, text_eq, ◌==◌, if◌then◌else◌,
}
use forge_ai_autonomous_soft.Common.Outcome.{Outcome, returned, raised}
use forge_ai_autonomous_soft.Core.{WorkflowStatus, StageStatus, ApprovalDecision}
use forge_ai_autonomous_soft.Engine.Errors.{
  EngineError, Result, ok, err, invalid_transition, definition_already_registered,
  execution_not_found,
}
use forge_ai_autonomous_soft.Engine.Definition.{WorkflowDefinition}
use forge_ai_autonomous_soft.Engine.Session.Rows.{
  Json, Workflow, WorkflowVersion, WorkflowExecution, WorkflowStageExecution, WorkflowApproval,
}
use forge_ai_autonomous_soft.Engine.Session.Actions.{World, Store, Action, by_id}
use forge_ai_autonomous_soft.Engine.StateManager.{get_execution, execution_at}
use forge_ai_autonomous_soft.Engine.Executor.Plan.{Pairs, get_stage_executions}

pub data ApiError : Type 0 where
  workflow_version_not_found workflow_execution_not_found stage_execution_not_found
        approval_not_found :
      ApiError
  stage_not_skippable approval_already_decided : ApiError
  -- With the engine's error, whose text is the detail.
  workflow_version_already_registered invalid_workflow_transition unsupported_approval_decision :
      (cause : EngineError) → ApiError
  -- No AppError: an exception of the engine that the service does not catch.
  unhandled : (cause : EngineError) → ApiError
  -- SQLAlchemy's `MultipleResultsFound`.
  multiple_results : ApiError

pub record Session : Type 0 where
  pub store : Store
  pub committed : Store

abbrev pub Service : Type 0 → Type 0
Service A = Session → Outcome ApiError A × Session

module _ {A : Type 0} where
  abbrev pub reply : A → Service A
  reply a s = (returned a, s)

  abbrev pub fail : ApiError → Service A
  fail e s = (raised e, s)

  abbrev pub reads : (Store → A) → Service A
  reads f s = (returned (f s.store), s)

  abbrev pub or_fail : ApiError → Option A → Service A
  or_fail e none = fail e
  or_fail e (some a) = reply a

  abbrev pub after_engine :
      (EngineError → ApiError) → Session → Result A × Store → Outcome ApiError A × Session
  after_engine caught s (ok a, store) = (returned a, record s { store = store })
  after_engine caught s (err e, store) = (raised (caught e), record s { store = store })

  -- A call of the engine, with what its exceptions become.
  abbrev pub engine : (EngineError → ApiError) → Action A → Service A
  engine caught m s = after_engine caught s (m s.store)

abbrev pub commit : Service (Unit {0})
commit s = (returned tt, record s { committed = s.store })

module _ {A B : Type 0} where
  abbrev pub go_on : Outcome ApiError A → (A → Service B) → Service B
  go_on (returned a) f = f a
  go_on (raised e) f = fail e

  infixl 5 ◌>>=◌ ◌>>◌
  abbrev pub ◌>>=◌ : Service A → (A → Service B) → Service B
  ◌>>=◌ m f s = let (r, s') = m s in go_on r f s'

  abbrev pub ◌>>◌ : Service A → Service B → Service B
  m >> k = m >>= λ _. k

-- The `except` clauses of the methods.
abbrev pub uncaught : EngineError → ApiError
uncaught e = unhandled e

abbrev pub as_registered : EngineError → ApiError
as_registered (definition_already_registered key version) =
    workflow_version_already_registered (definition_already_registered key version)
as_registered e = unhandled e

abbrev pub as_transition : EngineError → ApiError
as_transition (invalid_transition current target entity) =
    invalid_workflow_transition (invalid_transition current target entity)
as_transition e = unhandled e

abbrev pub as_skip : EngineError → ApiError
as_skip (EngineError.stage_not_skippable i) = ApiError.stage_not_skippable
as_skip e = unhandled e

abbrev pub as_decision : EngineError → ApiError
as_decision (EngineError.approval_already_decided i) = ApiError.approval_already_decided
as_decision EngineError.unsupported_approval_decision =
    ApiError.unsupported_approval_decision EngineError.unsupported_approval_decision
as_decision e = unhandled e

abbrev pub as_missing : EngineError → ApiError
as_missing (execution_not_found i) = workflow_execution_not_found
as_missing e = unhandled e

-- `WorkflowRepository.get_version`: the inner join with the workflow of the key.
abbrev has_workflow_key : Text → List Workflow → WorkflowVersion → Bool
has_workflow_key key workflows row =
    elim (by_id (λ (r : Workflow). r.id) row.workflow_id workflows) [
      | none ↦ false
      | some workflow ↦ workflow.key == key
    ]

abbrev pub versions_of : Text → Store → List WorkflowVersion
versions_of key s = select (has_workflow_key key s.workflows) s.versions

unfoldable pub get_version : Text → Text → Service (Option WorkflowVersion)
get_version key version s = (
  scalar_one_or_none multiple_results
      (select (λ (row : WorkflowVersion). row.version == version) (versions_of key s.store)),
  s,
)

-- `list_versions` and `list_approvals`, whose rows are in the order of their insertion.
unfoldable pub list_versions : Text → Service (List WorkflowVersion)
list_versions key = reads (versions_of key)

abbrev pub approvals_of : ℕ → Store → List WorkflowApproval
approvals_of execution_id s =
    select (λ (row : WorkflowApproval). eqb row.workflow_execution_id execution_id) s.approvals

pub record StageExecutionPublic : Type 0 where
  pub id : ℕ
  pub stage_key : Text
  pub status : StageStatus
  pub attempt_number : ℕ
  pub output : Option Json
  pub error : Option Text
  pub started_at : Option ℕ
  pub completed_at : Option ℕ

-- `created_at` is left out, as in the engine's rows.
pub record WorkflowExecutionDetail : Type 0 where
  pub id : ℕ
  pub workflow_id : ℕ
  pub workflow_version_id : ℕ
  pub project_id : ℕ
  pub status : WorkflowStatus
  pub input : Json
  pub error : Option Text
  pub started_at : Option ℕ
  pub completed_at : Option ℕ
  pub stages : List StageExecutionPublic

abbrev pub stage_public : WorkflowStageExecution × Text → StageExecutionPublic
stage_public (row, stage_key) = record {
  id = row.id;
  stage_key = stage_key;
  status = row.status;
  attempt_number = row.attempt_number;
  output = row.output;
  error = row.error;
  started_at = row.started_at;
  completed_at = row.completed_at;
}

abbrev pub detail_of : WorkflowExecution → Pairs → WorkflowExecutionDetail
detail_of row pairs = record {
  id = row.id;
  workflow_id = row.workflow_id;
  workflow_version_id = row.workflow_version_id;
  project_id = row.project_id;
  status = row.status;
  input = row.input;
  error = row.error;
  started_at = row.started_at;
  completed_at = row.completed_at;
  stages = map stage_public pairs;
}

-- `_build_detail`
unfoldable pub build_detail : ℕ → Service WorkflowExecutionDetail
unfolding get_execution get_stage_executions
build_detail execution_id = do
  row ← engine uncaught (get_execution execution_id)
  pairs ← reads (get_stage_executions execution_id)
  reply (detail_of row pairs)

-- `_validated_execution`
unfoldable pub validated_execution : ℕ → ℕ → Service WorkflowExecution
unfolding get_execution
validated_execution execution_id project_id = do
  row ← engine as_missing (get_execution execution_id)
  if not (eqb row.project_id project_id) then fail workflow_execution_not_found else reply row

abbrev pub names_stage : ℕ → Pairs → Bool
names_stage i [] = false
names_stage i ((row, key) ∷ pairs) = if eqb row.id i then true else names_stage i pairs

-- `_validated_stage_execution_id`
unfoldable pub validated_stage_execution_id : ℕ → ℕ → Service (Unit {0})
unfolding get_stage_executions
validated_stage_execution_id execution_id stage_execution_id = do
  pairs ← reads (get_stage_executions execution_id)
  if names_stage stage_execution_id pairs then reply tt else fail stage_execution_not_found

abbrev pub owned_approval : ℕ → Option WorkflowApproval → Service WorkflowApproval
owned_approval execution_id none = fail approval_not_found
owned_approval execution_id (some approval) =
    if not (eqb approval.workflow_execution_id execution_id)
    then fail approval_not_found
    else reply approval

-- `_validated_approval_id`
unfoldable pub validated_approval_id : ℕ → ℕ → Service WorkflowApproval
validated_approval_id execution_id approval_id = do
  found ← reads (λ s. by_id (λ (row : WorkflowApproval). row.id) approval_id s.approvals)
  owned_approval execution_id found
