-- ===== src/Api/Workflows/Requests.antt =====
-- service.py: the methods of `WorkflowService`, and the requests that name an execution as one type.
pub mod Atomic
use forge_ai_autonomous_soft.Common.{ℕ, ℤ, pos, Bool, Option, none, some, List, [], ◌∷◌, Text}
use forge_ai_autonomous_soft.Common.Outcome.{Outcome, returned, raised}
use forge_ai_autonomous_soft.Core.{ApprovalDecision}
use forge_ai_autonomous_soft.Engine.Errors.{EngineError}
use forge_ai_autonomous_soft.Engine.Definition.{WorkflowDefinition, load_from_dict}
use forge_ai_autonomous_soft.Engine.Session.Rows.{Json, Workflow, WorkflowVersion, WorkflowApproval}
use forge_ai_autonomous_soft.Engine.Session.Actions.{World, Store, lift, by_id}
use forge_ai_autonomous_soft.Engine.Registration.{get_or_create_workflow, register_version}
use forge_ai_autonomous_soft.Engine.Executor.Control
use forge_ai_autonomous_soft.Engine.Executor.Control.{create_execution, submit, start}
use forge_ai_autonomous_soft.Engine.Executor.Approval
use forge_ai_autonomous_soft.Engine.Executor.Advance
use forge_ai_autonomous_soft.Api.Workflows.{
  ApiError, Service, Session, workflow_version_not_found, WorkflowExecutionDetail, reply, fail,
  reads, or_fail, engine, commit, ◌>>=◌, ◌>>◌, uncaught, as_registered, as_transition, as_skip,
  as_decision, get_version, approvals_of, build_detail, validated_execution,
  validated_stage_execution_id, validated_approval_id,
}

pub record CreateExecutionRequest : Type 0 where
  pub workflow_key : Text
  pub version : Text
  pub input : Json

-- What a request asks of an execution.
pub data Request : Type 0 where
  detail advance pause resume cancel list_approvals : Request
  skip_stage : (stage_execution_id : ℕ) → Request
  resolve_approval :
      (approval_id : ℕ) (decision : ApprovalDecision) (comment : Option Text) (decided_by : ℕ)
      → Request

pub data Reply : Type 0 where
  execution : WorkflowExecutionDetail → Reply
  approvals : List WorkflowApproval → Reply

module _ (w : World) where
  -- What follows the engine's part of a request.
  abbrev pub committed_detail : ℕ → Service Reply
  committed_detail execution_id = do
    commit
    shown ← build_detail execution_id
    reply (execution shown)

  abbrev pub handled : ℕ → Request → Service Reply
  handled execution_id Request.detail = do
    shown ← build_detail execution_id
    reply (execution shown)
  handled execution_id Request.advance =
      engine uncaught (Advance.advance w execution_id) >> committed_detail execution_id
  handled execution_id Request.pause =
      engine as_transition (Control.pause w execution_id) >> committed_detail execution_id
  handled execution_id Request.resume =
      engine as_transition (Control.resume w execution_id) >> committed_detail execution_id
  handled execution_id Request.cancel =
      engine as_transition (Control.cancel w execution_id) >> committed_detail execution_id
  handled execution_id Request.list_approvals = do
    rows ← reads (approvals_of execution_id)
    reply (approvals rows)
  handled execution_id (Request.skip_stage stage_execution_id) = do
    validated_stage_execution_id execution_id stage_execution_id
    engine as_skip (Control.skip_stage w stage_execution_id)
    committed_detail execution_id
  handled execution_id (Request.resolve_approval approval_id decision comment decided_by) = do
    validated_approval_id execution_id approval_id
    engine as_decision (Approval.resolve_approval w approval_id decision (some decided_by) comment)
    committed_detail execution_id

  -- The methods that take an `execution_id` and a `project_id`.
  unfoldable pub serve : ℕ → ℕ → Request → Service Reply
  unfolding validated_execution validated_stage_execution_id validated_approval_id build_detail
      Advance.advance Control.pause Control.resume Control.cancel Control.skip_stage
      Approval.resolve_approval
  serve execution_id project_id request =
      validated_execution execution_id project_id >> handled execution_id request

  -- `create_and_start_execution`
  unfoldable pub create_and_start_execution :
      CreateExecutionRequest → ℕ → ℕ → Service WorkflowExecutionDetail
  unfolding get_version load_from_dict create_execution submit start Advance.advance build_detail
  create_and_start_execution request project_id started_by = do
    found ← get_version request.workflow_key request.version
    version ← or_fail workflow_version_not_found found
    definition ← engine uncaught (lift (load_from_dict w.unicode w.float_ok version.graph_spec))
    execution_id ←
        engine uncaught
          (create_execution version definition project_id request.input (some started_by))
    engine uncaught (submit w execution_id (pos 0))
    engine uncaught (start w execution_id)
    engine uncaught (Advance.advance w execution_id)
    commit
    build_detail execution_id

-- A workflow that was found or made a moment ago has a row: no error of the source.
abbrev registered_with : ℕ → WorkflowDefinition → Option Workflow → Service ℕ
registered_with workflow_id definition none = fail (ApiError.unhandled EngineError.key_error)
registered_with workflow_id definition (some workflow) =
    engine as_registered (register_version workflow definition)

-- `register_definition`; the row that it returns is its id.
unfoldable pub register_definition : WorkflowDefinition → ℕ → Service ℕ
unfolding get_or_create_workflow register_version
register_definition definition created_by = do
  workflow_id ←
      engine as_registered (get_or_create_workflow definition.key definition.name (some created_by))
  workflow ← reads (λ s. by_id (λ (row : Workflow). row.id) workflow_id s.workflows)
  version_id ← registered_with workflow_id definition workflow
  commit
  reply version_id

-- `get_version_detail`
unfoldable pub get_version_detail : Text → Text → Service WorkflowVersion
unfolding get_version
get_version_detail key version = do
  found ← get_version key version
  or_fail workflow_version_not_found found
