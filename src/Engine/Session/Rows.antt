-- ===== src/Engine/Session/Rows.antt =====
-- The columns of services/core/src/forgeai_core/models/workflow_*.py that the engine uses.
use forge_ai_autonomous_soft.Common.{ℕ, ℤ, Bool, Option, List, Text}
use forge_ai_autonomous_soft.Core.{
  WorkflowStatus, StageStatus, ApprovalDecision, RetryPolicy, TimeoutPolicy,
}
use forge_ai_autonomous_soft.Engine.Definition.{WorkflowDefinition}

abbrev pub Json : Type 0
Json = Text

pub record Workflow : Type 0 where
  pub id : ℕ
  pub key : Text
  pub name : Text
  pub created_by : Option ℕ

pub record WorkflowExecution : Type 0 where
  pub id : ℕ
  pub workflow_id : ℕ
  pub workflow_version_id : ℕ
  pub project_id : ℕ
  pub status : WorkflowStatus
  pub input : Json
  pub started_by : Option ℕ
  pub started_at : Option ℕ
  pub completed_at : Option ℕ
  pub error : Option Text

pub record WorkflowStageExecution : Type 0 where
  pub id : ℕ
  pub workflow_execution_id : ℕ
  pub workflow_stage_id : ℕ
  pub status : StageStatus
  pub input : Json
  pub output : Option Json
  pub attempt_number : ℕ
  pub started_at : Option ℕ
  pub completed_at : Option ℕ
  pub error : Option Text
  pub retry_after : Option ℕ

pub record WorkflowStage : Type 0 where
  pub id : ℕ
  pub workflow_version_id : ℕ
  pub stage_key : Text
  pub name : Text
  pub sequence_index : ℕ
  pub depends_on : List Text
  pub capability_key : Option Text
  pub retry_policy : RetryPolicy
  pub timeout_policy : TimeoutPolicy
  pub requires_approval : Bool
  pub allow_skip : Bool

-- `graph_spec` is the dump of a definition: the record of its fields.
pub record WorkflowVersion : Type 0 where
  pub id : ℕ
  pub workflow_id : ℕ
  pub version : Text
  pub graph_spec : WorkflowDefinition

pub data ApprovalPayload : Type 0 where
  gate : (stage_id stage_name : Text) → ApprovalPayload
  timed_out : (stage_id error : Text) → ApprovalPayload

pub record WorkflowApproval : Type 0 where
  pub id : ℕ
  pub workflow_execution_id : ℕ
  pub stage_execution_id : Option ℕ
  pub decision : Option ApprovalDecision
  pub payload : ApprovalPayload
  pub decided_by_id : Option ℕ
  pub decided_at : Option ℕ
  pub comment : Option Text

pub data QueueEntryStatus : Type 0 where
  queued claimed done : QueueEntryStatus

pub record WorkflowQueueEntry : Type 0 where
  pub id : ℕ
  pub workflow_execution_id : ℕ
  pub priority : ℤ
  pub status : QueueEntryStatus
  pub scheduled_for : Option ℕ
  pub claimed_at : Option ℕ
  pub claimed_by : Option Text
  pub created_at : ℕ

pub data EventPayload : Type 0 where
  workflow_change : (previous_status new_status : Text) → EventPayload
  stage_change : (stage_execution_id : ℕ) (previous_status new_status : Text) → EventPayload

pub record WorkflowEvent : Type 0 where
  pub workflow_execution_id : ℕ
  pub event_type : Text
  pub payload : EventPayload

-- Time spans are signed microseconds.
pub record WorkflowMetric : Type 0 where
  pub workflow_execution_id : ℕ
  pub total_duration : Option ℤ
  pub queue_wait : Option ℤ
  pub stages_completed : ℕ
  pub stages_failed : ℕ
  pub retries_total : ℕ
