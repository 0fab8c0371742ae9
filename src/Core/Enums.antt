-- ===== src/Core/Enums.antt =====
-- services/core/src/forgeai_core/workflow_enums.py: the three enums, their string values, and `==`.
use forge_ai_autonomous_soft.Common.{◌≡◌, ◌↔◌, ℕ, true, Text, codes, Eq, eqb, arith}

pub data WorkflowStatus : Type 0 where
  draft pending running paused waiting_approval : WorkflowStatus
  retrying completed failed cancelled archived : WorkflowStatus

pub data StageStatus : Type 0 where
  pending running waiting_approval retrying completed failed skipped cancelled : StageStatus

pub data ApprovalDecision : Type 0 where
  approve reject request_changes escalate timeout : ApprovalDecision

-- `status.value`
abbrev pub workflow_value : WorkflowStatus → Text
workflow_value WorkflowStatus.draft = codes "draft"
workflow_value WorkflowStatus.pending = codes "pending"
workflow_value WorkflowStatus.running = codes "running"
workflow_value WorkflowStatus.paused = codes "paused"
workflow_value WorkflowStatus.waiting_approval = codes "waiting_approval"
workflow_value WorkflowStatus.retrying = codes "retrying"
workflow_value WorkflowStatus.completed = codes "completed"
workflow_value WorkflowStatus.failed = codes "failed"
workflow_value WorkflowStatus.cancelled = codes "cancelled"
workflow_value WorkflowStatus.archived = codes "archived"

-- The place of a member in its class.
abbrev pub workflow_rank : WorkflowStatus → ℕ
workflow_rank WorkflowStatus.draft = 0
workflow_rank WorkflowStatus.pending = 1
workflow_rank WorkflowStatus.running = 2
workflow_rank WorkflowStatus.paused = 3
workflow_rank WorkflowStatus.waiting_approval = 4
workflow_rank WorkflowStatus.retrying = 5
workflow_rank WorkflowStatus.completed = 6
workflow_rank WorkflowStatus.failed = 7
workflow_rank WorkflowStatus.cancelled = 8
workflow_rank WorkflowStatus.archived = 9

pub workflow_rank_iff :
    (a b : WorkflowStatus) → (eqb (workflow_rank a) (workflow_rank b) ≡ true) ↔ (a ≡ b)
workflow_rank_iff a b = (λ h. ground arith, λ h. ground arith)

instance abbrev pub workflow_status_eq : Eq WorkflowStatus
workflow_status_eq = record {
  beq = λ a b. eqb (workflow_rank a) (workflow_rank b);
  beq_iff = workflow_rank_iff;
}

abbrev pub stage_value : StageStatus → Text
stage_value StageStatus.pending = codes "pending"
stage_value StageStatus.running = codes "running"
stage_value StageStatus.waiting_approval = codes "waiting_approval"
stage_value StageStatus.retrying = codes "retrying"
stage_value StageStatus.completed = codes "completed"
stage_value StageStatus.failed = codes "failed"
stage_value StageStatus.skipped = codes "skipped"
stage_value StageStatus.cancelled = codes "cancelled"

abbrev pub stage_rank : StageStatus → ℕ
stage_rank StageStatus.pending = 0
stage_rank StageStatus.running = 1
stage_rank StageStatus.waiting_approval = 2
stage_rank StageStatus.retrying = 3
stage_rank StageStatus.completed = 4
stage_rank StageStatus.failed = 5
stage_rank StageStatus.skipped = 6
stage_rank StageStatus.cancelled = 7

pub stage_rank_iff : (a b : StageStatus) → (eqb (stage_rank a) (stage_rank b) ≡ true) ↔ (a ≡ b)
stage_rank_iff a b = (λ h. ground arith, λ h. ground arith)

instance abbrev pub stage_status_eq : Eq StageStatus
stage_status_eq = record {
  beq = λ a b. eqb (stage_rank a) (stage_rank b);
  beq_iff = stage_rank_iff;
}
