-- ===== src/Engine/StateMachine.antt =====
-- services/workflow_engine/src/forgeai_workflow_engine/state_machine.py: the two transition
-- tables, the validators, and the two in-memory machines. A `datetime.now` is an argument.
pub mod Workflow
pub mod Stage
pub mod Trails
pub mod Endings
use forge_ai_autonomous_soft.Common.{
  ℕ, Bool, true, false, List, [], ◌∷◌, Text, codes, elem, if◌then◌else◌,
}
use forge_ai_autonomous_soft.Core.{
  WorkflowStatus, StageStatus, workflow_status_eq, stage_status_eq, workflow_value, stage_value,
}
use forge_ai_autonomous_soft.Engine.Errors.{Result, ok, err, invalid_transition, ◌>>=◌, ◌>>◌}

-- `_WORKFLOW_TRANSITIONS`
unfoldable pub workflow_transitions : WorkflowStatus → List WorkflowStatus
workflow_transitions WorkflowStatus.draft = WorkflowStatus.pending ∷ WorkflowStatus.cancelled ∷ []
workflow_transitions WorkflowStatus.pending = WorkflowStatus.running ∷ WorkflowStatus.cancelled ∷ []
workflow_transitions WorkflowStatus.running =
    WorkflowStatus.paused ∷ WorkflowStatus.waiting_approval ∷ WorkflowStatus.retrying
    ∷ WorkflowStatus.completed ∷ WorkflowStatus.failed ∷ WorkflowStatus.cancelled ∷ []
workflow_transitions WorkflowStatus.paused = WorkflowStatus.running ∷ WorkflowStatus.cancelled ∷ []
workflow_transitions WorkflowStatus.waiting_approval =
    WorkflowStatus.running ∷ WorkflowStatus.failed ∷ WorkflowStatus.cancelled ∷ []
workflow_transitions WorkflowStatus.retrying =
    WorkflowStatus.running ∷ WorkflowStatus.failed ∷ WorkflowStatus.cancelled ∷ []
workflow_transitions WorkflowStatus.completed = WorkflowStatus.archived ∷ []
workflow_transitions WorkflowStatus.failed = WorkflowStatus.retrying ∷ WorkflowStatus.archived ∷ []
workflow_transitions WorkflowStatus.cancelled = WorkflowStatus.archived ∷ []
workflow_transitions WorkflowStatus.archived = []

-- `_STAGE_TRANSITIONS`
unfoldable pub stage_transitions : StageStatus → List StageStatus
stage_transitions StageStatus.pending =
    StageStatus.running ∷ StageStatus.waiting_approval ∷ StageStatus.skipped ∷ StageStatus.cancelled
    ∷ []
stage_transitions StageStatus.running =
    StageStatus.waiting_approval ∷ StageStatus.retrying ∷ StageStatus.completed ∷ StageStatus.failed
    ∷ StageStatus.cancelled ∷ []
stage_transitions StageStatus.waiting_approval =
    StageStatus.running ∷ StageStatus.failed ∷ StageStatus.cancelled ∷ []
stage_transitions StageStatus.retrying =
    StageStatus.running ∷ StageStatus.failed ∷ StageStatus.cancelled ∷ []
stage_transitions StageStatus.completed = []
stage_transitions StageStatus.failed = StageStatus.retrying ∷ []
stage_transitions StageStatus.skipped = []
stage_transitions StageStatus.cancelled = []

unfoldable pub is_terminal_workflow_status : WorkflowStatus → Bool
is_terminal_workflow_status status = elem status (
    WorkflowStatus.completed ∷ WorkflowStatus.failed ∷ WorkflowStatus.cancelled
    ∷ WorkflowStatus.archived ∷ [])

unfoldable pub is_terminal_stage_status : StageStatus → Bool
is_terminal_stage_status status =
    elem status (StageStatus.completed ∷ StageStatus.skipped ∷ StageStatus.cancelled ∷ [])

unfoldable pub validate_workflow_transition : WorkflowStatus → WorkflowStatus → Result (Unit {0})
unfolding workflow_transitions
validate_workflow_transition current target =
    if elem target (workflow_transitions current)
    then ok tt
    else err
        (invalid_transition (workflow_value current) (workflow_value target) (codes "workflow"))

unfoldable pub validate_stage_transition : StageStatus → StageStatus → Result (Unit {0})
unfolding stage_transitions
validate_stage_transition current target =
    if elem target (stage_transitions current)
    then ok tt
    else err (invalid_transition (stage_value current) (stage_value target) (codes "stage"))
