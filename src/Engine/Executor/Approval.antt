-- ===== src/Engine/Executor/Approval.antt =====
-- executor.py: `resolve_approval`.
pub mod Branches
use forge_ai_autonomous_soft.Common.{
  ℕ, Bool, true, false, Option, none, some, List, [], ◌∷◌, ◌++◌, Text, text_eq, codes, insert,
  if◌then◌else◌,
}
use forge_ai_autonomous_soft.Core.{WorkflowStatus, StageStatus, ApprovalDecision}
use forge_ai_autonomous_soft.Engine.Errors.{approval_not_found, approval_already_decided}
use forge_ai_autonomous_soft.Engine.Decisions.{ApprovalOutcome, halt, resume, outcome_for_decision}
use forge_ai_autonomous_soft.Engine.Definition.{WorkflowDefinition, StageDefinition, stage}
use forge_ai_autonomous_soft.Engine.StateManager.{
  transition_workflow, transition_stage, StageChange, no_change, get_execution,
}
use forge_ai_autonomous_soft.Engine.Executor.Plan.{
  Statuses, Ids, item, stage_of, load_definition, get_stage_executions, status_by_key, se_by_key,
  key_for_stage_execution_id,
}
use forge_ai_autonomous_soft.Engine.Executor.Stages.{
  fail_workflow, run_and_apply_stage_result, check_completion,
}
use forge_ai_autonomous_soft.Engine.Session.Rows.{WorkflowExecution, WorkflowApproval}
use forge_ai_autonomous_soft.Engine.Session.Actions.{
  World, Store, Action, pure, raise, lift, gets, or_raise, by_id, update, modify, ◌>>=◌, ◌>>◌, now,
}

-- `decision.value`
abbrev pub decision_value : ApprovalDecision → Text
decision_value ApprovalDecision.approve = codes "approve"
decision_value ApprovalDecision.reject = codes "reject"
decision_value ApprovalDecision.request_changes = codes "request_changes"
decision_value ApprovalDecision.escalate = codes "escalate"
decision_value ApprovalDecision.timeout = codes "timeout"

-- `f": {comment}" if comment else ""`
abbrev comment_suffix : Option Text → Text
comment_suffix none = []
comment_suffix (some []) = []
comment_suffix (some (c ∷ t)) = codes ": " ++ c ∷ t

abbrev pub approval_id_of : WorkflowApproval → ℕ
approval_id_of row = row.id

-- The four assignments to the approval.
unfoldable pub record_decision : ℕ → ApprovalDecision → Option ℕ → Option Text → ℕ → Store → Store
record_decision approval_id decision decided_by comment at s = record s {
  approvals =
      update approval_id_of approval_id
        (λ row. record row {
          decision = some decision;
          decided_by_id = decided_by;
          decided_at = some at;
          comment = comment;
        })
        s.approvals;
}

module _ (w : World) where
  -- The branch HALT.
  unfoldable pub halt_execution :
      WorkflowExecution → WorkflowDefinition → Statuses → Ids → Option ℕ → Text → Action (Unit {0})
  unfolding fail_workflow transition_stage key_for_stage_execution_id
  halt_execution execution definition statuses ids none error = do
    fail_workflow w execution.id definition statuses ids execution.project_id error
    pure tt
  halt_execution execution definition statuses ids (some se_id) error = do
    transition_stage w se_id StageStatus.failed (record no_change { error = some error })
    key ← key_for_stage_execution_id ids se_id
    fail_workflow w execution.id definition (insert key StageStatus.failed statuses) ids
        execution.project_id error
    pure tt

  -- `if terminal is None`
  unfoldable pub after_run : ℕ → Option ℕ → Statuses → Action (Unit {0})
  unfolding check_completion
  after_run execution_id none statuses = check_completion w execution_id statuses >> pure tt
  after_run execution_id (some i) statuses = pure tt

  -- The branch RESUME.
  unfoldable pub resume_execution :
      WorkflowExecution → WorkflowDefinition → Statuses → Ids → Option ℕ → ℕ → Action (Unit {0})
  unfolding transition_workflow key_for_stage_execution_id stage run_and_apply_stage_result
      after_run
  resume_execution execution definition statuses ids none at = do
    transition_workflow w execution.id WorkflowStatus.running none
    pure tt
  resume_execution execution definition statuses ids (some se_id) at = do
    transition_workflow w execution.id WorkflowStatus.running none
    key ← key_for_stage_execution_id ids se_id
    stage_def ← stage_of key definition
    row_id ← item key ids
    outcome ←
        run_and_apply_stage_result w execution definition stage_def row_id statuses ids false at
    after_run execution.id outcome.0 outcome.1

  -- What follows the check that the approval is undecided, and the recording of the decision.
  unfoldable pub apply_decision :
      WorkflowApproval → ApprovalDecision → ApprovalOutcome → Option Text → ℕ → Action (Unit {0})
  unfolding get_execution load_definition get_stage_executions status_by_key se_by_key
      halt_execution resume_execution
  apply_decision approval decision outcome comment at = do
    execution ← get_execution approval.workflow_execution_id
    definition ← load_definition w execution.workflow_version_id
    pairs ← gets (get_stage_executions approval.workflow_execution_id)
    let statuses = status_by_key pairs
    let ids = se_by_key pairs
    elim outcome [
      | halt ↦
          halt_execution execution definition statuses ids approval.stage_execution_id
            (codes "approval " ++ (decision_value decision ++ comment_suffix comment))
      | resume ↦ resume_execution execution definition statuses ids approval.stage_execution_id at
    ]

  abbrev is_decided : WorkflowApproval → Bool
  is_decided approval = elim approval.decision [ none ↦ false | some _ ↦ true ]

  unfoldable pub resolve_approval : ℕ → ApprovalDecision → Option ℕ → Option Text → Action ℕ
  unfolding outcome_for_decision now record_decision apply_decision
  resolve_approval approval_id decision decided_by comment = do
    found ← gets (λ s. by_id approval_id_of approval_id s.approvals)
    approval ← or_raise (approval_not_found approval_id) found
    if is_decided approval then raise (approval_already_decided approval_id) else (do
      outcome ← lift (outcome_for_decision decision)
      at ← now w
      modify (record_decision approval_id decision decided_by comment at)
      apply_decision approval decision outcome comment at
      pure approval_id)
