-- ===== src/Engine/Executor/Reap.antt =====
-- executor.py: `_reap_timed_out_stage`.
use forge_ai_autonomous_soft.Common.{
  ℕ, Bool, false, Option, none, some, [], ◌∷◌, ◌++◌, Text, text_eq, codes, insert, decimal,
  if◌then◌else◌, ◌==◌,
}
use forge_ai_autonomous_soft.Core.{
  WorkflowStatus, StageStatus, stage_status_eq, TimeoutAction, TimeoutPolicy,
}
use forge_ai_autonomous_soft.Engine.Decisions.{decide, has_timed_out, action_for_timeout}
use forge_ai_autonomous_soft.Engine.Definition.{WorkflowDefinition, StageDefinition, stage}
use forge_ai_autonomous_soft.Engine.StateManager.{
  transition_workflow, transition_stage, no_change, get_execution, get_stage_execution,
}
use forge_ai_autonomous_soft.Engine.Executor.Plan.{Statuses, Ids, item, stage_of}
use forge_ai_autonomous_soft.Engine.Executor.Stages.{fail_workflow}
use forge_ai_autonomous_soft.Engine.Session.Rows.{WorkflowExecution, ApprovalPayload, timed_out}
use forge_ai_autonomous_soft.Engine.Session.Actions.{
  World, Action, pure, lift, modify, ◌>>=◌, ◌>>◌, fresh,
}

-- `self._db.add(WorkflowApproval(…))`
unfoldable pub request_approval : ℕ → ℕ → ApprovalPayload → Action (Unit {0})
unfolding fresh
request_approval execution_id se_id payload = do
  i ← fresh
  modify λ s. record s {
    approvals =
        s.approvals
        ++ record {
          id = i;
          workflow_execution_id = execution_id;
          stage_execution_id = some se_id;
          decision = none;
          payload = payload;
          decided_by_id = none;
          decided_at = none;
          comment = none;
        }
          ∷ [];
  }

abbrev seconds_text : TimeoutPolicy → Text
seconds_text policy = elim policy.seconds [ none ↦ codes "None" | some n ↦ decimal n ]

module _ (w : World) (execution : WorkflowExecution) (definition : WorkflowDefinition)
    (statuses : Statuses) (ids : Ids) (now : ℕ) where
  -- The stage's status becomes `target`, and the workflow fails.
  unfoldable pub stop_timed_out : Text → ℕ → StageStatus → Text → Action ℕ
  unfolding transition_stage fail_workflow
  stop_timed_out key se_id target timeout_error = do
    transition_stage w se_id target (record no_change { error = some timeout_error })
    fail_workflow w execution.id definition (insert key target statuses) ids execution.project_id
        timeout_error

  -- The branches on `action`.
  unfoldable pub apply_timeout : Text → StageDefinition → ℕ → Text → TimeoutAction → Action ℕ
  unfolding request_approval transition_stage transition_workflow get_stage_execution decide
      get_execution stop_timed_out
  apply_timeout key stage_def se_id timeout_error TimeoutAction.escalate = do
    request_approval execution.id se_id (timed_out key timeout_error)
    transition_stage w se_id StageStatus.waiting_approval
        (record no_change { error = some timeout_error })
    transition_workflow w execution.id WorkflowStatus.waiting_approval none
  apply_timeout key stage_def se_id timeout_error TimeoutAction.retry = do
    row ← get_stage_execution se_id
    decision ← lift (decide w.floats stage_def.retry_policy row.attempt_number now)
    if decision.should_retry
        then (do
          transition_stage w se_id StageStatus.retrying
              (record no_change { error = some timeout_error; retry_after = decision.retry_after })
          found ← get_execution execution.id
          pure found.id)
        else stop_timed_out key se_id StageStatus.failed timeout_error
  apply_timeout key stage_def se_id timeout_error TimeoutAction.cancel =
      stop_timed_out key se_id StageStatus.cancelled timeout_error

  abbrev overdue : StageDefinition → Option ℕ → Bool
  overdue stage_def none = false
  overdue stage_def (some started_at) = has_timed_out stage_def.timeout started_at now

  -- The body of the loop: `none` is `continue`.
  unfoldable pub reap_stage : Text → Action (Option ℕ)
  unfolding get_stage_execution apply_timeout stage has_timed_out action_for_timeout decimal
  reap_stage key = do
    stage_def ← stage_of key definition
    se_id ← item key ids
    row ← get_stage_execution se_id
    if overdue stage_def row.started_at
        then (do
          i ←
              apply_timeout key stage_def se_id
                (codes "stage '"
                  ++ (key
                      ++ (codes "' exceeded its "
                          ++ (seconds_text stage_def.timeout ++ codes "s timeout"))))
                (action_for_timeout stage_def.timeout)
          pure (some i))
        else pure none

  unfoldable pub reap_items : Statuses → Action (Option ℕ)
  unfolding reap_stage
  reap_items [] = pure none
  reap_items ((key, status) ∷ rest) =
      let next = reap_items rest in
      if status == StageStatus.running
      then (do reaped ← reap_stage key; elim reaped [ none ↦ next | some i ↦ pure (some i) ])
      else next

  unfoldable pub reap_timed_out_stage : Action (Option ℕ)
  unfolding reap_items
  reap_timed_out_stage = reap_items statuses
