-- ===== src/Engine/Executor/Stages.antt =====
-- executor.py: running one stage and applying its result, completion, failure and rollback.
pub mod Rollback
use forge_ai_autonomous_soft.Common.{
  ℕ, ◌+◌, Bool, true, false, Option, none, some, List, [], ◌∷◌, ◌++◌, Text, text_eq, codes, insert,
  lookup, if◌then◌else◌, select, reverse, ◌==◌,
}
use forge_ai_autonomous_soft.Core.{WorkflowStatus, StageStatus, stage_status_eq}
use forge_ai_autonomous_soft.Engine.Errors.{runner_raised}
use forge_ai_autonomous_soft.Engine.Decisions.{RetryDecision, decide}
use forge_ai_autonomous_soft.Engine.Definition.{
  WorkflowDefinition, StageDefinition, stage, stage_ids,
}
use forge_ai_autonomous_soft.Engine.StateManager.{
  transition_workflow, transition_stage, StageChange, no_change, get_stage_execution,
}
use forge_ai_autonomous_soft.Engine.Executor.Plan.{Statuses, Ids, item, stage_of, all_done}
use forge_ai_autonomous_soft.Engine.Session.Rows.{WorkflowExecution, WorkflowStageExecution}
use forge_ai_autonomous_soft.Engine.Session.Actions.{
  World, Store, Action, pure, raise, gets, lift, modify, ◌>>=◌, ◌>>◌, StageRunContext,
  StageRunResult, RunnerCall, run, rollback,
}

abbrev log_call : RunnerCall → Store → Store
log_call call s = record s { runner_calls = s.runner_calls ++ call ∷ [] }

abbrev calls_made : List RunnerCall → ℕ
calls_made [] = 0
calls_made (c ∷ cs) = calls_made cs + 1

-- `result.error or default`: the empty text is falsy.
abbrev pub text_or : Option Text → Text → Text
text_or none default = default
text_or (some []) default = default
text_or (some (c ∷ t)) default = c ∷ t

module _ (w : World) where
  -- `self._runner.run`
  unfoldable pub call_run : StageDefinition → StageRunContext → Action StageRunResult
  call_run stage_def context s =
      let after = log_call (RunnerCall.run stage_def.id) s in
      elim (w.run (calls_made s.runner_calls) stage_def context) [
        | none ↦ raise runner_raised after
        | some result ↦ pure result after
      ]

  -- `self._runner.rollback`
  unfoldable pub call_rollback : StageDefinition → StageRunContext → Action (Unit {0})
  call_rollback stage_def context s =
      let after = log_call (RunnerCall.rollback stage_def.id) s in
      if w.rollback (calls_made s.runner_calls) stage_def context
      then pure tt after
      else raise runner_raised after

  unfoldable pub check_completion : ℕ → Statuses → Action (Option ℕ)
  unfolding all_done transition_workflow
  check_completion execution_id statuses =
      if all_done statuses
      then (do i ← transition_workflow w execution_id WorkflowStatus.completed none; pure (some i))
      else pure none

  -- `completed_keys_in_order`
  unfoldable pub completed_keys : WorkflowDefinition → Statuses → List Text
  completed_keys definition statuses =
      select
        (λ key. elim (lookup key statuses) [ none ↦ false | some st ↦ st == StageStatus.completed ])
        (stage_ids definition.stages)

  -- The loop of `_rollback_completed_stages`: its body, and the walk over the reversed keys.
  unfoldable pub rollback_key : WorkflowDefinition → Ids → ℕ → ℕ → Text → Action (Unit {0})
  unfolding get_stage_execution call_rollback stage
  rollback_key definition ids execution_id project_id key = do
    se_id ← item key ids
    row ← get_stage_execution se_id
    stage_def ← stage_of key definition
    call_rollback stage_def (record {
      workflow_execution_id = execution_id;
      project_id = project_id;
      stage_input = row.input;
    })

  unfoldable pub rollback_keys : WorkflowDefinition → Ids → ℕ → ℕ → List Text → Action (Unit {0})
  unfolding rollback_key
  rollback_keys definition ids execution_id project_id [] = pure tt
  rollback_keys definition ids execution_id project_id (key ∷ keys) =
      rollback_key definition ids execution_id project_id key
      >> rollback_keys definition ids execution_id project_id keys

  unfoldable pub rollback_completed_stages :
      ℕ → WorkflowDefinition → Statuses → Ids → ℕ → Action (Unit {0})
  unfolding completed_keys rollback_keys
  rollback_completed_stages execution_id definition statuses ids project_id =
      rollback_keys definition ids execution_id project_id
        (reverse (completed_keys definition statuses))

  unfoldable pub fail_workflow : ℕ → WorkflowDefinition → Statuses → Ids → ℕ → Text → Action ℕ
  unfolding rollback_completed_stages transition_workflow
  fail_workflow execution_id definition statuses ids project_id error = do
    rollback_completed_stages execution_id definition statuses ids project_id
    transition_workflow w execution_id WorkflowStatus.failed (some error)

  -- A `terminal` execution, if the outcome ended the workflow, and `status_by_key` after it.
  abbrev pub Outcome : Type 0
  Outcome = Option ℕ × Statuses

  -- What follows a run that did not succeed.
  unfoldable pub apply_failure :
      WorkflowExecution
      → WorkflowDefinition
      → StageDefinition
      → ℕ
      → Statuses
      → Ids
      → ℕ
      → ℕ
      → Option Text
      → Action Outcome
  unfolding decide transition_stage fail_workflow
  apply_failure execution definition stage_def se_id statuses ids attempted now error = do
    decision ← lift (decide w.floats stage_def.retry_policy attempted now)
    if decision.should_retry
        then (do
          transition_stage w se_id StageStatus.retrying
              (record no_change { error = error; retry_after = decision.retry_after })
          pure (none, insert stage_def.id StageStatus.retrying statuses))
        else (do
          transition_stage w se_id StageStatus.failed (record no_change { error = error })
          let failed = insert stage_def.id StageStatus.failed statuses
          i ←
              fail_workflow execution.id definition failed ids execution.project_id
                (text_or error (codes "stage '" ++ stage_def.id ++ codes "' failed"))
          pure (some i, failed))

  -- `_run_and_apply_stage_result`. `next_attempt_number or …`: a next number is at least 1.
  unfoldable pub run_and_apply_stage_result :
      WorkflowExecution
      → WorkflowDefinition
      → StageDefinition
      → ℕ
      → Statuses
      → Ids
      → Bool
      → ℕ
      → Action Outcome
  unfolding get_stage_execution transition_stage call_run apply_failure
  run_and_apply_stage_result execution definition stage_def se_id statuses ids is_retry now = do
    row ← get_stage_execution se_id
    let next_attempt_number = if is_retry then some (row.attempt_number + 1) else none
    transition_stage w se_id StageStatus.running
        (record no_change { attempt_number = next_attempt_number; reset_started_at = is_retry })
    result ← call_run stage_def (record {
      workflow_execution_id = execution.id;
      project_id = execution.project_id;
      stage_input = execution.input;
    })
    if result.success
        then (do
          transition_stage w se_id StageStatus.completed
              (record no_change { output = some result.output })
          pure (none, insert stage_def.id StageStatus.completed statuses))
        else (do
          after ← get_stage_execution se_id
          apply_failure execution definition stage_def se_id statuses ids
              (elim next_attempt_number [ none ↦ after.attempt_number | some n ↦ n ]) now
              result.error)
