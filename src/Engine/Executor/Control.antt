-- ===== src/Engine/Executor/Control.antt =====
-- executor.py: setting an execution up, and the operations that only move statuses.
use forge_ai_autonomous_soft.Common.{
  ℕ, ℤ, Bool, false, Option, none, some, List, [], ◌∷◌, ◌++◌, Text, text_eq, Dict, insert, codes,
  if◌then◌else◌, elem, eqb,
}
use forge_ai_autonomous_soft.Core.{WorkflowStatus, StageStatus, stage_status_eq}
use forge_ai_autonomous_soft.Engine.Errors.{stage_not_skippable}
use forge_ai_autonomous_soft.Engine.Definition.{WorkflowDefinition, StageDefinition}
use forge_ai_autonomous_soft.Engine.StateManager.{
  transition_workflow, transition_stage, no_change, get_stage_execution,
}
use forge_ai_autonomous_soft.Engine.Queue.{enqueue}
use forge_ai_autonomous_soft.Engine.Executor.Plan.{Pairs, get_stage_executions, item}
use forge_ai_autonomous_soft.Engine.Session.Rows.{
  Json, WorkflowStageExecution, WorkflowStage, WorkflowVersion,
}
use forge_ai_autonomous_soft.Engine.Session.Actions.{
  World, Store, Action, pure, raise, gets, by_id, modify, ◌>>=◌, ◌>>◌, fresh,
}

-- `_CANCELLABLE`
unfoldable pub is_cancellable : StageStatus → Bool
is_cancellable status = elem status (
    StageStatus.pending ∷ StageStatus.running ∷ StageStatus.waiting_approval ∷ StageStatus.retrying
    ∷ [])

-- `{row.stage_key: row for row in …}` over the stages of a version: the ids of the rows.
unfoldable pub stage_rows : ℕ → List WorkflowStage → Dict Text ℕ → Dict Text ℕ
stage_rows version_id [] d = d
stage_rows version_id (row ∷ rows) d =
    stage_rows version_id rows
      (if eqb row.workflow_version_id version_id then insert row.stage_key row.id d else d)

-- `self._db.add(WorkflowStageExecution(…))`
unfoldable pub add_stage_row : ℕ → ℕ → ℕ → Store → Store
add_stage_row i execution_id stage_id s = record s {
  stage_executions =
      s.stage_executions
      ++ record {
        id = i;
        workflow_execution_id = execution_id;
        workflow_stage_id = stage_id;
        status = StageStatus.pending;
        input = codes "{}";
        output = none;
        attempt_number = 1;
        started_at = none;
        completed_at = none;
        error = none;
        retry_after = none;
      }
        ∷ [];
}

-- The loop of `create_execution` over the stages of the definition, and its body.
unfoldable pub add_stage_execution : ℕ → Dict Text ℕ → StageDefinition → Action (Unit {0})
unfolding fresh add_stage_row
add_stage_execution execution_id rows stage_def = do
  stage_id ← item stage_def.id rows
  i ← fresh
  modify (add_stage_row i execution_id stage_id)

unfoldable pub add_stage_executions : ℕ → Dict Text ℕ → List StageDefinition → Action (Unit {0})
unfolding add_stage_execution
add_stage_executions execution_id rows [] = pure tt
add_stage_executions execution_id rows (stage_def ∷ stages) =
    add_stage_execution execution_id rows stage_def >> add_stage_executions execution_id rows stages

-- `self._db.add(WorkflowExecution(…))`
unfoldable pub add_execution_row :
    ℕ → WorkflowVersion → (project_id : ℕ) → Json → Option ℕ → Store → Store
add_execution_row i version project_id input started_by s = record s {
  executions =
      s.executions
      ++ record {
        id = i;
        workflow_id = version.workflow_id;
        workflow_version_id = version.id;
        project_id = project_id;
        status = WorkflowStatus.draft;
        input = input;
        started_by = started_by;
        started_at = none;
        completed_at = none;
        error = none;
      }
        ∷ [];
}

unfoldable pub create_execution :
    WorkflowVersion → WorkflowDefinition → (project_id : ℕ) → Json → Option ℕ → Action ℕ
unfolding fresh stage_rows add_stage_executions add_execution_row
create_execution version definition project_id input started_by = do
  i ← fresh
  modify (add_execution_row i version project_id input started_by)
  rows ← gets (λ s. stage_rows version.id s.stages [])
  add_stage_executions i rows definition.stages
  pure i

module _ (w : World) where
  unfoldable pub submit : ℕ → ℤ → Action ℕ
  unfolding transition_workflow enqueue
  submit execution_id priority = do
    i ← transition_workflow w execution_id WorkflowStatus.pending none
    enqueue w execution_id priority none
    pure i

  unfoldable pub start : ℕ → Action ℕ
  unfolding transition_workflow
  start execution_id = transition_workflow w execution_id WorkflowStatus.running none

  unfoldable pub pause : ℕ → Action ℕ
  unfolding transition_workflow
  pause execution_id = transition_workflow w execution_id WorkflowStatus.paused none

  unfoldable pub resume : ℕ → Action ℕ
  unfolding transition_workflow
  resume execution_id = transition_workflow w execution_id WorkflowStatus.running none

  -- The body of the loop of `cancel`.
  unfoldable pub cancel_stage : WorkflowStageExecution → Action (Unit {0})
  unfolding transition_stage is_cancellable
  cancel_stage row =
      if is_cancellable row.status
      then (transition_stage w row.id StageStatus.cancelled no_change >> pure tt)
      else pure tt

  unfoldable pub cancel_stages : Pairs → Action (Unit {0})
  unfolding cancel_stage
  cancel_stages [] = pure tt
  cancel_stages (pair ∷ pairs) = cancel_stage pair.0 >> cancel_stages pairs

  unfoldable pub cancel : ℕ → Action ℕ
  unfolding cancel_stages get_stage_executions transition_workflow
  cancel execution_id = do
    pairs ← gets (get_stage_executions execution_id)
    cancel_stages pairs
    transition_workflow w execution_id WorkflowStatus.cancelled none

  -- `stage_row is None or not stage_row.allow_skip`
  abbrev may_skip : Option WorkflowStage → Bool
  may_skip none = false
  may_skip (some row) = row.allow_skip

  unfoldable pub skip_stage : ℕ → Action ℕ
  unfolding get_stage_execution transition_stage
  skip_stage stage_execution_id = do
    row ← get_stage_execution stage_execution_id
    stage_row ← gets (λ s. by_id (λ (r : WorkflowStage). r.id) row.workflow_stage_id s.stages)
    if may_skip stage_row
        then transition_stage w stage_execution_id StageStatus.skipped no_change
        else raise (stage_not_skippable stage_execution_id)
