-- ===== src/Engine/Executor/Advance.antt =====
-- executor.py: `advance`, one tick.
use forge_ai_autonomous_soft.Common.{
  ℕ, Bool, false, not, ◌&&◌, Option, none, some, List, [], ◌∷◌, ◌++◌, Text, text_eq, if◌then◌else◌,
  all, ◌==◌, leb, lookup, keys,
}
use forge_ai_autonomous_soft.Core.{WorkflowStatus, StageStatus, stage_status_eq, workflow_status_eq}
use forge_ai_autonomous_soft.Engine.Definition.{WorkflowDefinition, StageDefinition, stage}
use forge_ai_autonomous_soft.Engine.Errors.{Result, ok, err}
use forge_ai_autonomous_soft.Engine.StateManager.{
  transition_workflow, transition_stage, no_change, get_execution, stage_execution_at,
}
use forge_ai_autonomous_soft.Engine.Executor.Plan.{
  Statuses, Ids, item, stage_of, load_definition, get_stage_executions, status_by_key, se_by_key,
  dependency_done,
}
use forge_ai_autonomous_soft.Engine.Executor.Stages.{
  Outcome, run_and_apply_stage_result, check_completion,
}
use forge_ai_autonomous_soft.Engine.Executor.Reap.{reap_timed_out_stage, request_approval}
use forge_ai_autonomous_soft.Engine.Session.Rows.{WorkflowExecution, WorkflowStageExecution, gate}
use forge_ai_autonomous_soft.Engine.Session.Actions.{
  World, Store, Action, pure, lift, gets, ◌>>=◌, ◌>>◌, now,
}

-- `retry_after is not None and retry_after <= now`, of the row of a key.
abbrev backoff_over : ℕ → Option WorkflowStageExecution → Bool
backoff_over at none = false
backoff_over at (some row) = elim row.retry_after [ none ↦ false | some t ↦ leb t at ]

abbrev row_of : Option ℕ → Store → Option WorkflowStageExecution
row_of none s = none
row_of (some i) s = stage_execution_at i s

-- `retry_ready_keys`; every key of the one dict is a key of the other.
unfoldable pub retry_ready_keys : Ids → ℕ → Store → Statuses → List Text
retry_ready_keys ids at s [] = []
retry_ready_keys ids at s ((key, status) ∷ rest) =
    let others = retry_ready_keys ids at s rest in
    if status == StageStatus.retrying && backoff_over at (row_of (lookup key ids) s)
    then key ∷ others
    else others

-- `pending_ready_keys`; `definition.stage(key)` may raise.
unfoldable pub pending_ready_keys : WorkflowDefinition → Statuses → Statuses → Result (List Text)
unfolding stage dependency_done
pending_ready_keys definition statuses [] = ok []
pending_ready_keys definition statuses ((key, status) ∷ rest) =
    let others = pending_ready_keys definition statuses rest in
    if status == StageStatus.pending
    then elim (stage key definition) [
      | err e ↦ err e
      | ok stage_def ↦ elim others [
        | err e ↦ err e
        | ok keys ↦
            ok (if all (dependency_done statuses) stage_def.depends_on then key ∷ keys else keys)
      ]
    ]
    else others

module _ (w : World) where
  -- The approval gate of a stage that is about to run for the first time.
  unfoldable pub open_gate : ℕ → StageDefinition → ℕ → Action ℕ
  unfolding request_approval transition_stage transition_workflow
  open_gate execution_id stage_def se_id = do
    request_approval execution_id se_id (gate stage_def.id stage_def.name)
    transition_stage w se_id StageStatus.waiting_approval no_change
    transition_workflow w execution_id WorkflowStatus.waiting_approval none

  module _ (execution : WorkflowExecution) (definition : WorkflowDefinition) (ids : Ids)
      (at : ℕ) where
    -- The body of the loop over the ready keys.
    unfoldable pub advance_key : Text → Statuses → Action (Outcome w)
    unfolding stage open_gate run_and_apply_stage_result
    advance_key key statuses = do
      stage_def ← stage_of key definition
      se_id ← item key ids
      status ← item key statuses
      let is_retry = status == StageStatus.retrying
      if not is_retry && stage_def.requires_approval
          then (do i ← open_gate execution.id stage_def se_id; pure (some i, statuses))
          else run_and_apply_stage_result w execution definition stage_def se_id statuses ids
              is_retry at

    unfoldable pub advance_keys : List Text → Statuses → Action (Outcome w)
    unfolding advance_key
    advance_keys [] statuses = pure (none, statuses)
    advance_keys (key ∷ rest) statuses = do
      outcome ← advance_key key statuses
      elim outcome.0 [ none ↦ advance_keys rest outcome.1 | some i ↦ pure (some i, outcome.1) ]

    -- The completion check behind the loop.
    unfoldable pub finish : Statuses → Action ℕ
    unfolding check_completion get_execution
    finish statuses = do
      completed ← check_completion w execution.id statuses
      elim completed [
        | none ↦ (do found ← get_execution execution.id; pure found.id)
        | some i ↦ pure i
      ]

    -- What follows the choice of the ready keys.
    unfoldable pub advance_ready : List Text → Statuses → Action ℕ
    unfolding advance_keys finish
    advance_ready [] statuses = do
      completed ← check_completion w execution.id statuses
      elim completed [ none ↦ pure execution.id | some i ↦ pure i ]
    advance_ready (key ∷ rest) statuses = do
      outcome ← advance_keys (key ∷ rest) statuses
      elim outcome.0 [ none ↦ finish outcome.1 | some i ↦ pure i ]

  -- The choice of the ready keys, and what follows.
  unfoldable pub choose : WorkflowExecution → WorkflowDefinition → Ids → ℕ → Statuses → Action ℕ
  unfolding retry_ready_keys pending_ready_keys advance_ready
  choose execution definition ids at statuses = do
    retries ← gets (λ s. retry_ready_keys ids at s statuses)
    pending ← lift (pending_ready_keys definition statuses statuses)
    advance_ready execution definition ids at (retries ++ pending) statuses

  -- A tick of a workflow that is RUNNING.
  unfoldable pub tick : WorkflowExecution → Action ℕ
  unfolding load_definition get_stage_executions status_by_key se_by_key now reap_timed_out_stage
      choose
  tick execution = do
    definition ← load_definition w execution.workflow_version_id
    pairs ← gets (get_stage_executions execution.id)
    at ← now w
    reaped ← reap_timed_out_stage w execution definition (status_by_key pairs) (se_by_key pairs) at
    elim reaped [
      | none ↦ choose execution definition (se_by_key pairs) at (status_by_key pairs)
      | some i ↦ pure i
    ]

  unfoldable pub advance : ℕ → Action ℕ
  unfolding get_execution tick
  advance execution_id = do
    execution ← get_execution execution_id
    if execution.status == WorkflowStatus.running then tick execution else pure execution.id
