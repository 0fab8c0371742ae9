-- ===== src/Worker.antt =====
-- apps/worker/src/forgeai_worker/loop.py: one iteration of the worker. `locked` are the queue rows
-- that other transactions have locked; the commit is the caller's.
pub mod Closing
pub mod Iteration
use forge_ai_autonomous_soft.Common.{
  ℕ, Bool, true, false, Option, none, some, List, [], ◌∷◌, Text, if◌then◌else◌, ◌==◌, ltb,
}
use forge_ai_autonomous_soft.Core.{WorkflowStatus, StageStatus, workflow_status_eq, stage_status_eq}
use forge_ai_autonomous_soft.Engine.Session.Rows.{WorkflowQueueEntry, WorkflowStageExecution}
use forge_ai_autonomous_soft.Engine.Session.Actions.{World, Store, Action, pure, gets, ◌>>=◌, ◌>>◌}
use forge_ai_autonomous_soft.Engine.StateManager.{get_execution}
use forge_ai_autonomous_soft.Engine.Queue.{claim_next, enqueue, mark_done}
use forge_ai_autonomous_soft.Engine.Executor.Plan.{Pairs, get_stage_executions}
use forge_ai_autonomous_soft.Engine.Executor.Control.{start}
use forge_ai_autonomous_soft.Engine.Executor.Advance.{advance}

-- The smaller of a time, if there is one, and the minimum of the rest.
abbrev min_option : Option ℕ → Option ℕ → Option ℕ
min_option none rest = rest
min_option (some t) none = some t
min_option (some t) (some u) = some (if ltb u t then u else t)

-- `min(pending_retries) if pending_retries else None`
unfoldable pub min_retry_after : Pairs → Option ℕ
min_retry_after [] = none
min_retry_after ((row, key) ∷ pairs) =
    let rest = min_retry_after pairs in
    if row.status == StageStatus.retrying then min_option row.retry_after rest else rest

unfoldable pub earliest_pending_retry_after : ℕ → Store → Option ℕ
unfolding get_stage_executions min_retry_after
earliest_pending_retry_after execution_id s = min_retry_after (get_stage_executions execution_id s)

module _ (w : World) where
  -- `if execution.status == WorkflowStatus.PENDING: await executor.start(execution_id)`
  unfoldable pub start_if_pending : ℕ → WorkflowStatus → Action ℕ
  unfolding start
  start_if_pending execution_id status =
      if status == WorkflowStatus.pending then start w execution_id else pure execution_id

  -- `if execution.status == WorkflowStatus.RUNNING: ... await queue.enqueue(...)`
  unfoldable pub requeue_if_running : WorkflowQueueEntry → WorkflowStatus → Action ℕ
  unfolding enqueue earliest_pending_retry_after
  requeue_if_running entry status =
      if status == WorkflowStatus.running
      then (do
        retry_after ← gets (earliest_pending_retry_after entry.workflow_execution_id)
        enqueue w entry.workflow_execution_id entry.priority retry_after)
      else pure entry.id

  -- From the re-enqueue on.
  unfoldable pub close : WorkflowQueueEntry → Action Bool
  unfolding get_execution requeue_if_running mark_done
  close entry = do
    execution ← get_execution entry.workflow_execution_id
    requeue_if_running entry execution.status
    mark_done entry.id
    pure true

  -- What is done with an entry that was claimed.
  unfoldable pub drive : WorkflowQueueEntry → Action Bool
  unfolding get_execution start_if_pending advance close
  drive entry = do
    execution ← get_execution entry.workflow_execution_id
    start_if_pending entry.workflow_execution_id execution.status
    advance w entry.workflow_execution_id
    close entry

  abbrev pub drive_found : Option WorkflowQueueEntry → Action Bool
  drive_found none = pure false
  drive_found (some entry) = drive entry

  unfoldable pub run_iteration : List ℕ → Text → Action Bool
  unfolding claim_next drive
  run_iteration locked worker_id = do found ← claim_next w locked worker_id; drive_found found
