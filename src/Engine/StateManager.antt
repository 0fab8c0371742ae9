-- ===== src/Engine/StateManager.antt =====
-- services/workflow_engine/src/forgeai_workflow_engine/state_manager.py.
pub mod Workflow
pub mod Stage
use forge_ai_autonomous_soft.Common.{
  ℕ, ◌+◌, ◌-◌, ℤ, sub_ℕ, Bool, true, false, ◌&&◌, ◌||◌, not, Option, none, some, List, [], ◌∷◌,
  ◌++◌, Text, codes, eqb, ltb, if◌then◌else◌, elem, length, select, ◌==◌,
}
use forge_ai_autonomous_soft.Core.{
  WorkflowStatus, StageStatus, workflow_status_eq, stage_status_eq, workflow_value, stage_value,
}
use forge_ai_autonomous_soft.Engine.Errors.{
  execution_not_found, stage_execution_not_found, integrity_error,
}
use forge_ai_autonomous_soft.Engine.StateMachine.{
  validate_workflow_transition, validate_stage_transition,
}
use forge_ai_autonomous_soft.Engine.EventBus.{publish}
use forge_ai_autonomous_soft.Engine.Session.Rows.{
  Json, WorkflowExecution, WorkflowStageExecution, WorkflowQueueEntry, WorkflowEvent,
  WorkflowMetric, workflow_change, stage_change,
}
use forge_ai_autonomous_soft.Engine.Session.Actions.{
  World, Store, Action, pure, raise, gets, lift, or_raise, by_id, update, modify, ◌>>=◌, ◌>>◌, now,
}

-- `_TERMINAL_WORKFLOW`
unfoldable pub ends_workflow : WorkflowStatus → Bool
ends_workflow status =
    elem status (WorkflowStatus.completed ∷ WorkflowStatus.failed ∷ WorkflowStatus.cancelled ∷ [])

-- `_TERMINAL_STAGE`
unfoldable pub ends_stage : StageStatus → Bool
ends_stage status =
    elem status (
      StageStatus.completed ∷ StageStatus.failed ∷ StageStatus.skipped ∷ StageStatus.cancelled ∷ [])

abbrev pub execution_at : ℕ → Store → Option WorkflowExecution
execution_at i s = by_id (λ (row : WorkflowExecution). row.id) i s.executions

abbrev pub stage_execution_at : ℕ → Store → Option WorkflowStageExecution
stage_execution_at i s = by_id (λ (row : WorkflowStageExecution). row.id) i s.stage_executions

unfoldable pub get_execution : ℕ → Action WorkflowExecution
get_execution execution_id = do
  or_raise (execution_not_found execution_id) (← gets (execution_at execution_id))

unfoldable pub get_stage_execution : ℕ → Action WorkflowStageExecution
get_stage_execution stage_execution_id = do
  or_raise (stage_execution_not_found stage_execution_id)
      (← gets (stage_execution_at stage_execution_id))

abbrev or_else {ℓ} : {A : Type ℓ} → Option A → Option A → Option A
or_else none b = b
or_else (some a) b = some a

-- The assignments of `transition_workflow` to the row.
unfoldable pub move_execution :
    WorkflowStatus → ℕ → Option Text → WorkflowExecution → WorkflowExecution
unfolding ends_workflow
move_execution target at error row = record row {
  status = target;
  started_at =
      if target == WorkflowStatus.running then or_else row.started_at (some at) else row.started_at;
  completed_at = if ends_workflow target then some at else row.completed_at;
  error = or_else error row.error;
}

-- The keyword arguments of `transition_stage`.
pub record StageChange : Type 0 where
  pub error : Option Text
  pub output : Option Json
  pub retry_after : Option ℕ
  pub attempt_number : Option ℕ
  pub reset_started_at : Bool

abbrev pub no_change : StageChange
no_change = record {
  error = none;
  output = none;
  retry_after = none;
  attempt_number = none;
  reset_started_at = false;
}

-- The assignments of `transition_stage` to the row.
unfoldable pub move_stage :
    StageStatus → ℕ → StageChange → WorkflowStageExecution → WorkflowStageExecution
unfolding ends_stage
move_stage target at change row = record row {
  status = target;
  started_at =
      if change.reset_started_at
      then some at
      else if target == StageStatus.running
      then or_else row.started_at (some at)
      else row.started_at;
  completed_at = if ends_stage target then some at else row.completed_at;
  error = or_else change.error row.error;
  output = or_else change.output row.output;
  attempt_number = elim change.attempt_number [ none ↦ row.attempt_number | some n ↦ n ];
  retry_after = change.retry_after;
}

abbrev add_event : WorkflowEvent → Store → Store
add_event event s = record s { events = s.events ++ event ∷ [] }

unfoldable pub publish_event : World → WorkflowEvent → Action (Unit {0})
unfolding publish
publish_event w event = modify (λ s. record s { bus = publish w.raises event s.bus })

abbrev earliest : Option ℕ → ℕ → Option ℕ
earliest none t = some t
earliest (some u) t = some (if ltb t u then t else u)

-- `min(created_at)` of the queue entries of an execution.
unfoldable pub first_queued_at : ℕ → List WorkflowQueueEntry → Option ℕ
first_queued_at execution_id [] = none
first_queued_at execution_id (e ∷ es) =
    let rest = first_queued_at execution_id es in
    if eqb e.workflow_execution_id execution_id then earliest rest e.created_at else rest

abbrev between : Option ℕ → Option ℕ → Option ℤ
between none to = none
between (some from) none = none
between (some from) (some to) = some (sub_ℕ to from)

abbrev pub rows_of : ℕ → List WorkflowStageExecution → List WorkflowStageExecution
rows_of execution_id =
    select (λ (row : WorkflowStageExecution). eqb row.workflow_execution_id execution_id)

unfoldable pub count_status : StageStatus → List WorkflowStageExecution → ℕ
count_status status rows =
    length (select (λ (row : WorkflowStageExecution). row.status == status) rows)

-- `sum(max(0, attempt - 1))`
unfoldable pub retries_total : List WorkflowStageExecution → ℕ
retries_total [] = 0
retries_total (row ∷ rows) = row.attempt_number - 1 + retries_total rows

unfoldable pub metric_of : WorkflowExecution → Store → WorkflowMetric
unfolding count_status retries_total first_queued_at
metric_of execution s =
    let rows = rows_of execution.id s.stage_executions in
    record {
      workflow_execution_id = execution.id;
      total_duration = between execution.started_at execution.completed_at;
      queue_wait = between (first_queued_at execution.id s.queue) execution.started_at;
      stages_completed = count_status StageStatus.completed rows;
      stages_failed = count_status StageStatus.failed rows;
      retries_total = retries_total rows;
    }

unfoldable pub has_metric : ℕ → List WorkflowMetric → Bool
has_metric execution_id [] = false
has_metric execution_id (m ∷ ms) =
    eqb m.workflow_execution_id execution_id || has_metric execution_id ms

-- `_record_metric`; the column `workflow_execution_id` is unique, which the flush checks.
unfoldable pub record_metric : WorkflowExecution → Action (Unit {0})
unfolding metric_of has_metric
record_metric execution s =
    if has_metric execution.id s.metrics
    then raise integrity_error s
    else modify (λ s. record s { metrics = s.metrics ++ metric_of execution s ∷ [] }) s

abbrev pub workflow_event : ℕ → WorkflowStatus → WorkflowStatus → WorkflowEvent
workflow_event execution_id previous target = record {
  workflow_execution_id = execution_id;
  event_type = codes "workflow." ++ workflow_value target;
  payload = workflow_change (workflow_value previous) (workflow_value target);
}

abbrev pub stage_event : WorkflowStageExecution → StageStatus → WorkflowEvent
stage_event row target = record {
  workflow_execution_id = row.workflow_execution_id;
  event_type = codes "stage." ++ stage_value target;
  payload = stage_change row.id (stage_value row.status) (stage_value target);
}

-- What is written when the transition is allowed.
unfoldable pub write_workflow : ℕ → WorkflowStatus → ℕ → Option Text → WorkflowEvent → Store → Store
unfolding move_execution
write_workflow execution_id target at error event s = add_event event (record s {
  executions =
      update (λ (row : WorkflowExecution). row.id) execution_id (move_execution target at error)
        s.executions;
})

unfoldable pub write_stage : ℕ → StageStatus → ℕ → StageChange → WorkflowEvent → Store → Store
unfolding move_stage
write_stage stage_execution_id target at change event s = add_event event (record s {
  stage_executions =
      update (λ (row : WorkflowStageExecution). row.id) stage_execution_id
        (move_stage target at change) s.stage_executions;
})

unfoldable pub record_if_ended : ℕ → WorkflowStatus → Action (Unit {0})
unfolding ends_workflow record_metric get_execution
record_if_ended execution_id target =
    if ends_workflow target then (get_execution execution_id >>= record_metric) else pure tt

-- The result is the id of the row.
unfoldable pub transition_workflow : World → ℕ → WorkflowStatus → Option Text → Action ℕ
unfolding get_execution validate_workflow_transition now write_workflow record_if_ended
    publish_event
transition_workflow w execution_id target error = do
  execution ← get_execution execution_id
  lift (validate_workflow_transition execution.status target)
  at ← now w
  let event = workflow_event execution_id execution.status target
  modify (write_workflow execution_id target at error event)
  record_if_ended execution_id target
  publish_event w event
  pure execution_id

unfoldable pub transition_stage : World → ℕ → StageStatus → StageChange → Action ℕ
unfolding get_stage_execution validate_stage_transition now write_stage publish_event
transition_stage w stage_execution_id target change = do
  row ← get_stage_execution stage_execution_id
  lift (validate_stage_transition row.status target)
  at ← now w
  let event = stage_event row target
  modify (write_stage stage_execution_id target at change event)
  publish_event w event
  pure stage_execution_id
