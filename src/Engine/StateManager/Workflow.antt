-- ===== src/Engine/StateManager/Workflow.antt =====
-- `transition_workflow` on its branches.
use forge_ai_autonomous_soft.Common.{
  ℕ, ◌+◌, ◌≡◌, true, false, Option, none, some, codes, elem, Text,
}
use forge_ai_autonomous_soft.Core.{WorkflowStatus, workflow_status_eq, workflow_value}
use forge_ai_autonomous_soft.Engine.Errors.{err, execution_not_found, invalid_transition}
use forge_ai_autonomous_soft.Engine.StateMachine.{workflow_transitions}
use forge_ai_autonomous_soft.Engine.Session.Rows.{WorkflowExecution, WorkflowEvent}
use forge_ai_autonomous_soft.Engine.Session.Actions.{World, Store, Action, pure, ◌>>◌}
use forge_ai_autonomous_soft.Engine.StateManager.{
  execution_at, transition_workflow, write_workflow, workflow_event, record_if_ended, publish_event,
}

-- The tables once the row and the event of an allowed transition are written.
abbrev pub workflow_written :
    World → ℕ → WorkflowExecution → WorkflowStatus → Option Text → Store → Store
workflow_written w i row target error s =
    write_workflow i target (w.time s.clock_reads) error (workflow_event i row.status target)
      (record s { clock_reads = s.clock_reads + 1 })

-- What follows: the metric, the event's subscribers, the result.
abbrev pub workflow_followed : World → ℕ → WorkflowStatus → WorkflowEvent → Action ℕ
workflow_followed w i target event = do record_if_ended i target; publish_event w event; pure i

module _ (w : World) (i : ℕ) (target : WorkflowStatus) (error : Option Text) (s : Store) where
  pub transition_workflow_missing :
      execution_at i s ≡ none
      → transition_workflow w i target error s ≡ (err (execution_not_found i), s)
  unfolding transition_workflow
  transition_workflow_missing h = rw h

  module _ {row : WorkflowExecution} (found : execution_at i s ≡ some row) where
    pub transition_workflow_refused :
        elem target (workflow_transitions row.status) ≡ false
        → transition_workflow w i target error s ≡ (
          err (
              invalid_transition
                (workflow_value row.status)
                (workflow_value target)
                (codes "workflow")),
          s,
        )
    unfolding transition_workflow
    transition_workflow_refused h = rw (found, h)

    pub transition_workflow_allowed :
        elem target (workflow_transitions row.status) ≡ true
        → transition_workflow w i target error s
          ≡ workflow_followed w i target
              (workflow_event i row.status target)
              (workflow_written w i row target error s)
    unfolding transition_workflow
    transition_workflow_allowed h = rw (found, h)
