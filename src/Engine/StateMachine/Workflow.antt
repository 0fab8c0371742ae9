-- ===== src/Engine/StateMachine/Workflow.antt =====
-- `class WorkflowStateMachine` of state_machine.py. A `datetime.now` is an argument.
use forge_ai_autonomous_soft.Common.{ℕ, Bool, List, [], ◌∷◌, ◌++◌, elem}
use forge_ai_autonomous_soft.Core.{WorkflowStatus, workflow_status_eq}
use forge_ai_autonomous_soft.Engine.Errors.{Result, ok, ◌>>◌}
use forge_ai_autonomous_soft.Engine.StateMachine.{
  workflow_transitions, is_terminal_workflow_status, validate_workflow_transition,
}

pub record WorkflowStateMachine : Type 0 where
  pub status : WorkflowStatus
  pub history : List (WorkflowStatus × ℕ)

-- `__init__`
unfoldable pub init : WorkflowStatus → ℕ → WorkflowStateMachine
init initial now = record { status = initial; history = (initial, now) ∷ [] }

unfoldable pub can_transition_to : WorkflowStatus → WorkflowStateMachine → Bool
unfolding workflow_transitions
can_transition_to target m = elem target (workflow_transitions m.status)

unfoldable pub transition_to :
    WorkflowStatus → ℕ → WorkflowStateMachine → Result WorkflowStateMachine
unfolding validate_workflow_transition
transition_to target now m =
    validate_workflow_transition m.status target
    >> ok (record { status = target; history = m.history ++ (target, now) ∷ [] })

unfoldable pub is_terminal : WorkflowStateMachine → Bool
unfolding is_terminal_workflow_status
is_terminal m = is_terminal_workflow_status m.status
