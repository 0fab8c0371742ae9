-- ===== src/Engine/Evolution/Transitions.antt =====
-- The two transitions of the state manager evolve the tables.
use forge_ai_autonomous_soft.Common.{
  ℕ, ◌≡◌, refl, ◌∙◌, Option, some, List, [], elem, arith, Bool-cases, Option-cases, inl, inr, Text,
}
use forge_ai_autonomous_soft.Core.{WorkflowStatus, StageStatus, stage_status_eq, workflow_status_eq}
use forge_ai_autonomous_soft.Engine.StateMachine.{stage_transitions, workflow_transitions}
use forge_ai_autonomous_soft.Engine.Session.Rows.{
  WorkflowExecution, WorkflowStageExecution, WorkflowEvent,
}
use forge_ai_autonomous_soft.Engine.Session.Actions.{World, Store}
use forge_ai_autonomous_soft.Engine.StateManager.{
  StageChange, stage_execution_at, transition_stage, transition_workflow, execution_at,
  record_metric, publish_event, record_if_ended, get_execution, get_stage_execution,
}
use forge_ai_autonomous_soft.Engine.StateManager.Stage.{
  transition_stage_missing, transition_stage_refused, transition_stage_allowed,
}
use forge_ai_autonomous_soft.Engine.StateManager.Workflow.{
  workflow_followed, transition_workflow_missing, transition_workflow_refused,
  transition_workflow_allowed,
}
use forge_ai_autonomous_soft.Engine.Evolution.Moves.{stage_moved-Evolves, workflow_written-Evolves}
use forge_ai_autonomous_soft.Engine.Evolution.{Evolves, Extends, Evolving}
use forge_ai_autonomous_soft.Engine.Evolution.Rules.{
  Evolves-refl, Evolves-trans, Extends-refl, nothing_added, workflow_rests, stage_rests,
  evolving_rules,
}

Extends-same : {A : Type 0} (xs ys : List A) → ys ≡ xs → Extends xs ys
Extends-same xs ys e = rw e (Extends-refl xs)

-- A write to the queue's end at most.
pub aside :
    (s t : Store)
    → t.executions ≡ s.executions
    → t.stage_executions ≡ s.stage_executions
    → t.approvals ≡ s.approvals
    → t.events ≡ s.events
    → t.runner_calls ≡ s.runner_calls
    → Extends s.queue t.queue
    → Evolves s t
aside s t a b c d e q = record {
  workflows = λ j. rw a (workflow_rests j _);
  stages = λ j. rw b (stage_rests j _);
  decisions = λ j. rw c ((Evolves-refl s).decisions j);
  events = ([], d ∙ nothing_added s.events);
  runner_calls = rw e (Extends-refl s.runner_calls);
  queue = q;
}

record_metric-Evolving : (row : WorkflowExecution) → Evolving (record_metric row)
unfolding record_metric
record_metric-Evolving row = record {
  at = λ s.
      aside s _ (ground arith) (ground arith) (ground arith) (ground arith) (ground arith)
        (Extends-same s.queue _ (ground arith));
}

publish_event-Evolving : (w : World) (event : WorkflowEvent) → Evolving (publish_event w event)
unfolding publish_event
publish_event-Evolving w event = record {
  at = λ s. aside s _ refl refl refl refl refl (Extends-refl s.queue);
}

pub get_execution-Evolving : (i : ℕ) → Evolving (get_execution i)
unfolding get_execution
get_execution-Evolving i = search evolving_rules

pub get_stage_execution-Evolving : (i : ℕ) → Evolving (get_stage_execution i)
unfolding get_stage_execution
get_stage_execution-Evolving i = search evolving_rules

record_if_ended-Evolving : (i : ℕ) (target : WorkflowStatus) → Evolving (record_if_ended i target)
unfolding record_if_ended
record_if_ended-Evolving i target =
    search (evolving_rules, record_metric-Evolving, get_execution-Evolving)

workflow_followed-Evolving :
    (w : World) (i : ℕ) (target : WorkflowStatus) (event : WorkflowEvent)
    → Evolving (workflow_followed w i target event)
workflow_followed-Evolving w i target event =
    search (evolving_rules, record_if_ended-Evolving, publish_event-Evolving)

pub transition_workflow-Evolving :
    (w : World) (i : ℕ) (target : WorkflowStatus) (error : Option Text)
    → Evolving (transition_workflow w i target error)
transition_workflow-Evolving w i target error = record { at = evolves }
  where
    moves :
        (s : Store) (row : WorkflowExecution)
        → execution_at i s ≡ some row
        → Evolves s (transition_workflow w i target error s).1
    moves s row found = elim (Bool-cases (elem target (workflow_transitions row.status))) [
      | inl allowed ↦ rw (transition_workflow_allowed w i target error s found allowed) (
          Evolves-trans s _ _ (workflow_written-Evolves w i row target error s found allowed)
            ((workflow_followed-Evolving w i target _).at _))
      | inr refused ↦
          rw (transition_workflow_refused w i target error s found refused) (Evolves-refl s)
    ]

    evolves : (s : Store) → Evolves s (transition_workflow w i target error s).1
    evolves s = elim (Option-cases (execution_at i s)) [
      | inl missing ↦ rw (transition_workflow_missing w i target error s missing) (Evolves-refl s)
      | inr (row, found) ↦ moves s row found
    ]

pub transition_stage-Evolving :
    (w : World) (i : ℕ) (target : StageStatus) (change : StageChange)
    → Evolving (transition_stage w i target change)
transition_stage-Evolving w i target change = record { at = evolves }
  where
    moves :
        (s : Store) (row : WorkflowStageExecution)
        → stage_execution_at i s ≡ some row
        → Evolves s (transition_stage w i target change s).1
    moves s row found = elim (Bool-cases (elem target (stage_transitions row.status))) [
      | inl allowed ↦
          rw (transition_stage_allowed w i target change s found allowed)
            (stage_moved-Evolves w i row target change s found allowed)
      | inr refused ↦
          rw (transition_stage_refused w i target change s found refused) (Evolves-refl s)
    ]

    evolves : (s : Store) → Evolves s (transition_stage w i target change s).1
    evolves s = elim (Option-cases (stage_execution_at i s)) [
      | inl missing ↦ rw (transition_stage_missing w i target change s missing) (Evolves-refl s)
      | inr (row, found) ↦ moves s row found
    ]
