-- ===== src/Engine/Evolution/Script.antt =====
-- Any sequence of calls of the executor, by any number of callers that take turns.
use forge_ai_autonomous_soft.Common.{
  ℕ, ℤ, ◌≡◌, refl, sym, eqb, Bool, true, false, Option, none, some, List, [], ◌∷◌, Text, Dict,
  some-injective, subst, ap, ◌∙◌,
}
use forge_ai_autonomous_soft.Core.{WorkflowStatus, StageStatus, ApprovalDecision, stage_status_eq}
use forge_ai_autonomous_soft.Engine.StateMachine.{is_terminal_stage_status}
use forge_ai_autonomous_soft.Engine.StateMachine.Endings.{is_terminal_stage_status_iff}
use forge_ai_autonomous_soft.Engine.Definition.{WorkflowDefinition, StageDefinition}
use forge_ai_autonomous_soft.Engine.Session.Rows.{
  EventPayload, WorkflowEvent, workflow_change, stage_change, Json, WorkflowExecution,
  WorkflowStageExecution, WorkflowVersion,
}
use forge_ai_autonomous_soft.Engine.Session.Actions.{World, Store, Action, modify}
use forge_ai_autonomous_soft.Engine.StateManager.{stage_execution_at}
use forge_ai_autonomous_soft.Engine.Executor.Control.{
  create_execution, add_stage_executions, add_stage_execution, add_stage_row, add_execution_row,
  submit, start, pause, resume, cancel, skip_stage,
}
use forge_ai_autonomous_soft.Engine.Executor.Advance.{advance}
use forge_ai_autonomous_soft.Engine.Executor.Approval.{resolve_approval}
use forge_ai_autonomous_soft.Engine.Evolution.{
  Evolves, Evolving, StageTrail, StageStep, StageMove, WorkflowTrail, Onward, stage_status,
}
use forge_ai_autonomous_soft.Engine.Evolution.Rules.{
  Evolving-bind, Evolving-pure, Evolves-refl, Evolves-trans, Extends-refl, nothing_added,
  workflow_rests, stage_rests, Onward-append,
}
use forge_ai_autonomous_soft.Engine.Evolution.Transitions.{transition_workflow-Evolving}
use forge_ai_autonomous_soft.Engine.Evolution.Operations.{
  transitions, submit-Evolving, cancel-Evolving, skip_stage-Evolving,
}
use forge_ai_autonomous_soft.Engine.Evolution.Ticks.{advance-Evolving}
use forge_ai_autonomous_soft.Engine.Evolution.Approvals.{resolve_approval-Evolving}

-- A call of one of the executor's methods.
pub data Operation : Type 0 where
  create : WorkflowVersion → WorkflowDefinition → (project_id : ℕ) → Json → Option ℕ → Operation
  submit_op : ℕ → ℤ → Operation
  start_op pause_op resume_op cancel_op skip_op advance_op : ℕ → Operation
  resolve_op : ℕ → ApprovalDecision → Option ℕ → Option Text → Operation

unfoldable pub perform : World → Operation → Action ℕ
unfolding create_execution submit start pause resume cancel skip_stage advance resolve_approval
perform w (create version definition project_id input by) =
    create_execution version definition project_id input by
perform w (submit_op i priority) = submit w i priority
perform w (start_op i) = start w i
perform w (pause_op i) = pause w i
perform w (resume_op i) = resume w i
perform w (cancel_op i) = cancel w i
perform w (skip_op i) = skip_stage w i
perform w (advance_op i) = advance w i
perform w (resolve_op i decision by comment) = resolve_approval w i decision by comment

-- A call that raises leaves what it had written.
unfoldable pub play : World → List Operation → Store → Store
unfolding perform
play w [] s = s
play w (op ∷ ops) s = play w ops (perform w op s).1

add_stage_row-Evolving : (i j k : ℕ) → Evolving (modify (add_stage_row i j k))
unfolding add_stage_row
add_stage_row-Evolving i j k = record {
  at = λ s. record {
    workflows = λ i. workflow_rests i _;
    stages = λ n.
        Onward-append (λ (r : WorkflowStageExecution). r.id) (StageTrail n []) (λ a. refl)
          (λ (r : WorkflowStageExecution). some r.status) n s.stage_executions _;
    decisions = (Evolves-refl s).decisions;
    events = ([], nothing_added s.events);
    runner_calls = Extends-refl s.runner_calls;
    queue = Extends-refl s.queue;
  };
}

add_execution_row-Evolving :
    (i : ℕ) (version : WorkflowVersion) (p : ℕ) (input : Json) (by : Option ℕ)
    → Evolving (modify (add_execution_row i version p input by))
unfolding add_execution_row
add_execution_row-Evolving i version p input by = record {
  at = λ s. record {
    workflows = λ n.
        Onward-append (λ (r : WorkflowExecution). r.id) (WorkflowTrail n []) (λ a. refl)
          (λ (r : WorkflowExecution). some r.status) n s.executions _;
    stages = λ i. stage_rests i _;
    decisions = (Evolves-refl s).decisions;
    events = ([], nothing_added s.events);
    runner_calls = Extends-refl s.runner_calls;
    queue = Extends-refl s.queue;
  };
}

add_stage_execution-Evolving :
    (i : ℕ) (rows : Dict Text ℕ) (stage_def : StageDefinition)
    → Evolving (add_stage_execution i rows stage_def)
unfolding add_stage_execution
add_stage_execution-Evolving i rows stage_def = search (transitions, add_stage_row-Evolving)

add_stage_executions-Evolving :
    (i : ℕ) (rows : Dict Text ℕ) (stages : List StageDefinition)
    → Evolving (add_stage_executions i rows stages)
unfolding add_stage_executions
add_stage_executions-Evolving i rows [] = Evolving-pure tt
add_stage_executions-Evolving i rows (stage_def ∷ stages) =
    Evolving-bind (add_stage_execution i rows stage_def) (λ _. add_stage_executions i rows stages)
      (add_stage_execution-Evolving i rows stage_def)
      (λ _. add_stage_executions-Evolving i rows stages)

create_execution-Evolving :
    (version : WorkflowVersion) (definition : WorkflowDefinition) (p : ℕ) (input : Json)
    (by : Option ℕ)
    → Evolving (create_execution version definition p input by)
unfolding create_execution
create_execution-Evolving version definition p input by =
    search (transitions, add_execution_row-Evolving, add_stage_executions-Evolving) depth 7

perform-Evolving : (w : World) (op : Operation) → Evolving (perform w op)
unfolding perform start pause resume
perform-Evolving w (create version definition p input by) =
    create_execution-Evolving version definition p input by
perform-Evolving w (submit_op i priority) = submit-Evolving w i priority
perform-Evolving w (start_op i) = transition_workflow-Evolving w i WorkflowStatus.running none
perform-Evolving w (pause_op i) = transition_workflow-Evolving w i WorkflowStatus.paused none
perform-Evolving w (resume_op i) = transition_workflow-Evolving w i WorkflowStatus.running none
perform-Evolving w (cancel_op i) = cancel-Evolving w i
perform-Evolving w (skip_op i) = skip_stage-Evolving w i
perform-Evolving w (advance_op i) = advance-Evolving w i
perform-Evolving w (resolve_op i decision by comment) =
    resolve_approval-Evolving w i decision by comment

-- Whatever calls of the executor are made, in whatever order, whichever of them raise, and whatever
-- the runner and the clock do: events are only added at the end, and the events added take every
-- workflow and every stage that there was from the status it had to the one it has, each event of it
-- by one step that the transition table allows; no recorded approval decision changes, and runner
-- calls and queue entries are only added at the end.
pub play-Evolves : (w : World) (ops : List Operation) (s : Store) → Evolves s (play w ops s)
unfolding play
play-Evolves w [] s = Evolves-refl s
play-Evolves w (op ∷ ops) s =
    Evolves-trans s (perform w op s).1 _ ((perform-Evolving w op).at s) (play-Evolves w ops _)

terminal_move :
    (own : Bool) (previous new : Text) (a b : StageStatus)
    → is_terminal_stage_status a ≡ true
    → StageMove own previous new a b
    → b ≡ a
terminal_move true previous new a b h (_, _, allowed) =
    let refused = (is_terminal_stage_status_iff a).0 h b in absurd (cc)
terminal_move false previous new a b h same = sym same

terminal_step :
    (i : ℕ) (payload : EventPayload) (a b : StageStatus)
    → is_terminal_stage_status a ≡ true
    → StageStep i payload a b
    → b ≡ a
terminal_step i (workflow_change previous new) a b h same = sym same
terminal_step i (stage_change stage previous new) a b h step =
    terminal_move (eqb stage i) previous new a b h step

terminal_stays :
    (i : ℕ) (events : List WorkflowEvent) (s t : StageStatus)
    → is_terminal_stage_status s ≡ true
    → StageTrail i events s t
    → t ≡ s
terminal_stays i [] s t h e = sym e
terminal_stays i (event ∷ events) s t h (b, step, later) =
    let same = terminal_step i event.payload s b h step in
    terminal_stays i events b t (subst (λ x. is_terminal_stage_status x ≡ true) (sym same) h) later
    ∙ same

-- A stage execution that is completed, skipped or cancelled keeps that status through any calls of
-- the executor.
pub terminal_stage_stays :
    (w : World) (ops : List Operation) (s : Store) (i : ℕ) (st : StageStatus)
    → stage_status (stage_execution_at i s) ≡ some st
    → is_terminal_stage_status st ≡ true
    → stage_status (stage_execution_at i (play w ops s)) ≡ some st
terminal_stage_stays w ops s i st h terminal =
    kept _ _ h ((play-Evolves w ops s).events.0) ((play-Evolves w ops s).stages i)
  where
    kept :
        (o o' : Option StageStatus)
        → o ≡ some st
        → (events : List WorkflowEvent) → Onward (StageTrail i events) o o'
        → o' ≡ some st
    kept none o' e events m = absurd (cc)
    kept (some a) none e events m = absurd m
    kept (some a) (some b) e events m =
        ap some (
          terminal_stays i events a b
            (subst (λ x. is_terminal_stage_status x ≡ true) (sym (some-injective _ _ e)) terminal)
            m)
        ∙ e
