-- ===== src/Engine/Evolution.antt =====
-- How the tables may change under the engine's operations: statuses move by the steps of the
-- transition tables that the events tell, the logs only grow, and decided approvals stay.
pub mod Rules
pub mod Moves
pub mod Transitions
pub mod Operations
pub mod Ticks
pub mod Approvals
pub mod Script
use forge_ai_autonomous_soft.Common.{
  ℕ, ◌≡◌, eqb, Bool, true, false, Option, none, some, List, [], ◌∷◌, ◌++◌, elem, Text,
}
use forge_ai_autonomous_soft.Core.{
  WorkflowStatus, StageStatus, stage_status_eq, workflow_status_eq, ApprovalDecision, stage_value,
  workflow_value,
}
use forge_ai_autonomous_soft.Engine.StateMachine.{stage_transitions, workflow_transitions}
use forge_ai_autonomous_soft.Engine.Session.Rows.{
  WorkflowExecution, WorkflowStageExecution, WorkflowApproval, WorkflowEvent, EventPayload,
  workflow_change, stage_change,
}
use forge_ai_autonomous_soft.Engine.Session.Actions.{Store, Action, by_id}
use forge_ai_autonomous_soft.Engine.StateManager.{execution_at, stage_execution_at}

-- An event that is the row's own is one step of the table, from the status that it names first to the
-- one it names then; any other event leaves the status.
abbrev pub WorkflowMove : Bool → (previous new : Text) → WorkflowStatus → WorkflowStatus → Type 0
WorkflowMove true previous new a b =
    (previous ≡ workflow_value a)
    × (new ≡ workflow_value b)
    × (elem b (workflow_transitions a) ≡ true)
WorkflowMove false previous new a b = a ≡ b

abbrev pub StageMove : Bool → (previous new : Text) → StageStatus → StageStatus → Type 0
StageMove true previous new a b =
    (previous ≡ stage_value a) × (new ≡ stage_value b) × (elem b (stage_transitions a) ≡ true)
StageMove false previous new a b = a ≡ b

-- What the payload of one event tells of a workflow, if the event is of its execution or not.
abbrev pub WorkflowStep : Bool → EventPayload → WorkflowStatus → WorkflowStatus → Type 0
WorkflowStep own (workflow_change previous new) a b = WorkflowMove own previous new a b
WorkflowStep own (stage_change stage previous new) a b = a ≡ b

-- And of a stage.
abbrev pub StageStep : ℕ → EventPayload → StageStatus → StageStatus → Type 0
StageStep i (workflow_change previous new) a b = a ≡ b
StageStep i (stage_change stage previous new) a b = StageMove (eqb stage i) previous new a b

-- The events take the status from the first to the second, one after the other.
abbrev pub WorkflowTrail : ℕ → List WorkflowEvent → WorkflowStatus → WorkflowStatus → Type 0
WorkflowTrail i [] a c = a ≡ c
WorkflowTrail i (event ∷ events) a c =
    (b : WorkflowStatus) × WorkflowStep (eqb event.workflow_execution_id i) event.payload a b
    × WorkflowTrail i events b c

abbrev pub StageTrail : ℕ → List WorkflowEvent → StageStatus → StageStatus → Type 0
StageTrail i [] a c = a ≡ c
StageTrail i (event ∷ events) a c =
    (b : StageStatus) × StageStep i event.payload a b × StageTrail i events b c

-- What a column of the row is, if there is the row.
abbrev pub view : {A B : Type 0} → (A → Option B) → Option A → Option B
view g none = none
view g (some a) = g a

abbrev pub execution_status : Option WorkflowExecution → Option WorkflowStatus
execution_status = view (λ row. some row.status)

abbrev pub stage_status : Option WorkflowStageExecution → Option StageStatus
stage_status = view (λ row. some row.status)

abbrev pub approval_at : ℕ → Store → Option WorkflowApproval
approval_at i s = by_id (λ (row : WorkflowApproval). row.id) i s.approvals

-- The decision of an approval that has one.
abbrev pub decided : Option WorkflowApproval → Option ApprovalDecision
decided = view (λ row. row.decision)

-- What was there is still there, and has moved by `R`.
abbrev pub Onward : {A : Type 0} → (A → A → Type 0) → Option A → Option A → Type 0
Onward R none after = Unit
Onward R (some a) none = ⊥
Onward R (some a) (some b) = R a b

abbrev pub Extends : {A : Type 0} → List A → List A → Type 0
Extends {A} xs ys = (more : List A) × (ys ≡ xs ++ more)

pub record Evolves (s s' : Store) : Type 0 where
  -- Events are only added, at the end.
  pub events : Extends s.events s'.events
  -- The events that were added take every workflow from the status it had to the one it has, each by
  -- one step of the transition table.
  pub workflows :
      (i : ℕ)
      → Onward
          (WorkflowTrail i events.0)
          (execution_status (execution_at i s))
          (execution_status (execution_at i s'))
  -- So they do every stage.
  pub stages :
      (i : ℕ)
      → Onward
          (StageTrail i events.0)
          (stage_status (stage_execution_at i s))
          (stage_status (stage_execution_at i s'))
  -- A decision is never changed or taken back.
  pub decisions : (i : ℕ) → Onward ◌≡◌ (decided (approval_at i s)) (decided (approval_at i s'))
  -- Runner calls and queue entries are only added, at the end, too.
  pub runner_calls : Extends s.runner_calls s'.runner_calls
  pub queue : Extends s.queue s'.queue

-- However the call ends, and from whatever tables it starts.
pub record Evolving {A : Type 0} (m : Action A) : Type 0 where
  pub at : (s : Store) → Evolves s (m s).1
