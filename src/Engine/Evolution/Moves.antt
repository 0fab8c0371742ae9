-- ===== src/Engine/Evolution/Moves.antt =====
-- The two writes of an allowed transition: the row moves by the step that their event tells.
use forge_ai_autonomous_soft.Common.{
  ℕ, ◌≡◌, refl, sym, true, false, Option, some, List, [], ◌∷◌, elem, arith, subst, Bool-cases, inl,
  inr, eqb, eqb_iff, Text,
}
use forge_ai_autonomous_soft.Core.{
  WorkflowStatus, StageStatus, stage_status_eq, workflow_status_eq, stage_value, workflow_value,
}
use forge_ai_autonomous_soft.Engine.StateMachine.{stage_transitions, workflow_transitions}
use forge_ai_autonomous_soft.Engine.Session.Rows.{WorkflowExecution, WorkflowStageExecution}
use forge_ai_autonomous_soft.Engine.Session.Actions.{World, Store, update, by_id}
use forge_ai_autonomous_soft.Engine.StateManager.{
  StageChange, stage_execution_at, write_stage, move_stage, stage_event, execution_at,
  move_execution, write_workflow, workflow_event,
}
use forge_ai_autonomous_soft.Engine.StateManager.Stage.{stage_moved}
use forge_ai_autonomous_soft.Engine.StateManager.Workflow.{workflow_written}
use forge_ai_autonomous_soft.Engine.Evolution.{
  Evolves, Onward, StageTrail, WorkflowTrail, StageMove, WorkflowMove, stage_status,
  execution_status,
}
use forge_ai_autonomous_soft.Engine.Evolution.Rules.{
  Evolves-refl, Extends-refl, by_id-update, Onward-refl,
}

-- The row that a table gives for an id has this id.
id-by_id :
    {A : Type 0} (id_of : A → ℕ) (i : ℕ) (rows : List A) (row : A)
    → by_id id_of i rows ≡ some row
    → eqb (id_of row) i ≡ true
id-by_id id_of i [] row h = absurd (cc)
id-by_id id_of i (r ∷ rows) row h = elim (Bool-cases (eqb (id_of r) i)) [
  | inl here ↦ let same : r ≡ row = ground (arith, h, here) in cc
  | inr there ↦ id-by_id id_of i rows row (ground (arith, h, there))
]

-- The ids of a row found, and of another.
other_id : (i j k : ℕ) → eqb k i ≡ true → eqb j i ≡ false → eqb k j ≡ false
other_id i j k h e = ground (arith, eqb_iff k i, eqb_iff j i, eqb_iff k j)

same_id : (i j k : ℕ) → eqb k i ≡ true → eqb j i ≡ true → eqb k j ≡ true
same_id i j k h e = ground (arith, eqb_iff k i, eqb_iff j i, eqb_iff k j)

-- One allowed write moves the row by the step that the event tells, and leaves the others.
stage_rows_move :
    (i j at : ℕ) (row : WorkflowStageExecution) (target : StageStatus) (change : StageChange)
    (rows : List WorkflowStageExecution)
    → by_id (λ (r : WorkflowStageExecution). r.id) i rows ≡ some row
    → elem target (stage_transitions row.status) ≡ true
    → Onward
        (StageTrail j (stage_event row target ∷ []))
        (stage_status (by_id (λ (r : WorkflowStageExecution). r.id) j rows))
        (stage_status (
          by_id
            (λ (r : WorkflowStageExecution). r.id)
            j
            (update (λ (r : WorkflowStageExecution). r.id) i (move_stage target at change) rows)))
unfolding move_stage
stage_rows_move i j at row target change rows found allowed =
    let own = id-by_id (λ (r : WorkflowStageExecution). r.id) i rows row found in
    rw
      (by_id-update (λ (r : WorkflowStageExecution). r.id) i j (move_stage target at change) rows
        (λ r. refl))
      (elim (Bool-cases (eqb j i)) [
        | inl same ↦
            rw
              (
                same,
                subst (λ k. by_id (λ (r : WorkflowStageExecution). r.id) k rows ≡ some row)
                    (sym ((eqb_iff j i).0 same)) found,
              )
              (
                target,
                subst
                    (λ b.
                      StageMove b (stage_value row.status) (stage_value target) row.status target)
                    (sym (same_id i j row.id own same)) (refl, refl, allowed),
                refl,
              )
        | inr other ↦ rw other (
            Onward-refl (StageTrail j (stage_event row target ∷ []))
              (λ a. (
                a,
                subst (λ b. StageMove b (stage_value row.status) (stage_value target) a a)
                    (sym (other_id i j row.id own other)) refl,
                refl,
              ))
              _)
      ])

execution_rows_move :
    (i j at : ℕ) (row : WorkflowExecution) (target : WorkflowStatus) (error : Option Text)
    (rows : List WorkflowExecution)
    → by_id (λ (r : WorkflowExecution). r.id) i rows ≡ some row
    → elem target (workflow_transitions row.status) ≡ true
    → Onward
        (WorkflowTrail j (workflow_event i row.status target ∷ []))
        (execution_status (by_id (λ (r : WorkflowExecution). r.id) j rows))
        (execution_status (
          by_id
            (λ (r : WorkflowExecution). r.id)
            j
            (update (λ (r : WorkflowExecution). r.id) i (move_execution target at error) rows)))
unfolding move_execution
execution_rows_move i j at row target error rows found allowed =
    let own = (eqb_iff i i).1 refl in
    rw
      (by_id-update (λ (r : WorkflowExecution). r.id) i j (move_execution target at error) rows
        (λ r. refl))
      (elim (Bool-cases (eqb j i)) [
        | inl same ↦
            rw
              (
                same,
                subst (λ k. by_id (λ (r : WorkflowExecution). r.id) k rows ≡ some row)
                    (sym ((eqb_iff j i).0 same)) found,
              )
              (
                target,
                subst
                    (λ b.
                      WorkflowMove b (workflow_value row.status) (workflow_value target) row.status
                        target)
                    (sym (same_id i j i own same)) (refl, refl, allowed),
                refl,
              )
        | inr other ↦ rw other (
            Onward-refl (WorkflowTrail j (workflow_event i row.status target ∷ []))
              (λ a. (
                a,
                subst (λ b. WorkflowMove b (workflow_value row.status) (workflow_value target) a a)
                    (sym (other_id i j i own other)) refl,
                refl,
              ))
              _)
      ])

pub stage_moved-Evolves :
    (w : World) (i : ℕ) (row : WorkflowStageExecution) (target : StageStatus) (change : StageChange)
    (s : Store)
    → stage_execution_at i s ≡ some row
    → elem target (stage_transitions row.status) ≡ true
    → Evolves s (stage_moved w i row target change s)
unfolding write_stage
stage_moved-Evolves w i row target change s found allowed = record {
  events = (stage_event row target ∷ [], refl);
  workflows =
      λ j. Onward-refl (WorkflowTrail j (stage_event row target ∷ [])) (λ a. (a, refl, refl)) _;
  stages = λ j.
      stage_rows_move i j (w.time s.clock_reads) row target change s.stage_executions found allowed;
  decisions = (Evolves-refl s).decisions;
  runner_calls = Extends-refl s.runner_calls;
  queue = Extends-refl s.queue;
}

pub workflow_written-Evolves :
    (w : World) (i : ℕ) (row : WorkflowExecution) (target : WorkflowStatus) (error : Option Text)
    (s : Store)
    → execution_at i s ≡ some row
    → elem target (workflow_transitions row.status) ≡ true
    → Evolves s (workflow_written w i row target error s)
unfolding write_workflow
workflow_written-Evolves w i row target error s found allowed = record {
  events = (workflow_event i row.status target ∷ [], refl);
  workflows = λ j.
      execution_rows_move i j (w.time s.clock_reads) row target error s.executions found allowed;
  stages = λ j.
      Onward-refl (StageTrail j (workflow_event i row.status target ∷ [])) (λ a. (a, refl, refl)) _;
  decisions = (Evolves-refl s).decisions;
  runner_calls = Extends-refl s.runner_calls;
  queue = Extends-refl s.queue;
}
