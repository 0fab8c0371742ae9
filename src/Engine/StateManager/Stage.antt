-- ===== src/Engine/StateManager/Stage.antt =====
-- `transition_stage` on its three branches.
use forge_ai_autonomous_soft.Common.{ℕ, ◌+◌, ◌≡◌, true, false, none, some, codes, elem}
use forge_ai_autonomous_soft.Core.{StageStatus, stage_status_eq, stage_value}
use forge_ai_autonomous_soft.Engine.Errors.{ok, err, stage_execution_not_found, invalid_transition}
use forge_ai_autonomous_soft.Engine.StateMachine.{stage_transitions}
use forge_ai_autonomous_soft.Engine.EventBus.{publish}
use forge_ai_autonomous_soft.Engine.Session.Rows.{WorkflowStageExecution}
use forge_ai_autonomous_soft.Engine.Session.Actions.{World, Store}
use forge_ai_autonomous_soft.Engine.StateManager.{
  StageChange, stage_execution_at, transition_stage, write_stage, stage_event,
}

-- The tables after an allowed transition.
abbrev pub stage_moved :
    World → ℕ → WorkflowStageExecution → StageStatus → StageChange → Store → Store
stage_moved w i row target change s =
    let event = stage_event row target in
    record (write_stage i target (w.time s.clock_reads) change event s) {
      clock_reads = s.clock_reads + 1;
      bus = publish w.raises event s.bus;
    }

module _ (w : World) (i : ℕ) (target : StageStatus) (change : StageChange) (s : Store) where
  pub transition_stage_missing :
      stage_execution_at i s ≡ none
      → transition_stage w i target change s ≡ (err (stage_execution_not_found i), s)
  unfolding transition_stage
  transition_stage_missing h = rw h

  module _ {row : WorkflowStageExecution} (found : stage_execution_at i s ≡ some row) where
    pub transition_stage_refused :
        elem target (stage_transitions row.status) ≡ false
        → transition_stage w i target change s ≡ (
          err (invalid_transition (stage_value row.status) (stage_value target) (codes "stage")),
          s,
        )
    unfolding transition_stage
    transition_stage_refused h = rw (found, h)

    pub transition_stage_allowed :
        elem target (stage_transitions row.status) ≡ true
        → transition_stage w i target change s ≡ (ok i, stage_moved w i row target change s)
    unfolding transition_stage
    transition_stage_allowed h = rw (found, h)
