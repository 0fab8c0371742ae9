-- ===== src/Tests/Parts.antt =====
-- The state machines, the deciders, the event bus and the log of decisions, on small inputs.
use forge_ai_autonomous_soft.Common.{
  ℕ, ◌≡◌, ◌↔◌, refl, true, false, none, some, List, [], ◌∷◌, ◌++◌, map, text_eq, codes, elem,
  select, arith,
}
use forge_ai_autonomous_soft.Core.{WorkflowStatus, StageStatus, stage_status_eq}
use forge_ai_autonomous_soft.Engine.StateMachine.{is_terminal_stage_status, stage_transitions}
use forge_ai_autonomous_soft.Engine.StateMachine.Endings.{
  WorkflowReach, is_settled, is_terminal_stage_status_iff, running_reachable_iff,
}
use forge_ai_autonomous_soft.Engine.StateMachine.Trails.{
  IsTrail, workflow_next, drive_workflow, drive_stage, drive_workflow-IsTrail,
  drive_stage_of_terminal,
}
use forge_ai_autonomous_soft.Engine.StateMachine.Workflow
use forge_ai_autonomous_soft.Engine.StateMachine.Stage
use forge_ai_autonomous_soft.Engine.Decisions.{RetryDecision, compute_backoff_seconds}
use forge_ai_autonomous_soft.Engine.Decisions.Laws.{backoff_capped}
use forge_ai_autonomous_soft.Engine.EventBus.{publish}
use forge_ai_autonomous_soft.Engine.EventBus.Delivery.{interested, publish_all}
use forge_ai_autonomous_soft.Memory.{
  Draft, Call, record_call, accept_call, reject_call, supersede_call, replay,
}
use forge_ai_autonomous_soft.Memory.Supersession.{IsLog, replay-IsLog}
use forge_ai_autonomous_soft.Tests.Samples.{
  sample_floats, sample_policy, sample_world, sample_store, sample_event,
}

abbrev sample_history : List (WorkflowStatus × ℕ)
sample_history =
    (WorkflowStatus.running, 1) ∷ (WorkflowStatus.draft, 2) ∷ (WorkflowStatus.completed, 3) ∷ []

drive_workflow-IsTrail_example :
    let m = drive_workflow sample_history (Workflow.init WorkflowStatus.pending 0) in
    IsTrail workflow_next WorkflowStatus.pending m.history m.status
drive_workflow-IsTrail_example = drive_workflow-IsTrail WorkflowStatus.pending 0 sample_history

drive_stage_of_terminal_example :
    drive_stage ((StageStatus.running, 1) ∷ []) (Stage.init StageStatus.skipped 0)
    ≡ Stage.init StageStatus.skipped 0
unfolding Stage.init Stage.is_terminal
drive_stage_of_terminal_example =
    drive_stage_of_terminal (Stage.init StageStatus.skipped 0) ((StageStatus.running, 1) ∷ []) refl

running_reachable_iff_example :
    WorkflowReach WorkflowStatus.failed WorkflowStatus.running
    ↔ (is_settled WorkflowStatus.failed ≡ false)
running_reachable_iff_example = running_reachable_iff WorkflowStatus.failed

is_terminal_stage_status_iff_example :
    (is_terminal_stage_status StageStatus.failed ≡ true)
    ↔ ((t : StageStatus) → elem t (stage_transitions StageStatus.failed) ≡ false)
is_terminal_stage_status_iff_example = is_terminal_stage_status_iff StageStatus.failed

publish_all_example :
    let handlers = interested sample_event sample_store.bus.subscribers in
    let after = publish sample_world.raises sample_event sample_store.bus in
    (after.subscribers ≡ sample_store.bus.subscribers)
    × (after.delivered ≡ sample_store.bus.delivered ++ map (λ h. (h, sample_event)) handlers)
    × (after.handler_errors
        ≡ sample_store.bus.handler_errors
          ++ map
              (λ h. (sample_event, h))
              (select (λ h. sample_world.raises h sample_event) handlers))
publish_all_example = publish_all sample_world.raises sample_event sample_store.bus

-- After the first attempt, at the cap of three seconds.
abbrev retry_later : RetryDecision
retry_later = record { should_retry = true; retry_after = some 13 }

backoff_capped_example : sample_floats.lt 3 3 ≡ false
unfolding compute_backoff_seconds
backoff_capped_example =
    backoff_capped sample_floats sample_policy 3 {delay = 3} (λ x. ground arith) refl

abbrev sample_draft : Draft
sample_draft = record {
  title = codes "Queue";
  context = [];
  decision = codes "Use the database";
  consequences = none;
  created_by = none;
  capability_execution_id = none;
}

abbrev sample_log : List Call
sample_log =
    record_call 4 sample_draft 1
    ∷ accept_call 0
    ∷ supersede_call 0 sample_draft 2
    ∷ reject_call 0
    ∷ []

replay-IsLog_example : IsLog (replay sample_log (record { rows = []; next_id = 0 }))
replay-IsLog_example = replay-IsLog sample_log
