-- ===== src/Engine/Evolution/Ticks.antt =====
-- `advance` and `resolve_approval` evolve the tables.
use forge_ai_autonomous_soft.Common.{ℕ, ◌≡◌, refl, some, List, [], ◌∷◌, Text, ◌==◌, eqb, find}
use forge_ai_autonomous_soft.Core.{StageStatus, stage_status_eq, TimeoutAction}
use forge_ai_autonomous_soft.Engine.Definition.{WorkflowDefinition, StageDefinition}
use forge_ai_autonomous_soft.Engine.Session.Rows.{
  WorkflowExecution, WorkflowApproval, ApprovalPayload,
}
use forge_ai_autonomous_soft.Engine.Session.Actions.{World, pure, raise, gets, now, ◌>>=◌}
use forge_ai_autonomous_soft.Engine.Executor.Plan.{
  Statuses, Ids, status_by_key, se_by_key, get_stage_executions, load_definition,
  key_for_stage_execution_id,
}
use forge_ai_autonomous_soft.Engine.Executor.Reap.{
  request_approval, stop_timed_out, apply_timeout, reap_stage, reap_items, reap_timed_out_stage,
}
use forge_ai_autonomous_soft.Engine.Executor.Advance.{
  open_gate, advance_key, advance_keys, finish, choose, advance_ready, tick, advance,
}
use forge_ai_autonomous_soft.Engine.Executor.Stages.{check_completion}
use forge_ai_autonomous_soft.Engine.StateManager.{get_execution}
use forge_ai_autonomous_soft.Engine.Errors.{stop_iteration}
use forge_ai_autonomous_soft.Engine.Evolution.{Evolving}
use forge_ai_autonomous_soft.Engine.Evolution.Rules.{
  Evolving-gets, Evolving-raise, now-Evolving, Evolving-bind, Evolving-pure, Evolving-if,
  Extends-refl, nothing_added, workflow_rests, stage_rests, Evolving-option, Onward-append,
}
use forge_ai_autonomous_soft.Engine.Evolution.Operations.{
  transitions, fail_workflow-Evolving, run_and_apply-Evolving, check_completion-Evolving,
}

-- A new approval is behind those that are there.
request_approval-Evolving :
    (i j : ℕ) (payload : ApprovalPayload) → Evolving (request_approval i j payload)
unfolding request_approval
request_approval-Evolving i j payload = record {
  at = λ s. record {
    workflows = λ i. workflow_rests i _;
    stages = λ i. stage_rests i _;
    decisions = λ k.
        Onward-append (λ (r : WorkflowApproval). r.id) ◌≡◌ (λ a. refl)
          (λ (r : WorkflowApproval). r.decision) k s.approvals _;
    events = ([], nothing_added s.events);
    runner_calls = Extends-refl s.runner_calls;
    queue = Extends-refl s.queue;
  };
}

pub key_for-Evolving : (ids : Ids) (i : ℕ) → Evolving (key_for_stage_execution_id ids i)
unfolding key_for_stage_execution_id
key_for-Evolving ids i =
    Evolving-option (raise stop_iteration) (λ (e : Text × ℕ). pure e.0)
      (find (λ (e : Text × ℕ). eqb e.1 i) ids) (Evolving-raise stop_iteration)
      (λ e. Evolving-pure e.0)

module _ (w : World) where
  module _ (execution : WorkflowExecution) (definition : WorkflowDefinition) (statuses : Statuses)
      (ids : Ids) (now : ℕ) where
    stop_timed_out-Evolving :
        (key : Text) (se_id : ℕ) (target : StageStatus) (e : Text)
        → Evolving (stop_timed_out w execution definition statuses ids now key se_id target e)
    unfolding stop_timed_out
    stop_timed_out-Evolving key se_id target e = search (transitions, fail_workflow-Evolving)

    apply_timeout-Evolving :
        (key : Text) (stage_def : StageDefinition) (se_id : ℕ) (e : Text) (action : TimeoutAction)
        → Evolving
            (apply_timeout w execution definition statuses ids now key stage_def se_id e action)
    unfolding apply_timeout
    apply_timeout-Evolving key stage_def se_id e TimeoutAction.escalate =
        search (transitions, request_approval-Evolving) depth 7
    apply_timeout-Evolving key stage_def se_id e TimeoutAction.retry =
        search (transitions, stop_timed_out-Evolving) depth 9
    apply_timeout-Evolving key stage_def se_id e TimeoutAction.cancel =
        stop_timed_out-Evolving key se_id StageStatus.cancelled e

    reap_stage-Evolving :
        (key : Text) → Evolving (reap_stage w execution definition statuses ids now key)
    unfolding reap_stage
    reap_stage-Evolving key = search (transitions, apply_timeout-Evolving) depth 9

    reap_items-Evolving :
        (items : Statuses) → Evolving (reap_items w execution definition statuses ids now items)
    unfolding reap_items
    reap_items-Evolving [] = search transitions
    reap_items-Evolving ((key, status) ∷ rest) =
        let next = reap_items w execution definition statuses ids now rest in
        let onward = reap_items-Evolving rest in
        Evolving-if (status == StageStatus.running) _ next
          (Evolving-bind (reap_stage w execution definition statuses ids now key) _
            (reap_stage-Evolving key)
            (λ a. Evolving-option next (λ i. pure (some i)) a onward (λ i. Evolving-pure (some i))))
          onward

    reap-Evolving : Evolving (reap_timed_out_stage w execution definition statuses ids now)
    unfolding reap_timed_out_stage
    reap-Evolving = reap_items-Evolving statuses

  pub load_definition-Evolving : (i : ℕ) → Evolving (load_definition w i)
  unfolding load_definition
  load_definition-Evolving i = search transitions

  open_gate-Evolving :
      (i : ℕ) (stage_def : StageDefinition) (se_id : ℕ) → Evolving (open_gate w i stage_def se_id)
  unfolding open_gate
  open_gate-Evolving i stage_def se_id = search (transitions, request_approval-Evolving) depth 7

  module _ (execution : WorkflowExecution) (definition : WorkflowDefinition) (ids : Ids)
      (now : ℕ) where
    advance_key-Evolving :
        (key : Text) (statuses : Statuses)
        → Evolving (advance_key w execution definition ids now key statuses)
    unfolding advance_key
    advance_key-Evolving key statuses =
        search (transitions, open_gate-Evolving, run_and_apply-Evolving) depth 9

    advance_keys-Evolving :
        (keys : List Text) (statuses : Statuses)
        → Evolving (advance_keys w execution definition ids now keys statuses)
    unfolding advance_keys
    advance_keys-Evolving [] statuses = search transitions
    advance_keys-Evolving (key ∷ rest) statuses =
        Evolving-bind (advance_key w execution definition ids now key statuses) _
          (advance_key-Evolving key statuses)
          (λ o.
            Evolving-option (advance_keys w execution definition ids now rest o.1)
              (λ i. pure (some i, o.1)) o.0 (advance_keys-Evolving rest o.1)
              (λ i. Evolving-pure (some i, o.1)))

    refetch-Evolving : Evolving (do found ← get_execution execution.id; pure found.id)
    refetch-Evolving = search transitions

    finish-Evolving :
        (statuses : Statuses) → Evolving (finish w execution definition ids now statuses)
    unfolding finish
    finish-Evolving statuses =
        Evolving-bind (check_completion w execution.id statuses) _
          (check_completion-Evolving w execution.id statuses)
          (λ o. Evolving-option _ (λ i. pure i) o refetch-Evolving Evolving-pure)

    advance_ready-Evolving :
        (keys : List Text) (statuses : Statuses)
        → Evolving (advance_ready w execution definition ids now keys statuses)
    unfolding advance_ready
    advance_ready-Evolving [] statuses =
        Evolving-bind (check_completion w execution.id statuses) _
          (check_completion-Evolving w execution.id statuses)
          (λ o. Evolving-option _ (λ i. pure i) o (Evolving-pure execution.id) Evolving-pure)
    advance_ready-Evolving (key ∷ rest) statuses =
        Evolving-bind (advance_keys w execution definition ids now (key ∷ rest) statuses) _
          (advance_keys-Evolving (key ∷ rest) statuses)
          (λ o. Evolving-option _ (λ i. pure i) o.0 (finish-Evolving o.1) Evolving-pure)

  -- What a tick does once the timed-out stages are dealt with.
  choose-Evolving :
      (execution : WorkflowExecution) (definition : WorkflowDefinition) (ids : Ids) (at : ℕ)
      (statuses : Statuses)
      → Evolving (choose w execution definition ids at statuses)
  unfolding choose
  choose-Evolving execution definition ids at statuses =
      search (transitions, advance_ready-Evolving)

  tick-Evolving : (execution : WorkflowExecution) → Evolving (tick w execution)
  unfolding tick
  tick-Evolving execution =
      Evolving-bind (load_definition w execution.workflow_version_id) _
        (load_definition-Evolving execution.workflow_version_id)
        λ definition.
          Evolving-bind (gets (get_stage_executions execution.id)) _ (Evolving-gets _) λ pairs.
            Evolving-bind (now w) _ (now-Evolving w) λ at.
              Evolving-bind _ _
                (reap-Evolving execution definition (status_by_key pairs) (se_by_key pairs) at)
                λ o.
                  Evolving-option _ (λ i. pure i) o
                    (choose-Evolving execution definition (se_by_key pairs) at
                      (status_by_key pairs))
                    Evolving-pure

  pub advance-Evolving : (i : ℕ) → Evolving (advance w i)
  unfolding advance
  advance-Evolving i = search (transitions, tick-Evolving)
