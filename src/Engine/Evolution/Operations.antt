-- ===== src/Engine/Evolution/Operations.antt =====
-- Every operation of the executor evolves the tables.
use forge_ai_autonomous_soft.Common.{
  ℕ, ℤ, ◌≡◌, refl, Bool, Option, List, [], ◌∷◌, ◌++◌, Text, arith,
}
use forge_ai_autonomous_soft.Engine.Definition.{WorkflowDefinition, StageDefinition}
use forge_ai_autonomous_soft.Engine.Session.Rows.{WorkflowExecution, WorkflowStageExecution}
use forge_ai_autonomous_soft.Engine.Session.Actions.{World, Store, StageRunContext, RunnerCall}
use forge_ai_autonomous_soft.Engine.Queue.{enqueue}
use forge_ai_autonomous_soft.Engine.Executor.Plan.{Pairs, Statuses, Ids}
use forge_ai_autonomous_soft.Engine.Executor.Control.{
  submit, cancel_stage, cancel_stages, cancel, skip_stage,
}
use forge_ai_autonomous_soft.Engine.Executor.Stages.{
  call_run, call_rollback, check_completion, rollback_key, rollback_keys, rollback_completed_stages,
  fail_workflow, apply_failure, run_and_apply_stage_result,
}
use forge_ai_autonomous_soft.Engine.Evolution.{Evolves, Evolving}
use forge_ai_autonomous_soft.Engine.Evolution.Rules.{
  evolving_rules, Evolving-bind, Extends-refl, nothing_added, workflow_rests, stage_rests,
  Evolves-refl,
}
use forge_ai_autonomous_soft.Engine.Evolution.Transitions.{
  aside, transition_workflow-Evolving, transition_stage-Evolving, get_execution-Evolving,
  get_stage_execution-Evolving,
}

pub ruleset transitions = (
  evolving_rules, transition_workflow-Evolving, transition_stage-Evolving, get_execution-Evolving,
  get_stage_execution-Evolving,
)

module _ (w : World) where
  enqueue-Evolving : (i : ℕ) (priority : ℤ) (at : Option ℕ) → Evolving (enqueue w i priority at)
  unfolding enqueue
  enqueue-Evolving i priority at = record { at = λ s. aside s _ refl refl refl refl refl (_, refl) }

  pub submit-Evolving : (i : ℕ) (priority : ℤ) → Evolving (submit w i priority)
  unfolding submit
  submit-Evolving i priority = search (transitions, enqueue-Evolving)

  cancel_stage-Evolving : (row : WorkflowStageExecution) → Evolving (cancel_stage w row)
  unfolding cancel_stage
  cancel_stage-Evolving row = search transitions

  cancel_stages-Evolving : (pairs : Pairs) → Evolving (cancel_stages w pairs)
  unfolding cancel_stages
  cancel_stages-Evolving [] = search transitions
  cancel_stages-Evolving (pair ∷ pairs) =
      Evolving-bind (cancel_stage w pair.0) (λ _. cancel_stages w pairs)
        (cancel_stage-Evolving pair.0) (λ _. cancel_stages-Evolving pairs)

  pub cancel-Evolving : (i : ℕ) → Evolving (cancel w i)
  unfolding cancel
  cancel-Evolving i = search (transitions, cancel_stages-Evolving)

  pub skip_stage-Evolving : (i : ℕ) → Evolving (skip_stage w i)
  unfolding skip_stage
  skip_stage-Evolving i = search transitions

  -- A runner call adds itself to the log.
  logs_one :
      (s t : Store) (call : RunnerCall)
      → t ≡ record s { runner_calls = s.runner_calls ++ call ∷ [] }
      → Evolves s t
  logs_one s t call e = rw e (record {
    workflows = λ i. workflow_rests i _;
    stages = λ i. stage_rests i _;
    decisions = (Evolves-refl s).decisions;
    events = ([], nothing_added s.events);
    runner_calls = (call ∷ [], refl);
    queue = Extends-refl s.queue;
  })

  call_run-Evolving :
      (stage_def : StageDefinition) (context : StageRunContext)
      → Evolving (call_run w stage_def context)
  unfolding call_run
  call_run-Evolving stage_def context = record {
    at = λ s. logs_one s _ (RunnerCall.run stage_def.id) (ground arith);
  }

  call_rollback-Evolving :
      (stage_def : StageDefinition) (context : StageRunContext)
      → Evolving (call_rollback w stage_def context)
  unfolding call_rollback
  call_rollback-Evolving stage_def context = record {
    at = λ s. logs_one s _ (RunnerCall.rollback stage_def.id) (ground arith);
  }

  rollback_key-Evolving :
      (definition : WorkflowDefinition) (ids : Ids) (i p : ℕ) (key : Text)
      → Evolving (rollback_key w definition ids i p key)
  unfolding rollback_key
  rollback_key-Evolving definition ids i p key =
      search (transitions, call_rollback-Evolving) depth 7

  rollback_keys-Evolving :
      (definition : WorkflowDefinition) (ids : Ids) (i p : ℕ) (keys : List Text)
      → Evolving (rollback_keys w definition ids i p keys)
  unfolding rollback_keys
  rollback_keys-Evolving definition ids i p [] = search transitions
  rollback_keys-Evolving definition ids i p (key ∷ keys) =
      Evolving-bind (rollback_key w definition ids i p key)
        (λ _. rollback_keys w definition ids i p keys)
        (rollback_key-Evolving definition ids i p key)
        (λ _. rollback_keys-Evolving definition ids i p keys)

  pub check_completion-Evolving :
      (i : ℕ) (statuses : Statuses) → Evolving (check_completion w i statuses)
  unfolding check_completion
  check_completion-Evolving i statuses = search transitions

  rollback-Evolving :
      (i : ℕ) (definition : WorkflowDefinition) (statuses : Statuses) (ids : Ids) (p : ℕ)
      → Evolving (rollback_completed_stages w i definition statuses ids p)
  unfolding rollback_completed_stages
  rollback-Evolving i definition statuses ids p = rollback_keys-Evolving definition ids i p _

  pub fail_workflow-Evolving :
      (i : ℕ) (definition : WorkflowDefinition) (statuses : Statuses) (ids : Ids) (p : ℕ) (e : Text)
      → Evolving (fail_workflow w i definition statuses ids p e)
  unfolding fail_workflow
  fail_workflow-Evolving i definition statuses ids p e = search (transitions, rollback-Evolving)

  apply_failure-Evolving :
      (execution : WorkflowExecution) (definition : WorkflowDefinition)
      (stage_def : StageDefinition) (se_id : ℕ) (statuses : Statuses) (ids : Ids)
      (attempted now : ℕ) (error : Option Text)
      → Evolving
          (apply_failure w execution definition stage_def se_id statuses ids attempted now error)
  unfolding apply_failure
  apply_failure-Evolving execution definition stage_def se_id statuses ids attempted now error =
      search (transitions, fail_workflow-Evolving) depth 7

  pub run_and_apply-Evolving :
      (execution : WorkflowExecution) (definition : WorkflowDefinition)
      (stage_def : StageDefinition) (se_id : ℕ) (statuses : Statuses) (ids : Ids) (is_retry : Bool)
      (now : ℕ)
      → Evolving (
          run_and_apply_stage_result w execution definition stage_def se_id statuses ids is_retry
            now)
  unfolding run_and_apply_stage_result
  run_and_apply-Evolving execution definition stage_def se_id statuses ids is_retry now =
      search (transitions, call_run-Evolving, apply_failure-Evolving) depth 9
