-- ===== src/Tests/Runs.antt =====
-- The executor, the queue, the worker and rollbacks, on the sample workflow.
use forge_ai_autonomous_soft.Common.{
  pos, length, nat_eq, IsNodup, arith, ◌≡◌, ◌≢◌, inl, refl, true, Option, none, some, List, [], ◌∷◌,
  ◌++◌, reverse, Text, text_eq, codes,
}
use forge_ai_autonomous_soft.Core.{StageStatus, stage_status_eq, ApprovalDecision}
use forge_ai_autonomous_soft.Engine.Errors.{EngineError, ok, err}
use forge_ai_autonomous_soft.Engine.StateMachine.{is_terminal_stage_status}
use forge_ai_autonomous_soft.Engine.Session.Rows.{WorkflowQueueEntry}
use forge_ai_autonomous_soft.Engine.Session.Actions.{Store}
use forge_ai_autonomous_soft.Engine.StateManager.{stage_execution_at}
use forge_ai_autonomous_soft.Engine.Queue.{claim_next}
use forge_ai_autonomous_soft.Engine.Queue.Choice.{Chosen, claim_next-Chosen}
use forge_ai_autonomous_soft.Engine.Queue.Claims.{claim_next_once}
use forge_ai_autonomous_soft.Engine.Queue.Turns.{Turn, IsKeyed, claims}
use forge_ai_autonomous_soft.Engine.Queue.Turns.Unique.{claims-IsNodup}
use forge_ai_autonomous_soft.Engine.Executor.Plan.{Statuses, Ids}
use forge_ai_autonomous_soft.Engine.Executor.Stages.{completed_keys, rollback_completed_stages}
use forge_ai_autonomous_soft.Engine.Executor.Stages.Rollback.{
  rolled_back, rollback_completed_stages-order,
}
use forge_ai_autonomous_soft.Engine.Executor.Approval.{resolve_approval}
use forge_ai_autonomous_soft.Engine.Executor.Approval.Branches.{resolve_refused}
use forge_ai_autonomous_soft.Engine.Evolution.{Evolves, stage_status}
use forge_ai_autonomous_soft.Engine.Evolution.Script.{
  Operation, start_op, advance_op, skip_op, play, play-Evolves, terminal_stage_stays,
}
use forge_ai_autonomous_soft.Worker.{run_iteration}
use forge_ai_autonomous_soft.Worker.Iteration.{Iterated, run_iteration-Iterated}
use forge_ai_autonomous_soft.Tests.Samples.{
  sample_definition, sample_world, sample_entry, second_entry, sample_store, plan_key, code_key,
}

-- The first tick runs `plan`, the second fails `code`, and `code` is skipped at last.
abbrev sample_calls : List Operation
sample_calls = start_op 7 ∷ advance_op 7 ∷ advance_op 7 ∷ skip_op 21 ∷ advance_op 7 ∷ []

play-Evolves_example : Evolves sample_store (play sample_world sample_calls sample_store)
play-Evolves_example = play-Evolves sample_world sample_calls sample_store

abbrev skipped_store : Store
skipped_store = play sample_world (skip_op 20 ∷ []) sample_store

terminal_stage_stays_example :
    stage_status (stage_execution_at 20 (play sample_world sample_calls skipped_store))
    ≡ some StageStatus.skipped
unfolding play is_terminal_stage_status
terminal_stage_stays_example =
    terminal_stage_stays sample_world sample_calls skipped_store 20 StageStatus.skipped refl refl

run_iteration-Iterated_example :
    (found : Option WorkflowQueueEntry) × Chosen [] 0 sample_store.queue found
    × Iterated sample_store found true (run_iteration sample_world [] (codes "w") sample_store).1
unfolding run_iteration
run_iteration-Iterated_example =
    run_iteration-Iterated sample_world [] (codes "w") sample_store true refl

claim_next-Chosen_example :
    (found : Option WorkflowQueueEntry) × ((claim_next sample_world
        (9 ∷ [])
        (codes "w")
        sample_store).0
      ≡ ok found)
    × Chosen (9 ∷ []) 0 sample_store.queue found
claim_next-Chosen_example = claim_next-Chosen sample_world (9 ∷ []) (codes "w") sample_store

claim_next_once_example : sample_entry.id ≢ second_entry.id
unfolding claim_next
claim_next_once_example =
    claim_next_once sample_world [] [] (codes "w") (codes "v") sample_store sample_entry
      second_entry (refl, (refl, tt)) refl refl

sample-IsKeyed : IsKeyed sample_store
sample-IsKeyed = record {
  distinct = (refl, (refl, tt));
  given_out = (omega arith, (omega arith, tt));
}

-- Two workers, a completion and a new entry.
abbrev sample_turns : List Turn
sample_turns =
    Turn.claim [] (codes "w")
    ∷ Turn.claim [] (codes "v")
    ∷ Turn.finish 9
    ∷ Turn.add 7 (pos 0) none
    ∷ Turn.claim [] (codes "w")
    ∷ []

claims-IsNodup_example : IsNodup (claims sample_world sample_turns sample_store)
claims-IsNodup_example = claims-IsNodup sample_world sample_turns sample_store sample-IsKeyed

three_claims : length (claims sample_world sample_turns sample_store) ≡ 3
unfolding claims
three_claims = refl

abbrev sample_statuses : Statuses
sample_statuses = (plan_key, StageStatus.completed) ∷ (code_key, StageStatus.completed) ∷ []

abbrev sample_ids : Ids
sample_ids = (plan_key, 20) ∷ (code_key, 21) ∷ []

rollback_completed_stages-order_example :
    (tried : List Text) × (left : List Text) × (reverse
        (completed_keys sample_world sample_definition sample_statuses)
      ≡ tried ++ left)
    × ((rollback_completed_stages sample_world 7 sample_definition sample_statuses sample_ids 4
          sample_store).1
        ≡ rolled_back tried sample_store)
    × ((rollback_completed_stages sample_world 7 sample_definition sample_statuses sample_ids 4
            sample_store).0
          ≡ ok tt
        → left ≡ [])
rollback_completed_stages-order_example =
    rollback_completed_stages-order sample_world 7 sample_definition sample_statuses sample_ids 4
      sample_store

-- The two completed stages, the later one first.
reversed_keys :
    reverse (completed_keys sample_world sample_definition sample_statuses)
    ≡ code_key ∷ plan_key ∷ []
unfolding completed_keys
reversed_keys = refl

resolve_refused_example :
    (e : EngineError) × (resolve_approval sample_world 5 ApprovalDecision.approve none none
        sample_store
      ≡ (err e, sample_store))
resolve_refused_example =
    resolve_refused sample_world 5 ApprovalDecision.approve none none sample_store (inl refl)
