-- ===== src/Engine/Executor/Plan.antt =====
-- What executor.py reads of an execution before it acts: its definition, its stage executions with
-- their keys, and the two dicts over the keys.
use forge_ai_autonomous_soft.Common.{
  ℕ, Bool, false, Option, none, some, List, [], ◌∷◌, Text, text_eq, Dict, insert, lookup, eqb, find,
  elem, all,
}
use forge_ai_autonomous_soft.Core.{StageStatus, stage_status_eq}
use forge_ai_autonomous_soft.Engine.Errors.{workflow_version_not_found, key_error, stop_iteration}
use forge_ai_autonomous_soft.Engine.Definition.{
  WorkflowDefinition, StageDefinition, load_from_dict, stage,
}
use forge_ai_autonomous_soft.Engine.StateManager.{rows_of}
use forge_ai_autonomous_soft.Engine.Session.Rows.{
  WorkflowStageExecution, WorkflowStage, WorkflowVersion,
}
use forge_ai_autonomous_soft.Engine.Session.Actions.{
  World, Store, Action, pure, raise, gets, lift, or_raise, by_id, ◌>>=◌,
}

-- `_DONE_FOR_DEPENDENCY_PURPOSES`
unfoldable pub is_done : StageStatus → Bool
is_done status = elem status (StageStatus.completed ∷ StageStatus.skipped ∷ [])

unfoldable pub load_definition : World → ℕ → Action WorkflowDefinition
unfolding load_from_dict
load_definition w version_id = do
  found ← gets (λ s. by_id (λ (row : WorkflowVersion). row.id) version_id s.versions)
  version ← or_raise (workflow_version_not_found version_id) found
  lift (load_from_dict w.unicode w.float_ok version.graph_spec)

-- A row and the key of its stage.
abbrev pub Pairs : Type 0
Pairs = List (WorkflowStageExecution × Text)

abbrev join_key : WorkflowStageExecution → Option WorkflowStage → Pairs → Pairs
join_key row none pairs = pairs
join_key row (some stage_row) pairs = (row, stage_row.stage_key) ∷ pairs

-- The inner join with the stages.
unfoldable pub join_stages : List WorkflowStage → List WorkflowStageExecution → Pairs
join_stages stages [] = []
join_stages stages (row ∷ rows) =
    join_key row (by_id (λ (r : WorkflowStage). r.id) row.workflow_stage_id stages)
      (join_stages stages rows)

unfoldable pub get_stage_executions : ℕ → Store → Pairs
unfolding join_stages
get_stage_executions execution_id s = join_stages s.stages (rows_of execution_id s.stage_executions)

abbrev pub Statuses : Type 0
Statuses = Dict Text StageStatus

-- The ids stand for the row objects.
abbrev pub Ids : Type 0
Ids = Dict Text ℕ

-- `{key: f(se) for se, key in pairs}`
abbrev pub collect : {V : Type 0} → (WorkflowStageExecution → V) → Pairs → Dict Text V → Dict Text V
collect f [] d = d
collect f ((row, key) ∷ pairs) d = collect f pairs (insert key (f row) d)

unfoldable pub status_by_key : Pairs → Statuses
status_by_key pairs = collect (λ row. row.status) pairs []

unfoldable pub se_by_key : Pairs → Ids
se_by_key pairs = collect (λ row. row.id) pairs []

-- `d[key]`
abbrev pub item : {V : Type 0} → Text → Dict Text V → Action V
item key d = or_raise key_error (lookup key d)

-- `definition.stage(key)`
abbrev pub stage_of : Text → WorkflowDefinition → Action StageDefinition
stage_of key definition = lift (stage key definition)

-- `_key_for_stage_execution_id`
unfoldable pub key_for_stage_execution_id : Ids → ℕ → Action Text
key_for_stage_execution_id ids i = elim (find (λ (e : Text × ℕ). eqb e.1 i) ids) [
  | none ↦ raise stop_iteration
  | some e ↦ pure e.0
]

-- `status_by_key.get(dep) in _DONE_FOR_DEPENDENCY_PURPOSES`
unfoldable pub dependency_done : Statuses → Text → Bool
unfolding is_done
dependency_done statuses dep = elim (lookup dep statuses) [ none ↦ false | some st ↦ is_done st ]

-- `all(status in _DONE_FOR_DEPENDENCY_PURPOSES for status in status_by_key.values())`
unfoldable pub all_done : Statuses → Bool
unfolding is_done
all_done statuses = all (λ (e : Text × StageStatus). is_done e.1) statuses
