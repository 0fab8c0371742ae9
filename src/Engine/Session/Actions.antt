-- ===== src/Engine/Session/Actions.antt =====
-- The session's tables, and calls that read and write them and may raise. What was written before
-- a raise stays written: whether it is committed is the caller's business.
use forge_ai_autonomous_soft.Common.{
  ℕ, ◌+◌, Bool, Option, none, some, List, [], ◌∷◌, Text, eqb, find, if◌then◌else◌,
}
use forge_ai_autonomous_soft.Core.{RetryPolicy}
use forge_ai_autonomous_soft.Engine.Errors.{EngineError, Result, ok, err}
use forge_ai_autonomous_soft.Engine.Version.{Unicode}
use forge_ai_autonomous_soft.Engine.Definition.{StageDefinition}
use forge_ai_autonomous_soft.Engine.Decisions.{Floats}
use forge_ai_autonomous_soft.Engine.EventBus.{Bus}
use forge_ai_autonomous_soft.Engine.Session.Rows.{
  Json, Workflow, WorkflowExecution, WorkflowStageExecution, WorkflowStage, WorkflowVersion,
  WorkflowApproval, WorkflowQueueEntry, WorkflowEvent, WorkflowMetric,
}

-- `StageRunContext` and `StageRunResult` of runner.py.
pub record StageRunContext : Type 0 where
  pub workflow_execution_id : ℕ
  pub project_id : ℕ
  pub stage_input : Json

pub record StageRunResult : Type 0 where
  pub success : Bool
  pub output : Json
  pub error : Option Text

-- What a runner was asked to do.
pub data RunnerCall : Type 0 where
  run rollback : (stage_id : Text) → RunnerCall

-- The outside world: the clock at its n-th reading, the stage runner at its n-th call (`none` and
-- `false` are exceptions), the event handlers, float arithmetic, and Python's character table.
pub record World : Type 0 where
  pub time : ℕ → ℕ
  pub run : ℕ → StageDefinition → StageRunContext → Option StageRunResult
  pub rollback : ℕ → StageDefinition → StageRunContext → Bool
  pub raises : ℕ → WorkflowEvent → Bool
  pub floats : Floats
  pub float_ok : RetryPolicy → Bool
  pub unicode : Unicode

pub record Store : Type 0 where
  pub workflows : List Workflow
  pub executions : List WorkflowExecution
  pub stage_executions : List WorkflowStageExecution
  pub stages : List WorkflowStage
  pub versions : List WorkflowVersion
  pub approvals : List WorkflowApproval
  pub queue : List WorkflowQueueEntry
  pub events : List WorkflowEvent
  pub metrics : List WorkflowMetric
  pub bus : Bus
  pub runner_calls : List RunnerCall
  pub next_id : ℕ
  pub clock_reads : ℕ

abbrev pub Action : Type 0 → Type 0
Action A = Store → Result A × Store

module _ {A : Type 0} where
  abbrev pub pure : A → Action A
  pure a s = (ok a, s)

  abbrev pub raise : EngineError → Action A
  raise e s = (err e, s)

  abbrev pub gets : (Store → A) → Action A
  gets f s = (ok (f s), s)

  abbrev pub lift : Result A → Action A
  lift r s = (r, s)

  abbrev pub or_raise : EngineError → Option A → Action A
  or_raise e none = raise e
  or_raise e (some a) = pure a

  -- The row with an id, in a table whose rows have the id `id_of`.
  abbrev pub by_id : (A → ℕ) → ℕ → List A → Option A
  by_id id_of i rows = find (λ row. eqb (id_of row) i) rows

  -- The table after a write to the row with an id.
  abbrev pub update : (A → ℕ) → ℕ → (A → A) → List A → List A
  update id_of i f [] = []
  update id_of i f (row ∷ rows) =
      if eqb (id_of row) i then f row ∷ rows else row ∷ update id_of i f rows

abbrev pub modify : (Store → Store) → Action (Unit {0})
modify f s = (ok tt, f s)

module _ {A B : Type 0} where
  abbrev pub continue : Result A → (A → Action B) → Action B
  continue (ok a) f = f a
  continue (err e) f = raise e

  infixl 5 ◌>>=◌ ◌>>◌
  abbrev pub ◌>>=◌ : Action A → (A → Action B) → Action B
  ◌>>=◌ m f s = let (r, s') = m s in continue r f s'

  abbrev pub ◌>>◌ : Action A → Action B → Action B
  m >> k = m >>= λ _. k

-- `datetime.now(UTC)`
unfoldable pub now : World → Action ℕ
now w s = (ok (w.time s.clock_reads), record s { clock_reads = s.clock_reads + 1 })

-- A new primary key.
unfoldable pub fresh : Action ℕ
fresh s = (ok s.next_id, record s { next_id = s.next_id + 1 })
