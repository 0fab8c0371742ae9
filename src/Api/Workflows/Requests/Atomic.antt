-- ===== src/Api/Workflows/Requests/Atomic.antt =====
-- How a request ends: answered, with what it did committed, or refused, with nothing committed.
use forge_ai_autonomous_soft.Common.{
  ℕ, Bool, true, false, not, eqb, Option, none, some, if◌then◌else◌, ◌≡◌, refl, ap, sym, subst,
  arith,
}
use forge_ai_autonomous_soft.Common.Outcome.{Outcome, returned, raised}
use forge_ai_autonomous_soft.Core.{WorkflowStatus}
use forge_ai_autonomous_soft.Engine.Errors.{EngineError, Result, ok, err, execution_not_found}
use forge_ai_autonomous_soft.Engine.Session.Rows.{WorkflowExecution, WorkflowApproval}
use forge_ai_autonomous_soft.Engine.Session.Actions.{World, Store, Action, or_raise}
use forge_ai_autonomous_soft.Engine.StateManager.{get_execution, execution_at}
use forge_ai_autonomous_soft.Engine.Evolution.{
  Evolves, Evolving, Onward, execution_status, approval_at,
}
use forge_ai_autonomous_soft.Engine.Evolution.Rules.{Evolves-refl}
use forge_ai_autonomous_soft.Engine.Evolution.Transitions.{transition_workflow-Evolving}
use forge_ai_autonomous_soft.Engine.Evolution.Operations.{cancel-Evolving, skip_stage-Evolving}
use forge_ai_autonomous_soft.Engine.Evolution.Approvals.{resolve_approval-Evolving}
use forge_ai_autonomous_soft.Engine.Evolution.Ticks.{advance-Evolving}
use forge_ai_autonomous_soft.Engine.Executor.Control
use forge_ai_autonomous_soft.Engine.Executor.Approval
use forge_ai_autonomous_soft.Engine.Executor.Advance
use forge_ai_autonomous_soft.Engine.Executor.Plan.{get_stage_executions}
use forge_ai_autonomous_soft.Api.Workflows.{
  ApiError, Service, Session, workflow_execution_not_found, WorkflowExecutionDetail, detail_of,
  engine, after_engine, go_on, fail, reply, ◌>>=◌, ◌>>◌, as_missing, as_transition, as_skip,
  as_decision, uncaught, stage_execution_not_found, names_stage, owned_approval,
  validated_stage_execution_id, validated_approval_id, build_detail, validated_execution,
}
use forge_ai_autonomous_soft.Api.Workflows.Requests.{
  Request, Reply, execution, committed_detail, handled, serve,
}

-- A request that is answered has changed nothing, or all that it changed is committed; one that is
-- refused has committed nothing. Either way, the session's tables have evolved by the engine's rules.
pub data Ended (s : Session) : Outcome ApiError Reply × Session → Type 0 where
  unchanged : (r : Reply) → Ended s (returned r, s)
  saved :
      (r : Reply) (store : Store)
      → Evolves s.store store
      → Ended s (returned r, record { store = store; committed = store })
  undone :
      (e : ApiError) (store : Store)
      → Evolves s.store store
      → Ended s (raised e, record { store = store; committed = s.committed })

abbrev IsPresent : Option WorkflowExecution → Type 0
IsPresent o = (row : WorkflowExecution) × (o ≡ some row)

still-IsPresent :
    (R : WorkflowStatus → WorkflowStatus → Type 0) (before after : Option WorkflowExecution)
    → IsPresent before
    → Onward R (execution_status before) (execution_status after)
    → IsPresent after
still-IsPresent R none after (row, e) h = absurd (cc)
still-IsPresent R (some row) none p h = absurd h
still-IsPresent R (some row) (some after) p h = (after, refl)

build_detail-present :
    (i : ℕ) (s : Session)
    → IsPresent (execution_at i s.store)
    → (shown : WorkflowExecutionDetail) × (build_detail i s ≡ (returned shown, s))
unfolding build_detail get_execution
build_detail-present i s (row, e) =
    (detail_of row (get_stage_executions i s.store), ground (arith, e))

module _ (w : World) where
  committed_detail-saved :
      (i : ℕ) (s : Session) (store : Store)
      → IsPresent (execution_at i store)
      → Evolves s.store store
      → Ended s (committed_detail w i (record s { store = store }))
  committed_detail-saved i s store present evolved =
      let after : Session = record { store = store; committed = store } in
      let shown = build_detail-present i after present in
      subst (Ended s)
        (sym (
          ap
            (λ (x : Outcome ApiError WorkflowExecutionDetail × Session).
              go_on x.0 (λ d. reply (execution d)) x.1)
            shown.1))
        (saved (execution shown.0) store evolved)

  operation-Ended :
      (caught : EngineError → ApiError) (m : Action ℕ) (i : ℕ) (s : Session)
      → Evolving m
      → IsPresent (execution_at i s.store)
      → Ended s ((engine caught m >> committed_detail w i) s)
  operation-Ended caught m i s evolving present = go (m s.store) (evolving.at s.store)
    where
      go :
          (x : Result ℕ × Store)
          → Evolves s.store x.1
          → Ended s
              (let (r, s') = after_engine caught s x in go_on r (λ _. committed_detail w i) s')
      go (ok a, store) h =
          committed_detail-saved i s store (still-IsPresent _ _ _ present (h.workflows i)) h
      go (err e, store) h = undone (caught e) store h

  -- A check before the rest of a request leaves the session as it is.
  guarded-Ended :
      {A : Type 0} (s : Session) (check : Service A) (rest : Service Reply)
      → (check s).1 ≡ s
      → Ended s (rest s)
      → Ended s ((check >> rest) s)
  guarded-Ended {A} s check rest = go (check s)
    where
      go :
          (x : Outcome ApiError A × Session)
          → x.1 ≡ s
          → Ended s (rest s)
          → Ended s (go_on x.0 (λ _. rest) x.1)
      go (returned a, s') e h = subst (λ t. Ended s (rest t)) (sym e) h
      go (raised x, s') e h =
          subst (λ (t : Session). Ended s (raised x, t)) (sym e)
            (undone x s.store (Evolves-refl s.store))

  validated_stage_execution_id-same :
      (i j : ℕ) (s : Session) → (validated_stage_execution_id i j s).1 ≡ s
  unfolding validated_stage_execution_id
  validated_stage_execution_id-same i j s = go (names_stage j (get_stage_executions i s.store))
    where
      go : (b : Bool) → ((if b then reply tt else fail stage_execution_not_found) s).1 ≡ s
      go true = refl
      go false = refl

  validated_approval_id-same : (i j : ℕ) (s : Session) → (validated_approval_id i j s).1 ≡ s
  unfolding validated_approval_id
  validated_approval_id-same i j s = go (approval_at j s.store)
    where
      go : (o : Option WorkflowApproval) → (owned_approval i o s).1 ≡ s
      go none = refl
      go (some row) = ground (arith)

  pause-Evolving : (i : ℕ) → Evolving (Control.pause w i)
  unfolding Control.pause
  pause-Evolving i = transition_workflow-Evolving w i WorkflowStatus.paused none

  resume-Evolving : (i : ℕ) → Evolving (Control.resume w i)
  unfolding Control.resume
  resume-Evolving i = transition_workflow-Evolving w i WorkflowStatus.running none

  handled-Ended :
      (i : ℕ) (request : Request) (s : Session)
      → IsPresent (execution_at i s.store)
      → Ended s (handled w i request s)
  handled-Ended i Request.detail s present =
      let shown = build_detail-present i s present in
      subst (Ended s)
        (sym (
          ap
            (λ (x : Outcome ApiError WorkflowExecutionDetail × Session).
              go_on x.0 (λ d. reply (execution d)) x.1)
            shown.1))
        (unchanged (execution shown.0))
  handled-Ended i Request.advance s present =
      operation-Ended uncaught (Advance.advance w i) i s (advance-Evolving w i) present
  handled-Ended i Request.pause s present =
      operation-Ended as_transition (Control.pause w i) i s (pause-Evolving i) present
  handled-Ended i Request.resume s present =
      operation-Ended as_transition (Control.resume w i) i s (resume-Evolving i) present
  handled-Ended i Request.cancel s present =
      operation-Ended as_transition (Control.cancel w i) i s (cancel-Evolving w i) present
  handled-Ended i Request.list_approvals s present = unchanged _
  handled-Ended i (Request.skip_stage j) s present =
      guarded-Ended s (validated_stage_execution_id i j) _ (validated_stage_execution_id-same i j s)
        (operation-Ended as_skip (Control.skip_stage w j) i s (skip_stage-Evolving w j) present)
  handled-Ended i (Request.resolve_approval j decision comment decided_by) s present =
      guarded-Ended s (validated_approval_id i j) _ (validated_approval_id-same i j s) (
        operation-Ended as_decision
          (Approval.resolve_approval w j decision (some decided_by) comment) i s
          (resolve_approval-Evolving w j decision (some decided_by) comment) present)

  -- A request on an execution ends in one of three ways. It is answered and has changed nothing; it is
  -- answered and all its changes are committed; or it is refused and has committed nothing. The
  -- statuses, decisions, events and queue of the session only move as the engine's rules allow.
  pub serve-Ended :
      (execution_id project_id : ℕ) (request : Request) (s : Session)
      → Ended s (serve w execution_id project_id request s)
  unfolding serve validated_execution get_execution
  serve-Ended execution_id project_id request s = go (execution_at execution_id s.store) refl
    where
      answer : Option WorkflowExecution → Outcome ApiError Reply × Session
      answer o =
          ((engine as_missing (or_raise (execution_not_found execution_id) o) >>= λ row.
          if not (eqb row.project_id project_id)
          then fail workflow_execution_not_found
          else reply row)
              >> handled w execution_id request)
            s

      go :
          (o : Option WorkflowExecution)
          → execution_at execution_id s.store ≡ o
          → Ended s (answer o)
      go none h = undone _ s.store (Evolves-refl s.store)
      go (some row) h = choose (eqb row.project_id project_id)
        where
          choose :
              (b : Bool)
              → Ended s (
                  ((if not b then fail workflow_execution_not_found else reply row)
                      >> handled w execution_id request)
                    s)
          choose false = undone _ s.store (Evolves-refl s.store)
          choose true = handled-Ended execution_id request s (row, h)
