-- ===== src/Api/Workflows/Ownership.antt =====
-- What a request may not name: an execution of another project, and a stage or an approval of another
-- execution.
use forge_ai_autonomous_soft.Common.{
  ℕ, false, not, eqb, eqb_iff, Option, none, some, if◌then◌else◌, ◌≡◌, ◌≢◌, refl, ap, ◌∙◌, arith,
}
use forge_ai_autonomous_soft.Common.Outcome.{Outcome, returned, raised}
use forge_ai_autonomous_soft.Core.{ApprovalDecision}
use forge_ai_autonomous_soft.Common.{Text}
use forge_ai_autonomous_soft.Engine.Errors.{execution_not_found}
use forge_ai_autonomous_soft.Engine.Session.Rows.{WorkflowExecution, WorkflowApproval}
use forge_ai_autonomous_soft.Engine.Session.Actions.{World, or_raise}
use forge_ai_autonomous_soft.Engine.StateManager.{get_execution, execution_at}
use forge_ai_autonomous_soft.Engine.Evolution.{view, approval_at}
use forge_ai_autonomous_soft.Engine.Executor.Plan.{get_stage_executions}
use forge_ai_autonomous_soft.Engine.Executor.Control
use forge_ai_autonomous_soft.Engine.Executor.Approval
use forge_ai_autonomous_soft.Api.Workflows.{
  ApiError, Session, workflow_execution_not_found, stage_execution_not_found, approval_not_found,
  engine, go_on, as_decision, as_skip, fail, reply, ◌>>=◌, ◌>>◌, as_missing, names_stage,
  owned_approval, validated_execution, validated_stage_execution_id, validated_approval_id,
}
use forge_ai_autonomous_soft.Api.Workflows.Requests.{Request, handled, committed_detail, serve}

-- The project of an execution that there is.
abbrev pub project_of : Option WorkflowExecution → Option ℕ
project_of = view (λ row. some row.project_id)

abbrev pub execution_of : Option WorkflowApproval → Option ℕ
execution_of = view (λ row. some row.workflow_execution_id)

validated_execution-foreign :
    (execution_id project_id : ℕ) (s : Session)
    → project_of (execution_at execution_id s.store) ≢ some project_id
    → validated_execution execution_id project_id s ≡ (raised workflow_execution_not_found, s)
unfolding validated_execution get_execution
validated_execution-foreign execution_id project_id s = go (execution_at execution_id s.store)
  where
    go :
        (o : Option WorkflowExecution)
        → project_of o ≢ some project_id
        → (engine as_missing (or_raise (execution_not_found execution_id) o) >>= λ row.
              if not (eqb row.project_id project_id)
              then fail workflow_execution_not_found
              else reply row)
            s
          ≡ (raised workflow_execution_not_found, s)
    go none h = refl
    go (some row) h = ground (arith, h, eqb_iff row.project_id project_id)

pub validated_execution-owned :
    (execution_id project_id : ℕ) (s : Session) (row : WorkflowExecution)
    → execution_at execution_id s.store ≡ some row
    → row.project_id ≡ project_id
    → validated_execution execution_id project_id s ≡ (returned row, s)
unfolding validated_execution get_execution
validated_execution-owned execution_id project_id s row h e =
    ground (arith, h, e, eqb_iff row.project_id project_id)

module _ (w : World) where
  -- Whatever is asked of an execution in the name of a project that is not the execution's, or of
  -- an execution that there is not: the answer is the same not-found error, and nothing is changed.
  pub serve-foreign :
      (execution_id project_id : ℕ) (request : Request) (s : Session)
      → project_of (execution_at execution_id s.store) ≢ some project_id
      → serve w execution_id project_id request s ≡ (raised workflow_execution_not_found, s)
  unfolding serve
  serve-foreign execution_id project_id request s h =
      ap
        (λ (x : Outcome ApiError WorkflowExecution × Session).
          go_on x.0 (λ _. handled w execution_id request) x.1)
        (validated_execution-foreign execution_id project_id s h)

  serve-owned :
      (execution_id project_id : ℕ) (request : Request) (s : Session) (row : WorkflowExecution)
      → execution_at execution_id s.store ≡ some row
      → row.project_id ≡ project_id
      → serve w execution_id project_id request s ≡ handled w execution_id request s
  unfolding serve
  serve-owned execution_id project_id request s row h e =
      ap
        (λ (x : Outcome ApiError WorkflowExecution × Session).
          go_on x.0 (λ _. handled w execution_id request) x.1)
        (validated_execution-owned execution_id project_id s row h e)

  validated_approval_id-foreign :
      (execution_id approval_id : ℕ) (s : Session)
      → execution_of (approval_at approval_id s.store) ≢ some execution_id
      → validated_approval_id execution_id approval_id s ≡ (raised approval_not_found, s)
  unfolding validated_approval_id
  validated_approval_id-foreign execution_id approval_id s = go (approval_at approval_id s.store)
    where
      go :
          (o : Option WorkflowApproval)
          → execution_of o ≢ some execution_id
          → owned_approval execution_id o s ≡ (raised approval_not_found, s)
      go none h = refl
      go (some row) h = ground (arith, h, eqb_iff row.workflow_execution_id execution_id)

  -- In the name of the execution's own project: a decision on an approval of another execution, and
  -- the skipping of a stage that is not among the execution's, are refused with not-found errors,
  -- and nothing is changed.
  pub serve-foreign_part :
      (execution_id project_id approval_id stage_execution_id decided_by : ℕ)
      (decision : ApprovalDecision) (comment : Option Text) (s : Session) (row : WorkflowExecution)
      → execution_at execution_id s.store ≡ some row
      → row.project_id ≡ project_id
      → execution_of (approval_at approval_id s.store) ≢ some execution_id
      → names_stage stage_execution_id (get_stage_executions execution_id s.store) ≡ false
      → (serve w execution_id project_id
            (Request.resolve_approval approval_id decision comment decided_by)
            s
          ≡ (raised approval_not_found, s))
        × (serve w execution_id project_id (Request.skip_stage stage_execution_id) s
            ≡ (raised stage_execution_not_found, s))
  unfolding serve validated_stage_execution_id
  serve-foreign_part execution_id project_id approval_id stage_execution_id decided_by decision
        comment s row h e approval_ne stage_ne =
      (
        serve-owned execution_id project_id
              (Request.resolve_approval approval_id decision comment decided_by) s row h e
            ∙ ap
                (λ (x : Outcome ApiError WorkflowApproval × Session).
                  go_on x.0
                    (λ _.
                      engine as_decision
                        (Approval.resolve_approval w approval_id decision (some decided_by) comment)
                      >> committed_detail w execution_id)
                    x.1)
                (validated_approval_id-foreign execution_id approval_id s approval_ne),
        serve-owned execution_id project_id (Request.skip_stage stage_execution_id) s row h e
            ∙ ap
                (λ b.
                  ((if b then reply tt else fail stage_execution_not_found)
                      >> (engine as_skip (Control.skip_stage w stage_execution_id)
                          >> committed_detail w execution_id))
                    s)
                stage_ne,
      )
