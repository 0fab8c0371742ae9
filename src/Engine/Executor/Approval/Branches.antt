-- ===== src/Engine/Executor/Approval/Branches.antt =====
-- `resolve_approval` on its branches.
use forge_ai_autonomous_soft.Common.{
  ℕ, ◌+◌, ◌≡◌, Option, none, some, Text, arith, Option-cases, ◌⊎◌, inl, inr,
}
use forge_ai_autonomous_soft.Core.{ApprovalDecision}
use forge_ai_autonomous_soft.Engine.Errors.{
  EngineError, ok, err, approval_not_found, approval_already_decided, unsupported_approval_decision,
}
use forge_ai_autonomous_soft.Engine.Decisions.{ApprovalOutcome, outcome_for_decision}
use forge_ai_autonomous_soft.Engine.Session.Rows.{WorkflowApproval}
use forge_ai_autonomous_soft.Engine.Session.Actions.{World, Store, pure, by_id, ◌>>◌}
use forge_ai_autonomous_soft.Engine.Executor.Approval.{
  approval_id_of, record_decision, apply_decision, resolve_approval,
}

module _ (w : World) (i : ℕ) (decision : ApprovalDecision) (by : Option ℕ) (comment : Option Text)
    (s : Store) where
  pub resolve_missing :
      by_id approval_id_of i s.approvals ≡ none
      → resolve_approval w i decision by comment s ≡ (err (approval_not_found i), s)
  unfolding resolve_approval
  resolve_missing h = rw h

  module _ {row : WorkflowApproval} (found : by_id approval_id_of i s.approvals ≡ some row) where
    pub resolve_decided :
        {d : ApprovalDecision}
        → row.decision ≡ some d
        → resolve_approval w i decision by comment s ≡ (err (approval_already_decided i), s)
    unfolding resolve_approval
    resolve_decided h = rw found (ground arith)

    pub resolve_unsupported :
        {e : EngineError}
        → row.decision ≡ none
        → outcome_for_decision decision ≡ err e
        → resolve_approval w i decision by comment s ≡ (err e, s)
    unfolding resolve_approval
    resolve_unsupported h k = rw found (ground arith)

    pub resolve_recorded :
        {outcome : ApprovalOutcome}
        → row.decision ≡ none
        → outcome_for_decision decision ≡ ok outcome
        → let at = w.time s.clock_reads in
          resolve_approval w i decision by comment s
          ≡ (apply_decision w row decision outcome comment at >> pure i) (
              record_decision i decision by comment at
                (record s { clock_reads = s.clock_reads + 1 }))
    unfolding resolve_approval
    resolve_recorded h k = rw found (ground arith)

-- Why an approval cannot be resolved with a decision.
abbrev pub IsRefused : ℕ → ApprovalDecision → Store → Type 0
IsRefused i decision s =
    (by_id approval_id_of i s.approvals ≡ none)
    ⊎ (((row : WorkflowApproval) × (d : ApprovalDecision) × (by_id approval_id_of i s.approvals
            ≡ some row)
          × (row.decision ≡ some d))
        ⊎ (decision ≡ ApprovalDecision.escalate))

-- Resolving an approval that does not exist or is decided already, and any decision to escalate,
-- raises an exception, and nothing at all is written.
pub resolve_refused :
    (w : World) (i : ℕ) (decision : ApprovalDecision) (by : Option ℕ) (comment : Option Text)
    (s : Store)
    → IsRefused i decision s
    → (e : EngineError) × (resolve_approval w i decision by comment s ≡ (err e, s))
unfolding outcome_for_decision
resolve_refused w i decision by comment s (inl missing) =
    (_, resolve_missing w i decision by comment s missing)
resolve_refused w i decision by comment s (inr (inl (row, d, found, made))) =
    (_, resolve_decided w i decision by comment s found made)
resolve_refused w i decision by comment s (inr (inr escalates)) =
    elim (Option-cases (by_id approval_id_of i s.approvals)) [
      | inl missing ↦ (_, resolve_missing w i decision by comment s missing)
      | inr (row, found) ↦ elim (Option-cases row.decision) [
        | inr (d, made) ↦ (_, resolve_decided w i decision by comment s found made)
        | inl undecided ↦ (
          unsupported_approval_decision,
          resolve_unsupported w i decision by comment s found undecided (ground (arith, escalates)),
        )
      ]
    ]
