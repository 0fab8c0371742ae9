-- ===== src/Engine/Evolution/Approvals.antt =====
-- `resolve_approval` evolves the tables: the decision is written to an undecided approval only.
use forge_ai_autonomous_soft.Common.{
  ℕ, ◌≡◌, refl, sym, subst, Option, none, some, List, [], Text, Bool-cases, Option-cases, inl, inr,
  eqb, eqb_iff,
}
use forge_ai_autonomous_soft.Core.{ApprovalDecision}
use forge_ai_autonomous_soft.Engine.Errors.{Result, ok, err}
use forge_ai_autonomous_soft.Engine.Decisions.{ApprovalOutcome, halt, resume, outcome_for_decision}
use forge_ai_autonomous_soft.Engine.Definition.{WorkflowDefinition}
use forge_ai_autonomous_soft.Engine.Session.Rows.{WorkflowExecution, WorkflowApproval}
use forge_ai_autonomous_soft.Engine.Session.Actions.{World, Store, by_id, update, pure}
use forge_ai_autonomous_soft.Engine.Executor.Plan.{Statuses, Ids}
use forge_ai_autonomous_soft.Engine.Executor.Approval.{
  approval_id_of, halt_execution, resume_execution, after_run, apply_decision, resolve_approval,
  record_decision,
}
use forge_ai_autonomous_soft.Engine.Executor.Approval.Branches.{
  resolve_missing, resolve_decided, resolve_unsupported, resolve_recorded,
}
use forge_ai_autonomous_soft.Engine.Evolution.{Evolves, Evolving, Onward, decided}
use forge_ai_autonomous_soft.Engine.Evolution.Rules.{
  Evolving-bind, Evolving-pure, Evolves-refl, Evolves-trans, Extends-refl, nothing_added,
  workflow_rests, stage_rests, Onward-refl, by_id-update,
}
use forge_ai_autonomous_soft.Engine.Evolution.Operations.{
  transitions, fail_workflow-Evolving, run_and_apply-Evolving, check_completion-Evolving,
}
use forge_ai_autonomous_soft.Engine.Evolution.Ticks.{key_for-Evolving, load_definition-Evolving}

-- Writing a decision to an approval that has none keeps those of the others.
undecided_write :
    (i j : ℕ) (f : WorkflowApproval → WorkflowApproval) (row : WorkflowApproval)
    (rows : List WorkflowApproval)
    → by_id approval_id_of i rows ≡ some row
    → row.decision ≡ none
    → ((r : WorkflowApproval) → approval_id_of (f r) ≡ approval_id_of r)
    → Onward ◌≡◌
        (decided (by_id approval_id_of j rows))
        (decided (by_id approval_id_of j (update approval_id_of i f rows)))
undecided_write i j f row rows found undecided same =
    rw (by_id-update approval_id_of i j f rows same) (elim (Bool-cases (eqb j i)) [
      | inl here ↦
          rw
            (
              here,
              subst (λ k. by_id approval_id_of k rows ≡ some row) (sym ((eqb_iff j i).0 here))
                  found,
              undecided,
            )
            tt
      | inr there ↦ rw there (Onward-refl ◌≡◌ (λ a. refl) _)
    ])

record_decision-Evolves :
    (i : ℕ) (decision : ApprovalDecision) (by : Option ℕ) (comment : Option Text) (at reads : ℕ)
    (row : WorkflowApproval) (s : Store)
    → by_id approval_id_of i s.approvals ≡ some row
    → row.decision ≡ none
    → Evolves s (record_decision i decision by comment at (record s { clock_reads = reads }))
unfolding record_decision
record_decision-Evolves i decision by comment at reads row s found undecided = record {
  workflows = λ i. workflow_rests i _;
  stages = λ i. stage_rests i _;
  decisions = λ j. undecided_write i j _ row s.approvals found undecided (λ r. refl);
  events = ([], nothing_added s.events);
  runner_calls = Extends-refl s.runner_calls;
  queue = Extends-refl s.queue;
}

module _ (w : World) where
  halt-Evolving :
      (execution : WorkflowExecution) (definition : WorkflowDefinition) (statuses : Statuses)
      (ids : Ids) (o : Option ℕ) (e : Text)
      → Evolving (halt_execution w execution definition statuses ids o e)
  unfolding halt_execution
  halt-Evolving execution definition statuses ids none e =
      search (transitions, fail_workflow-Evolving)
  halt-Evolving execution definition statuses ids (some i) e =
      search (transitions, fail_workflow-Evolving, key_for-Evolving) depth 9

  after_run-Evolving :
      (i : ℕ) (o : Option ℕ) (statuses : Statuses) → Evolving (after_run w i o statuses)
  unfolding after_run
  after_run-Evolving i none statuses = search (transitions, check_completion-Evolving)
  after_run-Evolving i (some j) statuses = search transitions

  resume-Evolving :
      (execution : WorkflowExecution) (definition : WorkflowDefinition) (statuses : Statuses)
      (ids : Ids) (o : Option ℕ) (at : ℕ)
      → Evolving (resume_execution w execution definition statuses ids o at)
  unfolding resume_execution
  resume-Evolving execution definition statuses ids none at = search transitions
  resume-Evolving execution definition statuses ids (some i) at =
      search (transitions, key_for-Evolving, run_and_apply-Evolving, after_run-Evolving) depth 11

  apply_decision-Evolving :
      (row : WorkflowApproval) (decision : ApprovalDecision) (outcome : ApprovalOutcome)
      (comment : Option Text) (at : ℕ)
      → Evolving (apply_decision w row decision outcome comment at)
  unfolding apply_decision
  apply_decision-Evolving row decision halt comment at =
      search (transitions, load_definition-Evolving, halt-Evolving) depth 7
  apply_decision-Evolving row decision resume comment at =
      search (transitions, load_definition-Evolving, resume-Evolving) depth 7

  module _ (i : ℕ) (decision : ApprovalDecision) (by : Option ℕ) (comment : Option Text) where
    resolve_undecided :
        (s : Store) (row : WorkflowApproval)
        → by_id approval_id_of i s.approvals ≡ some row
        → row.decision ≡ none
        → (r : Result ApprovalOutcome) → outcome_for_decision decision ≡ r
        → Evolves s (resolve_approval w i decision by comment s).1
    resolve_undecided s row found undecided (err e) h =
        rw (resolve_unsupported w i decision by comment s found undecided h) (Evolves-refl s)
    resolve_undecided s row found undecided (ok outcome) h =
        rw (resolve_recorded w i decision by comment s found undecided h) (
          Evolves-trans s _ _
            (record_decision-Evolves i decision by comment _ _ row s found undecided)
            ((Evolving-bind (apply_decision w row decision outcome comment _) (λ _. pure i)
                (apply_decision-Evolving row decision outcome comment _) (λ _. Evolving-pure i)).at
              _))

    resolve_found :
        (s : Store) (row : WorkflowApproval)
        → by_id approval_id_of i s.approvals ≡ some row
        → Evolves s (resolve_approval w i decision by comment s).1
    resolve_found s row found = elim (Option-cases row.decision) [
      | inl undecided ↦ resolve_undecided s row found undecided _ refl
      | inr (d, old) ↦ rw (resolve_decided w i decision by comment s found old) (Evolves-refl s)
    ]

    pub resolve_approval-Evolving : Evolving (resolve_approval w i decision by comment)
    resolve_approval-Evolving = record {
      at = λ s. elim (Option-cases (by_id approval_id_of i s.approvals)) [
        | inl missing ↦ rw (resolve_missing w i decision by comment s missing) (Evolves-refl s)
        | inr (row, found) ↦ resolve_found s row found
      ];
    }
