-- ===== src/Engine/StateMachine/Endings.antt =====
-- Which statuses end a workflow or a stage: what the tables of state_machine.py allow in the long
-- run.
use forge_ai_autonomous_soft.Common.{
  ◌≡◌, refl, ◌↔◌, Bool, true, false, [], ◌∷◌, elem, arith, Bool-cases, inl, inr,
}
use forge_ai_autonomous_soft.Core.{WorkflowStatus, StageStatus, workflow_status_eq, stage_status_eq}
use forge_ai_autonomous_soft.Engine.StateMachine.{
  workflow_transitions, stage_transitions, is_terminal_stage_status,
}

-- A stage status is terminal exactly when no transition leaves it.
pub is_terminal_stage_status_iff :
    (s : StageStatus)
    → (is_terminal_stage_status s ≡ true)
      ↔ ((t : StageStatus) → elem t (stage_transitions s) ≡ false)
unfolding is_terminal_stage_status stage_transitions
is_terminal_stage_status_iff StageStatus.completed = (λ h t. refl, λ h. refl)
is_terminal_stage_status_iff StageStatus.skipped = (λ h t. refl, λ h. refl)
is_terminal_stage_status_iff StageStatus.cancelled = (λ h t. refl, λ h. refl)
is_terminal_stage_status_iff StageStatus.failed =
    (λ h t. absurd (cc), λ h. absurd (cc (h StageStatus.retrying)))
is_terminal_stage_status_iff _ = (λ h t. absurd (cc), λ h. absurd (cc (h StageStatus.cancelled)))

-- A status that a sequence of allowed transitions reaches.
pub data WorkflowReach (s : WorkflowStatus) : WorkflowStatus → Type 0 where
  here : WorkflowReach s s
  next :
      {t u : WorkflowStatus}
      → WorkflowReach s t
      → elem u (workflow_transitions t) ≡ true
      → WorkflowReach s u

-- The statuses that nothing but archiving follows.
abbrev pub is_settled : WorkflowStatus → Bool
is_settled s =
    elem s (WorkflowStatus.completed ∷ WorkflowStatus.cancelled ∷ WorkflowStatus.archived ∷ [])

settled_step :
    (s t : WorkflowStatus)
    → is_settled s ≡ true
    → elem t (workflow_transitions s) ≡ true
    → is_settled t ≡ true
unfolding workflow_transitions
settled_step s t h e = ground arith

settled_reach :
    {s t : WorkflowStatus} → is_settled s ≡ true → WorkflowReach s t → is_settled t ≡ true
settled_reach h here = h
settled_reach h (next {t = t} {u = u} r e) = settled_step t u (settled_reach h r) e

pending_running :
    (s : WorkflowStatus) → is_settled s ≡ false → WorkflowReach s WorkflowStatus.running
unfolding workflow_transitions
pending_running WorkflowStatus.draft h =
    next (next {t = WorkflowStatus.draft} {u = WorkflowStatus.pending} here refl) refl
pending_running WorkflowStatus.running h = here
pending_running WorkflowStatus.failed h =
    next (next {t = WorkflowStatus.failed} {u = WorkflowStatus.retrying} here refl) refl
pending_running WorkflowStatus.completed h = absurd (cc)
pending_running WorkflowStatus.cancelled h = absurd (cc)
pending_running WorkflowStatus.archived h = absurd (cc)
pending_running _ h = next here refl

-- Allowed transitions lead from a status to RUNNING exactly when it is not COMPLETED, CANCELLED or
-- ARCHIVED: so also from FAILED.
pub running_reachable_iff :
    (s : WorkflowStatus) → WorkflowReach s WorkflowStatus.running ↔ (is_settled s ≡ false)
running_reachable_iff s = (
  λ r. elim (Bool-cases (is_settled s)) [
    | inl settled ↦ absurd (cc (settled_reach settled r))
    | inr open_ended ↦ open_ended
  ],
  pending_running s,
)
