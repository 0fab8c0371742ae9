-- ===== src/Engine/StateMachine/Trails.antt =====
-- The history of the two machines of state_machine.py, over any sequence of calls.
use forge_ai_autonomous_soft.Common.{
  ℕ, ◌≡◌, refl, Bool, true, List, [], ◌∷◌, ◌++◌, elem, arith, Bool-cases, inl, inr, sym, subst,
}
use forge_ai_autonomous_soft.Core.{WorkflowStatus, StageStatus, workflow_status_eq, stage_status_eq}
use forge_ai_autonomous_soft.Engine.Errors.{Result, ok, err}
use forge_ai_autonomous_soft.Engine.StateMachine.{workflow_transitions, stage_transitions}
use forge_ai_autonomous_soft.Engine.StateMachine.Workflow
use forge_ai_autonomous_soft.Engine.StateMachine.Workflow.{WorkflowStateMachine}
use forge_ai_autonomous_soft.Engine.StateMachine.Stage
use forge_ai_autonomous_soft.Engine.StateMachine.Stage.{StageStateMachine}

module _ {S : Type 0} (next : S → S → Bool) where
  -- The entries go from one status to the next along allowed transitions, and end at `t`.
  abbrev pub IsPath : S → List (S × ℕ) → S → Type 0
  IsPath s [] t = s ≡ t
  IsPath s ((u, now) ∷ entries) t = (next s u ≡ true) × IsPath u entries t

  -- A history begins with the initial status and goes along allowed transitions to the status.
  abbrev pub IsTrail : S → List (S × ℕ) → S → Type 0
  IsTrail initial [] t = ⊥
  IsTrail initial ((s, now) ∷ entries) t = (s ≡ initial) × IsPath s entries t

  IsPath-append :
      (s t u : S) (now : ℕ) (entries : List (S × ℕ))
      → IsPath s entries t
      → next t u ≡ true
      → IsPath s (entries ++ (u, now) ∷ []) u
  IsPath-append s t u now [] h e = (subst (λ x. next x u ≡ true) (sym h) e, refl)
  IsPath-append s t u now ((v, at) ∷ entries) h e = (h.0, IsPath-append v t u now entries h.1 e)

  IsTrail-append :
      (initial t u : S) (now : ℕ) (entries : List (S × ℕ))
      → IsTrail initial entries t
      → next t u ≡ true
      → IsTrail initial (entries ++ (u, now) ∷ []) u
  IsTrail-append initial t u now [] h e = absurd h
  IsTrail-append initial t u now ((v, at) ∷ entries) h e =
      (h.0, IsPath-append v t u now entries h.1 e)

abbrev pub workflow_next : WorkflowStatus → WorkflowStatus → Bool
workflow_next s t = elem t (workflow_transitions s)

abbrev pub stage_next : StageStatus → StageStatus → Bool
stage_next s t = elem t (stage_transitions s)

-- A caller that goes on after an InvalidTransitionError with the machine as it was.
abbrev kept {ℓ} : {M : Type ℓ} → M → Result M → M
kept m (ok m') = m'
kept m (err e) = m

unfoldable pub drive_workflow :
    List (WorkflowStatus × ℕ) → WorkflowStateMachine → WorkflowStateMachine
unfolding Workflow.transition_to
drive_workflow [] m = m
drive_workflow ((target, now) ∷ calls) m =
    drive_workflow calls (kept m (Workflow.transition_to target now m))

unfoldable pub drive_stage : List (StageStatus × ℕ) → StageStateMachine → StageStateMachine
unfolding Stage.transition_to
drive_stage [] m = m
drive_stage ((target, now) ∷ calls) m =
    drive_stage calls (kept m (Stage.transition_to target now m))

module _ (initial : WorkflowStatus) where
  abbrev HasTrail : WorkflowStateMachine → Type 0
  HasTrail m = IsTrail workflow_next initial m.history m.status

  attempt-HasTrail :
      (target : WorkflowStatus) (now : ℕ) (m : WorkflowStateMachine)
      → HasTrail m
      → HasTrail (kept m (Workflow.transition_to target now m))
  unfolding Workflow.transition_to
  attempt-HasTrail target now m h = elim (Bool-cases (workflow_next m.status target)) [
    | inl allowed ↦
        rw allowed (IsTrail-append workflow_next initial m.status target now m.history h allowed)
    | inr forbidden ↦ rw forbidden h
  ]

  drive-HasTrail :
      (calls : List (WorkflowStatus × ℕ)) (m : WorkflowStateMachine)
      → HasTrail m
      → HasTrail (drive_workflow calls m)
  unfolding drive_workflow
  drive-HasTrail [] m h = h
  drive-HasTrail ((target, now) ∷ calls) m h =
      drive-HasTrail calls _ (attempt-HasTrail target now m h)

-- Whatever transitions a caller asks for, and whichever of them are refused, the history of a
-- workflow's machine begins with its initial status, goes only along allowed transitions, and ends
-- at the current status.
pub drive_workflow-IsTrail :
    (initial : WorkflowStatus) (now : ℕ) (calls : List (WorkflowStatus × ℕ))
    → let m = drive_workflow calls (Workflow.init initial now) in
      IsTrail workflow_next initial m.history m.status
unfolding Workflow.init
drive_workflow-IsTrail initial now calls =
    drive-HasTrail initial calls (Workflow.init initial now) (refl, refl)

terminal_refuses :
    (target : StageStatus) (now : ℕ) (m : StageStateMachine)
    → Stage.is_terminal m ≡ true
    → kept m (Stage.transition_to target now m) ≡ m
unfolding Stage.transition_to Stage.is_terminal
terminal_refuses target now m h = ground arith

-- A stage's machine in a terminal status refuses every transition: it stays as it is.
pub drive_stage_of_terminal :
    (m : StageStateMachine) (calls : List (StageStatus × ℕ))
    → Stage.is_terminal m ≡ true
    → drive_stage calls m ≡ m
unfolding drive_stage
drive_stage_of_terminal m [] h = refl
drive_stage_of_terminal m ((target, now) ∷ calls) h =
    rw (terminal_refuses target now m h) (drive_stage_of_terminal m calls h)
