-- ===== src/Engine/StateMachine/Stage.antt =====
-- `class StageStateMachine` of state_machine.py. A `datetime.now` is an argument.
use forge_ai_autonomous_soft.Common.{ℕ, Bool, List, [], ◌∷◌, ◌++◌, elem}
use forge_ai_autonomous_soft.Core.{StageStatus, stage_status_eq}
use forge_ai_autonomous_soft.Engine.Errors.{Result, ok, ◌>>◌}
use forge_ai_autonomous_soft.Engine.StateMachine.{
  stage_transitions, is_terminal_stage_status, validate_stage_transition,
}

pub record StageStateMachine : Type 0 where
  pub status : StageStatus
  pub history : List (StageStatus × ℕ)

-- `__init__`
unfoldable pub init : StageStatus → ℕ → StageStateMachine
init initial now = record { status = initial; history = (initial, now) ∷ [] }

unfoldable pub can_transition_to : StageStatus → StageStateMachine → Bool
unfolding stage_transitions
can_transition_to target m = elem target (stage_transitions m.status)

unfoldable pub transition_to : StageStatus → ℕ → StageStateMachine → Result StageStateMachine
unfolding validate_stage_transition
transition_to target now m =
    validate_stage_transition m.status target
    >> ok (record { status = target; history = m.history ++ (target, now) ∷ [] })

unfoldable pub is_terminal : StageStateMachine → Bool
unfolding is_terminal_stage_status
is_terminal m = is_terminal_stage_status m.status
