-- ===== src/Engine/Decisions.antt =====
-- The three pure deciders of services/workflow_engine/src/forgeai_workflow_engine: retry_engine.py,
-- timeout_engine.py and approval_engine.py. A datetime is a number of microseconds. The float
-- arithmetic is the parameter `floats`, on bit patterns.
pub mod Laws
use forge_ai_autonomous_soft.Common.{
  ℕ, ℤ, sub_ℕ, ◌+◌, ◌-◌, ◌*◌, Bool, true, false, Option, none, some, if◌then◌else◌, leb, ltb,
}
use forge_ai_autonomous_soft.Core.{
  Float, RetryPolicy, TimeoutPolicy, TimeoutAction, ApprovalDecision,
}
use forge_ai_autonomous_soft.Engine.Errors.{
  Result, ok, err, overflow_error, unsupported_approval_decision, ◌>>=◌,
}

pub record Floats : Type 0 where
  -- `x ** n`, which overflows with an OverflowError.
  pub pow : Float → ℤ → Option Float
  pub mul : Float → Float → Float
  -- `x < y`
  pub lt : Float → Float → Bool
  -- `now + timedelta(seconds=x)`, which overflows too.
  pub later : ℕ → Float → Option ℕ

abbrev or_overflow {ℓ} : {A : Type ℓ} → Option A → Result A
or_overflow none = err overflow_error
or_overflow (some a) = ok a

unfoldable pub should_retry : RetryPolicy → ℕ → Bool
should_retry policy attempt_number = leb attempt_number policy.max_attempts

pub record RetryDecision : Type 0 where
  pub should_retry : Bool
  pub retry_after : Option ℕ

module _ (floats : Floats) where
  -- Python's `min(x, y)` is `y` only if `y < x`.
  abbrev float_min : Float → Float → Float
  float_min x y = if floats.lt y x then y else x

  unfoldable pub compute_backoff_seconds : RetryPolicy → ℕ → Result Float
  compute_backoff_seconds policy attempt_number = do
    factor ← or_overflow (floats.pow policy.backoff_multiplier (sub_ℕ attempt_number 1))
    ok (float_min (floats.mul policy.backoff_seconds factor) policy.max_backoff_seconds)

  unfoldable pub decide : RetryPolicy → ℕ → ℕ → Result RetryDecision
  unfolding should_retry compute_backoff_seconds
  decide policy attempt_number now =
      let retry = do
        delay ← compute_backoff_seconds policy attempt_number
        at ← or_overflow (floats.later now delay)
        ok (record { should_retry = true; retry_after = some at })
      in if should_retry policy attempt_number
        then retry
        else ok (record { should_retry = false; retry_after = none })

-- `(now - started_at).total_seconds() > policy.seconds`, in exact microseconds, with which the float
-- of the code agrees below 2 ** 33 seconds; `-` stops at 0, where the difference of the code is
-- negative and both tests fail.
unfoldable pub has_timed_out : TimeoutPolicy → ℕ → ℕ → Bool
has_timed_out policy started_at now = elim policy.seconds [
  | none ↦ false
  | some seconds ↦ ltb (seconds * 1000000) (now - started_at)
]

unfoldable pub action_for_timeout : TimeoutPolicy → TimeoutAction
action_for_timeout policy = policy.on_timeout

pub data ApprovalOutcome : Type 0 where
  resume halt : ApprovalOutcome

unfoldable pub outcome_for_decision : ApprovalDecision → Result ApprovalOutcome
outcome_for_decision ApprovalDecision.approve = ok resume
outcome_for_decision ApprovalDecision.request_changes = ok resume
outcome_for_decision ApprovalDecision.reject = ok halt
outcome_for_decision ApprovalDecision.timeout = ok halt
outcome_for_decision ApprovalDecision.escalate = err unsupported_approval_decision
