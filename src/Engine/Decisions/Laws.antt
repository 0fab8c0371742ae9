-- ===== src/Engine/Decisions/Laws.antt =====
-- Laws of the three deciders.
use forge_ai_autonomous_soft.Common.{ℕ, ◌≡◌, false, arith}
use forge_ai_autonomous_soft.Core.{Float, RetryPolicy}
use forge_ai_autonomous_soft.Engine.Errors.{ok}
use forge_ai_autonomous_soft.Engine.Decisions.{Floats, compute_backoff_seconds}

module _ (floats : Floats) (policy : RetryPolicy) where
  -- The backoff never exceeds the policy's cap, whatever the attempt, if no float is below itself.
  pub backoff_capped :
      (attempt_number : ℕ) {delay : Float}
      → ((x : Float) → floats.lt x x ≡ false)
      → compute_backoff_seconds floats policy attempt_number ≡ ok delay
      → floats.lt policy.max_backoff_seconds delay ≡ false
  unfolding compute_backoff_seconds
  backoff_capped attempt_number irreflexive h =
      ground (arith, irreflexive policy.max_backoff_seconds)
