-- ===== src/Core/Policies.antt =====
-- services/core/src/forgeai_core/policies.py. A float is carried as its bit pattern; what is
-- computed with floats is a parameter of the functions that compute it.
use forge_ai_autonomous_soft.Common.{ℕ, Option}

abbrev pub Float : Type 0
Float = ℕ

pub data TimeoutAction : Type 0 where
  retry escalate cancel : TimeoutAction

pub record RetryPolicy : Type 0 where
  pub max_attempts : ℕ
  pub backoff_seconds : Float
  pub backoff_multiplier : Float
  pub max_backoff_seconds : Float

pub record TimeoutPolicy : Type 0 where
  pub seconds : Option ℕ
  pub on_timeout : TimeoutAction
