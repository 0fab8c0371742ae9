-- ===== src/Models/Router.antt =====
-- services/model_router/src/forgeai_model_router/router.py. The loop over the attempts at one model
-- runs on fuel. The constraints of `TokenUsage` hold of what it is made of here: counts are not negative,
-- and a cost is taken not to be.
pub mod Fallback
pub mod Billing
use forge_ai_autonomous_soft.Common.{
  ℕ, zero, suc, Bool, true, false, Option, none, some, List, [], ◌∷◌, ◌++◌, Text, text_eq, codes,
  Dict, lookup, ltb, not, if◌then◌else◌,
}
use forge_ai_autonomous_soft.Common.Outcome.{Outcome, returned, raised}
use forge_ai_autonomous_soft.Core.{Float, RetryPolicy, TimeoutPolicy}
use forge_ai_autonomous_soft.Models.Profile.{
  Decimal, ModelProfile, CompletionRequest, CompletionResponse, ProviderResult, TokenUsage,
  ModelRouterError, model_not_found, all_models_exhausted, recorder_failed, out_of_fuel,
}
use forge_ai_autonomous_soft.Models.Registry.{ModelRegistry}

-- Whom a usage is attributed to.
pub record Attribution : Type 0 where
  pub organization_id : Option ℕ
  pub project_id : Option ℕ
  pub workflow_execution_id : Option ℕ

pub record UsageEntry : Type 0 where
  pub model_key : Text
  pub usage : TokenUsage
  pub attribution : Attribution

-- What is done besides the calls of providers: sleeps, and calls of the usage recorder.
pub record RouterLog : Type 0 where
  pub sleeps : List Float
  pub recorded : List UsageEntry

-- The outside world: a provider at the n-th attempt of this completion, with the seconds that
-- `asyncio.wait_for` leaves it, where it is called; `none` is any exception, a timeout too. A
-- recorder may raise. Arithmetic on floats and Decimals, and their literals.
pub record RouterWorld : Type 0 where
  pub call_provider : ℕ → ℕ → CompletionRequest → ModelProfile → Option ℕ → Option ProviderResult
  pub recorder_error : UsageEntry → Option Text
  pub float_literal : Text → Float
  pub float_mul : Float → Float → Float
  pub float_min : Float → Float → Float
  pub decimal_of : ℕ → Decimal
  pub decimal_add : Decimal → Decimal → Decimal
  pub decimal_mul : Decimal → Decimal → Decimal
  pub decimal_div : Decimal → Decimal → Decimal

-- The arguments of `complete` that its loops do not change, and the router's own fields.
pub record Completion : Type 0 where
  pub registry : ModelRegistry
  pub providers : Dict Text ℕ
  pub request : CompletionRequest
  pub retry_policy : Option RetryPolicy
  pub timeout_policy : Option TimeoutPolicy
  pub has_recorder : Bool
  pub attribution : Attribution

-- How the attempts at one model end, with the total number of attempts.
pub data Attempted : Type 0 where
  won : (result : ProviderResult) (total_attempts : ℕ) → Attempted
  lost : (total_attempts : ℕ) → Attempted
  unfinished : Attempted

-- `timeout_policy.seconds`, if both are there.
abbrev pub effective_timeout : Option TimeoutPolicy → Option ℕ
effective_timeout none = none
effective_timeout (some policy) = policy.seconds

-- A pass of the loop: the attempt succeeds, or it is the last one, or there is another pass.
abbrev pub unless_won :
    ℕ → RouterLog → Attempted × RouterLog → Option ProviderResult → Attempted × RouterLog
unless_won total log failed none = failed
unless_won total log failed (some result) = (won result (suc total), log)

abbrev pub unless_exhausted : ℕ → RouterLog → Attempted × RouterLog → Bool → Attempted × RouterLog
unless_exhausted total log again true = (lost (suc total), log)
unless_exhausted total log again false = again

module _ (w : RouterWorld) where
  -- `_compute_cost`
  unfoldable pub compute_cost : ModelProfile → ℕ → ℕ → Decimal
  compute_cost profile input_tokens output_tokens =
      let million = w.decimal_of 1000000 in
      let input_cost =
        w.decimal_mul (w.decimal_div (w.decimal_of input_tokens) million)
          profile.cost_per_1m_input in
      let output_cost =
        w.decimal_mul (w.decimal_div (w.decimal_of output_tokens) million)
          profile.cost_per_1m_output in
      w.decimal_add input_cost output_cost

  -- `retry_policy or RetryPolicy()`
  abbrev pub policy_or_default : Option RetryPolicy → RetryPolicy
  policy_or_default (some policy) = policy
  policy_or_default none = record {
    max_attempts = 0;
    backoff_seconds = w.float_literal (codes "1.0");
    backoff_multiplier = w.float_literal (codes "2.0");
    max_backoff_seconds = w.float_literal (codes "300.0");
  }

  abbrev pub slept : Float → RouterLog → RouterLog
  slept seconds log = record log { sleeps = log.sleeps ++ seconds ∷ [] }

  module _ (c : Completion) where
    abbrev pub policy : RetryPolicy
    policy = policy_or_default c.retry_policy

    -- `_call_with_timeout` at an attempt of this number, from 0.
    unfoldable pub call_with_timeout : ℕ → ℕ → ModelProfile → Option ProviderResult
    call_with_timeout n provider profile =
        w.call_provider n provider c.request profile (effective_timeout c.timeout_policy)

    -- `while True`, with `attempt` and `total_attempts` as they are before the pass.
    unfoldable pub attempt_loop :
        ℕ → ℕ → ModelProfile → ℕ → ℕ → Float → RouterLog → Attempted × RouterLog
    unfolding call_with_timeout
    attempt_loop zero provider profile attempt total delay log = (unfinished, log)
    attempt_loop (suc fuel) provider profile attempt total delay log =
        let again =
          attempt_loop fuel provider profile (suc attempt) (suc total)
            (w.float_mul delay policy.backoff_multiplier)
            (slept (w.float_min delay policy.max_backoff_seconds) log) in
        unless_won total log
          (unless_exhausted total log again (ltb policy.max_attempts (suc attempt)))
          (call_with_timeout total provider profile)

    -- One attempt more than the policy has retries.
    abbrev pub enough_fuel : ℕ
    enough_fuel = suc policy.max_attempts

    abbrev pub usage_of : ModelProfile → ProviderResult → TokenUsage
    usage_of profile result = record {
      input_tokens = result.input_tokens;
      output_tokens = result.output_tokens;
      cost_usd = compute_cost profile result.input_tokens result.output_tokens;
    }

    abbrev pub response_of : Text → ModelProfile → ProviderResult → ℕ → CompletionResponse
    response_of model_key profile result total = record {
      text = result.text;
      finish_reason = result.finish_reason;
      model_key = model_key;
      usage = usage_of profile result;
      attempts = total;
    }

    abbrev pub entry_of : Text → ModelProfile → ProviderResult → UsageEntry
    entry_of model_key profile result = record {
      model_key = model_key;
      usage = usage_of profile result;
      attribution = c.attribution;
    }

    abbrev pub unless_raised :
        CompletionResponse → Option Text → Outcome ModelRouterError CompletionResponse
    unless_raised response none = returned response
    unless_raised response (some text) = raised (recorder_failed text)

    -- What follows a call that succeeded.
    unfoldable pub finish :
        Text
        → ModelProfile
        → ProviderResult
        → ℕ
        → RouterLog
        → Outcome ModelRouterError CompletionResponse × RouterLog
    unfolding compute_cost
    finish model_key profile result total log =
        let response = response_of model_key profile result total in
        let entry = entry_of model_key profile result in
        if c.has_recorder
        then (
          unless_raised response (w.recorder_error entry),
          record log { recorded = log.recorded ++ entry ∷ [] },
        )
        else (returned response, log)

    -- What the rest of the candidates does, of the total of attempts.
    abbrev pub Rest : Type 0
    Rest = ℕ → RouterLog → Outcome ModelRouterError CompletionResponse × RouterLog

    abbrev pub after_attempts :
        Text
        → ModelProfile
        → Rest
        → Attempted × RouterLog
        → Outcome ModelRouterError CompletionResponse × RouterLog
    after_attempts model_key profile rest (won result total, log) =
        finish model_key profile result total log
    after_attempts model_key profile rest (lost total, log) = rest total log
    after_attempts model_key profile rest (unfinished, log) = (raised out_of_fuel, log)

    abbrev pub with_provider : Text → ModelProfile → Rest → Option ℕ → Rest
    with_provider model_key profile rest none total log = rest total log
    with_provider model_key profile rest (some provider) total log =
        after_attempts model_key profile rest
          (attempt_loop enough_fuel provider profile 0 total policy.backoff_seconds log)

    abbrev pub with_profile : Text → Rest → Option ModelProfile → Rest
    with_profile model_key rest none total log = (raised (model_not_found model_key), log)
    with_profile model_key rest (some profile) total log =
        if not profile.is_active
        then rest total log
        else with_provider model_key profile rest (lookup profile.provider c.providers) total log

    -- `for model_key in model_keys`
    unfoldable pub try_models : List Text → List Text → Rest
    unfolding attempt_loop finish
    try_models all_keys [] total log = (raised (all_models_exhausted all_keys), log)
    try_models all_keys (model_key ∷ model_keys) total log =
        with_profile model_key (try_models all_keys model_keys) (lookup model_key c.registry) total
          log

    -- `ModelRouter.complete`
    unfoldable pub complete :
        List Text → RouterLog → Outcome ModelRouterError CompletionResponse × RouterLog
    unfolding try_models
    complete [] log = (raised (all_models_exhausted []), log)
    complete (model_key ∷ model_keys) log =
        try_models (model_key ∷ model_keys) (model_key ∷ model_keys) 0 log
