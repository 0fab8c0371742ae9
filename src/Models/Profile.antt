-- ===== src/Models/Profile.antt =====
-- services/model_router/src/forgeai_model_router/profile.py, types.py and exceptions.py. A Decimal
-- is a number that stands for it, as a float is; the arithmetic on them is a parameter.
use forge_ai_autonomous_soft.Common.{
  ℕ, Bool, true, Option, List, Text, text_eq, Eq, eqb, ◌≡◌, ◌↔◌, arith,
}
use forge_ai_autonomous_soft.Core.{Float}

abbrev pub Decimal : Type 0
Decimal = ℕ

pub data ModelTier : Type 0 where
  fast_cheap balanced high_capability : ModelTier

abbrev tier_rank : ModelTier → ℕ
tier_rank fast_cheap = 0
tier_rank balanced = 1
tier_rank high_capability = 2

pub tier_rank_iff : (a b : ModelTier) → (eqb (tier_rank a) (tier_rank b) ≡ true) ↔ (a ≡ b)
tier_rank_iff a b = (λ h. ground arith, λ h. ground arith)

instance abbrev pub tier_eq : Eq ModelTier
tier_eq = record { beq = λ a b. eqb (tier_rank a) (tier_rank b); beq_iff = tier_rank_iff }

pub record ModelProfile : Type 0 where
  pub key : Text
  pub provider : Text
  pub model_id : Text
  pub tier : ModelTier
  pub context_window : ℕ
  pub supports_tools : Bool
  pub supports_structured_output : Bool
  pub cost_per_1m_input : Decimal
  pub cost_per_1m_output : Decimal
  pub is_active : Bool

pub data Role : Type 0 where
  system user assistant : Role

pub record ModelMessage : Type 0 where
  pub role : Role
  pub content : Text

-- Pydantic refuses a request with no message, which `last_message` relies on.
pub record CompletionRequest : Type 0 where
  pub earlier_messages : List ModelMessage
  pub last_message : ModelMessage
  pub max_tokens : Option ℕ
  pub temperature : Float

pub record ProviderResult : Type 0 where
  pub text : Text
  pub finish_reason : Text
  pub input_tokens : ℕ
  pub output_tokens : ℕ

pub record TokenUsage : Type 0 where
  pub input_tokens : ℕ
  pub output_tokens : ℕ
  pub cost_usd : Decimal

pub record CompletionResponse : Type 0 where
  pub text : Text
  pub finish_reason : Text
  pub model_key : Text
  pub usage : TokenUsage
  pub attempts : ℕ

-- `ProviderNotConfiguredError` is only ever the cause of another error, and causes are left out.
pub data ModelRouterError : Type 0 where
  model_not_found : (model_key : Text) → ModelRouterError
  model_already_registered : (model_key : Text) → ModelRouterError
  all_models_exhausted : (model_keys : List Text) → ModelRouterError
  -- A provider's, with its text.
  provider_error : (text : Text) → ModelRouterError
  -- What a usage recorder raises, of whichever class, with its text.
  recorder_failed : (text : Text) → ModelRouterError
  -- No error of the source: the loop's fuel is used up.
  out_of_fuel : ModelRouterError
