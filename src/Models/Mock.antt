-- ===== src/Models/Mock.antt =====
-- services/model_router/src/forgeai_model_router/provider.py: the provider of local development.
use Prim.Native.Nat.{◌/◌}
use forge_ai_autonomous_soft.Common.{
  ℕ, suc, max, List, [], ◌∷◌, ◌++◌, Text, codes, decimal, length, leb, if◌then◌else◌,
}
use forge_ai_autonomous_soft.Common.Outcome.{Outcome, returned, raised}
use forge_ai_autonomous_soft.Models.Profile.{
  ModelProfile, CompletionRequest, ProviderResult, ModelRouterError, provider_error,
}

pub record MockProvider : Type 0 where
  pub fail_first_n_calls : ℕ
  pub call_count : ℕ
  pub requests : List CompletionRequest

unfoldable pub estimate_tokens : Text → ℕ
estimate_tokens text = max 1 (length text / 4)

-- `MockProvider.complete`
unfoldable pub mock_complete :
    CompletionRequest
    → ModelProfile
    → MockProvider
    → Outcome ModelRouterError ProviderResult × MockProvider
unfolding estimate_tokens decimal
mock_complete request profile mock =
    let call_count = suc mock.call_count in
    let after = record mock { call_count = call_count; requests = mock.requests ++ request ∷ [] } in
    let last_message = request.last_message.content in
    let text = codes "[mock:" ++ profile.model_id ++ codes "] " ++ last_message in
    if leb call_count mock.fail_first_n_calls
    then (
      raised (
          provider_error
            (codes "mock provider scripted failure (call " ++ decimal call_count ++ codes ")")),
      after,
    )
    else (
      returned (record {
        text = text;
        finish_reason = codes "stop";
        input_tokens = estimate_tokens last_message;
        output_tokens = estimate_tokens text;
      }),
      after,
    )
