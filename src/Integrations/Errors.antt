-- ===== src/Integrations/Errors.antt =====
-- services/integrations/src/forgeai_integrations/exceptions.py and provider.py.
use forge_ai_autonomous_soft.Common.{
  joined, Option, none, some, List, [], ◌∷◌, ◌++◌, Text, text_leb, codes, sort,
}
use forge_ai_autonomous_soft.Core.{Float}

pub record RepositoryMetadata : Type 0 where
  pub owner : Text
  pub name : Text
  pub full_name : Text
  pub default_branch : Text
  pub visibility : Text
  pub html_url : Text

pub data IntegrationError : Type 0 where
  repository_not_found : (owner name : Text) → IntegrationError
  authentication_failure : (provider reason : Text) → IntegrationError
  insufficient_permissions : (provider : Text) (missing : List Text) → IntegrationError
  provider_unavailable : (provider reason : Text) → IntegrationError
  rate_limited : (provider : Text) (retry_after_seconds : Option Float) → IntegrationError
  -- An exception of another package, such as an httpx status error or a KeyError.
  other_error : (text : Text) → IntegrationError

abbrev missing_detail : List Text → Text
missing_detail [] = codes "access to this resource"
missing_detail (scope ∷ scopes) = joined (sort text_leb (scope ∷ scopes))

module _ (format_seconds : Float → Text) where
  abbrev retry_suffix : Option Float → Text
  retry_suffix none = []
  retry_suffix (some seconds) = codes " Retry after " ++ format_seconds seconds ++ codes "s."

  -- `str(exc)`; the format `.0f` is a parameter.
  unfoldable pub error_text : IntegrationError → Text
  error_text (repository_not_found owner name) =
      codes "Repository '"
      ++ owner
      ++ codes "/"
      ++ name
      ++ codes "' was not found or is not accessible."
  error_text (authentication_failure provider reason) =
      codes "Authentication with " ++ provider ++ codes " failed: " ++ reason
  error_text (insufficient_permissions provider missing) =
      provider
      ++ codes " credential is missing required permissions: "
      ++ missing_detail missing
      ++ codes "."
  error_text (provider_unavailable provider reason) =
      provider ++ codes " is unavailable: " ++ reason
  error_text (rate_limited provider seconds) =
      provider ++ codes " rate limit exceeded." ++ retry_suffix seconds
  error_text (other_error text) = text
