-- ===== src/Integrations/Connection.antt =====
-- services/integrations/src/forgeai_integrations/connection.py. A frozenset of scopes is a list; the
-- time of the check is left out of the report.
pub mod Status
use forge_ai_autonomous_soft.Common.{
  ℕ, Bool, true, false, not, ◌==◌, elem, select, Option, none, some, List, [], ◌∷◌, ◌++◌, Text,
  text_eq, codes, if◌then◌else◌,
}
use forge_ai_autonomous_soft.Common.Outcome.{Outcome, returned, raised, ◌>>=◌}
use forge_ai_autonomous_soft.Core.{Float}
use forge_ai_autonomous_soft.Integrations.Errors.{
  RepositoryMetadata, IntegrationError, repository_not_found, authentication_failure,
  insufficient_permissions, provider_unavailable, rate_limited, other_error, error_text,
}

pub data ConnectionStatus : Type 0 where
  connected not_found authentication_failed permissions_missing unavailable limited :
      ConnectionStatus

pub record RepositoryConnectionReport : Type 0 where
  pub provider : Text
  pub connection_status : ConnectionStatus
  pub repository : Option RepositoryMetadata
  pub granted_scopes : List Text
  pub missing_scopes : List Text
  pub detail : Option Text

-- `is_connected`
unfoldable pub is_connected : RepositoryConnectionReport → Bool
is_connected report = elim report.connection_status [
  | ConnectionStatus.connected ↦ true
  | _ ↦ false
]

abbrev pub private_repo_scope : Text
private_repo_scope = codes "repo"

abbrev pub is_public : RepositoryMetadata → Bool
is_public repository = repository.visibility == codes "public"

-- `required_scopes`
abbrev pub required_scopes : RepositoryMetadata → List Text
required_scopes repository = if is_public repository then [] else private_repo_scope ∷ []

-- What a provider answers to the two calls.
pub record Answers : Type 0 where
  pub authorized_scopes : Outcome IntegrationError (List Text)
  pub repository : Outcome IntegrationError RepositoryMetadata

module _ (format_seconds : Float → Text) (provider_name : Text) where
  -- `_report` with a status and a detail only.
  abbrev pub failure :
      ConnectionStatus → IntegrationError → Outcome IntegrationError RepositoryConnectionReport
  failure status e = returned record {
    provider = provider_name;
    connection_status = status;
    repository = none;
    granted_scopes = [];
    missing_scopes = [];
    detail = some (error_text format_seconds e);
  }

  -- The `except` clauses around the first call.
  unfoldable pub scopes_failed :
      IntegrationError → Outcome IntegrationError RepositoryConnectionReport
  unfolding error_text
  scopes_failed (authentication_failure provider reason) =
      failure authentication_failed (authentication_failure provider reason)
  scopes_failed (rate_limited provider seconds) = failure limited (rate_limited provider seconds)
  scopes_failed (provider_unavailable provider reason) =
      failure unavailable (provider_unavailable provider reason)
  scopes_failed e = raised e

  -- The `except` clauses around the second.
  unfoldable pub repository_failed :
      List Text → IntegrationError → Outcome IntegrationError RepositoryConnectionReport
  unfolding error_text
  repository_failed granted (repository_not_found owner name) =
      failure not_found (repository_not_found owner name)
  repository_failed granted (authentication_failure provider reason) =
      failure authentication_failed (authentication_failure provider reason)
  repository_failed granted (insufficient_permissions provider missing) = returned record {
    provider = provider_name;
    connection_status = permissions_missing;
    repository = none;
    granted_scopes = granted;
    missing_scopes = missing;
    detail = some (error_text format_seconds (insufficient_permissions provider missing));
  }
  repository_failed granted (rate_limited provider seconds) =
      failure limited (rate_limited provider seconds)
  repository_failed granted (provider_unavailable provider reason) =
      failure unavailable (provider_unavailable provider reason)
  repository_failed granted (other_error text) = raised (other_error text)

  -- What follows both calls, by the scopes that are missing.
  abbrev pub compared : List Text → RepositoryMetadata → List Text → RepositoryConnectionReport
  compared granted repository [] = record {
    provider = provider_name;
    connection_status = ConnectionStatus.connected;
    repository = some repository;
    granted_scopes = granted;
    missing_scopes = [];
    detail = none;
  }
  compared granted repository (scope ∷ scopes) = record {
    provider = provider_name;
    connection_status = permissions_missing;
    repository = some repository;
    granted_scopes = granted;
    missing_scopes = scope ∷ scopes;
    detail =
        some
          (codes "Repository is " ++ repository.visibility ++ codes "; missing required scope(s).");
  }

  abbrev pub missing_of : List Text → RepositoryMetadata → List Text
  missing_of granted repository =
      select (λ scope. not (elem scope granted)) (required_scopes repository)

  abbrev pub with_repository :
      List Text
      → Outcome IntegrationError RepositoryMetadata
      → Outcome IntegrationError RepositoryConnectionReport
  with_repository granted (raised e) = repository_failed granted e
  with_repository granted (returned repository) =
      returned (compared granted repository (missing_of granted repository))

  abbrev pub with_scopes :
      Outcome IntegrationError (List Text)
      → Outcome IntegrationError RepositoryMetadata
      → Outcome IntegrationError RepositoryConnectionReport
  with_scopes (raised e) repository = scopes_failed e
  with_scopes (returned granted) repository = with_repository granted repository

  -- `connect_repository`
  unfoldable pub connect_repository : Answers → Outcome IntegrationError RepositoryConnectionReport
  unfolding scopes_failed repository_failed
  connect_repository answers = with_scopes answers.authorized_scopes answers.repository
