-- ===== src/Integrations/Connection/Status.antt =====
-- When a repository counts as connected, and which errors escape.
use forge_ai_autonomous_soft.Common.{
  Bool, true, false, elem, List, Text, text_eq, Bool-cases, ◌≡◌, ◌↔◌, ◌⊎◌, inl, inr, refl, sym,
  subst, arith,
}
use forge_ai_autonomous_soft.Common.Outcome.{Outcome, returned, raised}
use forge_ai_autonomous_soft.Core.{Float}
use forge_ai_autonomous_soft.Integrations.Errors.{
  RepositoryMetadata, IntegrationError, repository_not_found, authentication_failure,
  insufficient_permissions, provider_unavailable, rate_limited, other_error,
}
use forge_ai_autonomous_soft.Integrations.Connection.{
  RepositoryConnectionReport, is_connected, private_repo_scope, is_public, Answers, scopes_failed,
  repository_failed, compared, missing_of, with_scopes, connect_repository,
}

-- A credential that may read the repository: it is public, or the scope of private ones is granted.
abbrev pub MayRead : List Text → RepositoryMetadata → Type 0
MayRead granted repository =
    (is_public repository ≡ true) ⊎ (elem private_repo_scope granted ≡ true)

abbrev pub says_connected : Outcome IntegrationError RepositoryConnectionReport → Bool
says_connected (returned report) = is_connected report
says_connected (raised e) = false

module _ (format_seconds : Float → Text) (provider_name : Text) where
  scopes_failed-not_connected :
      (e : IntegrationError) → says_connected (scopes_failed format_seconds provider_name e) ≡ false
  unfolding scopes_failed is_connected
  scopes_failed-not_connected (repository_not_found owner name) = refl
  scopes_failed-not_connected (authentication_failure provider reason) = refl
  scopes_failed-not_connected (insufficient_permissions provider missing) = refl
  scopes_failed-not_connected (provider_unavailable provider reason) = refl
  scopes_failed-not_connected (rate_limited provider seconds) = refl
  scopes_failed-not_connected (other_error text) = refl

  repository_failed-not_connected :
      (granted : List Text) (e : IntegrationError)
      → says_connected (repository_failed format_seconds provider_name granted e) ≡ false
  unfolding repository_failed is_connected
  repository_failed-not_connected granted (repository_not_found owner name) = refl
  repository_failed-not_connected granted (authentication_failure provider reason) = refl
  repository_failed-not_connected granted (insufficient_permissions provider missing) = refl
  repository_failed-not_connected granted (provider_unavailable provider reason) = refl
  repository_failed-not_connected granted (rate_limited provider seconds) = refl
  repository_failed-not_connected granted (other_error text) = refl

  compared_iff :
      (granted : List Text) (repository : RepositoryMetadata)
      → (is_connected (
            compared format_seconds provider_name granted repository
              (missing_of format_seconds provider_name granted repository))
          ≡ true)
        ↔ MayRead granted repository
  unfolding is_connected
  compared_iff granted repository = (to, from)
    where
      to :
          is_connected (
              compared format_seconds provider_name granted repository
                (missing_of format_seconds provider_name granted repository))
            ≡ true
          → MayRead granted repository
      to h = elim (Bool-cases (is_public repository)) [
        | inl public ↦ inl public
        | inr private ↦ elim (Bool-cases (elem private_repo_scope granted)) [
          | inl has ↦ inr has
          | inr missing ↦ absurd (ground (arith, h, private, missing))
        ]
      ]

      from :
          MayRead granted repository
          → is_connected (
              compared format_seconds provider_name granted repository
                (missing_of format_seconds provider_name granted repository))
            ≡ true
      from (inl public) = ground (arith, public)
      from (inr has) = ground (arith, has)

  -- A report says that a repository is connected exactly if the provider named the granted scopes and
  -- the repository, and the repository is public or the scope of private ones is granted.
  pub connect_repository_iff :
      (answers : Answers)
      → (says_connected (connect_repository format_seconds provider_name answers) ≡ true) ↔ (
          (granted : List Text) × (repository : RepositoryMetadata) × (answers.authorized_scopes
            ≡ returned granted)
          × (answers.repository ≡ returned repository)
          × MayRead granted repository)
  unfolding connect_repository
  connect_repository_iff answers = go answers.authorized_scopes answers.repository
    where
      go :
          (s : Outcome IntegrationError (List Text))
          (r : Outcome IntegrationError RepositoryMetadata)
          → (says_connected (with_scopes format_seconds provider_name s r) ≡ true) ↔ (
              (granted : List Text) × (repository : RepositoryMetadata) × (s ≡ returned granted)
              × (r ≡ returned repository)
              × MayRead granted repository)
      go (raised e) r = (
        λ h. absurd (ground (arith, h, scopes_failed-not_connected e)),
        λ p. absurd (ground (arith, p.2)),
      )
      go (returned granted) (raised e) = (
        λ h. absurd (ground (arith, h, repository_failed-not_connected granted e)),
        λ p. absurd (ground (arith, p.3)),
      )
      go (returned granted) (returned repository) = (
        λ h. (granted, repository, refl, refl, (compared_iff granted repository).0 h),
        λ p.
            (let same_scopes : granted ≡ p.0 = cc in
              let same_repository : repository ≡ p.1 = cc in
              (compared_iff granted repository).1 (
                subst (λ g. MayRead g repository) (sym same_scopes)
                  (subst (MayRead p.0) (sym same_repository) p.4))),
      )
