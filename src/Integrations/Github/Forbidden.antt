-- ===== src/Integrations/Github/Forbidden.antt =====
-- A forbidden credential: the GitHub client's error for it against the clauses that catch errors.
use forge_ai_autonomous_soft.Common.{false, [], Text, codes, text_eq, lookup, ◌≡◌, refl, ap, arith}
use forge_ai_autonomous_soft.Common.Outcome.{returned, raised}
use forge_ai_autonomous_soft.Core.{Float}
use forge_ai_autonomous_soft.Integrations.Errors.{insufficient_permissions}
use forge_ai_autonomous_soft.Integrations.Connection.{
  connect_repository, with_scopes, scopes_failed,
}
use forge_ai_autonomous_soft.Integrations.Github.{
  Http, Response, provider_label, is_zero, raise_for_common_errors, get_path, get_authorized_scopes,
  github_answers,
}

module _ (http : Http) where
  forbidden_response :
      (response : Response)
      → response.status_code ≡ 403
      → is_zero http (lookup (codes "X-RateLimit-Remaining") response.headers) ≡ false
      → raise_for_common_errors http response ≡ raised (insufficient_permissions provider_label [])
  unfolding raise_for_common_errors
  forbidden_response response h k = ground (arith, h, k)

  forbidden_scopes :
      (response : Response)
      → http.get (codes "/user") ≡ returned response
      → raise_for_common_errors http response ≡ raised (insufficient_permissions provider_label [])
      → get_authorized_scopes http ≡ raised (insufficient_permissions provider_label [])
  unfolding get_authorized_scopes get_path
  forbidden_scopes response e k = rw (e, k) refl

  -- If GitHub answers to the question for the user with 403, and not for its rate limit, then the
  -- connection of a repository is not reported as failed: the error of missing permissions is raised.
  pub connect_repository-forbidden :
      (format_seconds : Float → Text) (provider_name owner name : Text) (response : Response)
      → http.get (codes "/user") ≡ returned response
      → response.status_code ≡ 403
      → is_zero http (lookup (codes "X-RateLimit-Remaining") response.headers) ≡ false
      → connect_repository format_seconds provider_name (github_answers http owner name)
        ≡ raised (insufficient_permissions provider_label [])
  unfolding connect_repository scopes_failed
  connect_repository-forbidden format_seconds provider_name owner name response e h k =
      ap
        (λ scopes.
          with_scopes format_seconds provider_name scopes
            (github_answers http owner name).repository)
        (forbidden_scopes response e (forbidden_response response h k))
