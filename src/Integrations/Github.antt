-- ===== src/Integrations/Github.antt =====
-- services/integrations/src/forgeai_integrations/github.py. The HTTP client is a parameter: what it
-- answers to a path, or the text of its error; so are its `raise_for_status`, the clock and floats.
pub mod Forbidden
use forge_ai_autonomous_soft.Common.{
  is_empty, ℕ, Bool, true, false, not, eqb, leb, ltb, ◌==◌, select, dedup, Option, none, some, List,
  [], ◌∷◌, ◌++◌, map, Text, text_eq, codes, decimal, reverse, Dict, lookup, if◌then◌else◌,
}
use forge_ai_autonomous_soft.Common.Outcome.{Outcome, returned, raised, ensure, ◌>>=◌, ◌>>◌}
use forge_ai_autonomous_soft.Core.{Float}
use forge_ai_autonomous_soft.Integrations.Errors.{
  RepositoryMetadata, IntegrationError, repository_not_found, authentication_failure,
  insufficient_permissions, provider_unavailable, rate_limited, other_error,
}
use forge_ai_autonomous_soft.Integrations.Connection.{Answers}

-- The fields of the JSON body that the client reads; `none` is a KeyError.
pub record RepositoryBody : Type 0 where
  pub owner_login : Option Text
  pub name : Option Text
  pub full_name : Option Text
  pub default_branch : Option Text
  pub visibility : Option Text
  pub is_private : Option Bool
  pub html_url : Option Text

-- The headers are under the names that the client asks for.
pub record Response : Type 0 where
  pub status_code : ℕ
  pub headers : Dict Text Text
  -- `none` is a JSON error.
  pub body : Option RepositoryBody

pub record Http : Type 0 where
  pub get : (path : Text) → Outcome Text Response
  pub status_error : Response → Option Text
  -- `max(0.0, float(reset_at) - time.time())`; `none` is a ValueError.
  pub seconds_until : Text → Option Float
  pub is_space : ℕ → Bool

abbrev pub provider_label : Text
provider_label = codes "GitHub"

abbrev or_error : {A : Type 0} → Option A → Outcome IntegrationError A
or_error none = raised (other_error (codes "KeyError"))
or_error (some a) = returned a

-- `text.split(",")`
abbrev split_commas : Text → Text → List Text
split_commas field [] = reverse field ∷ []
split_commas field (c ∷ t) =
    if eqb c 44 then reverse field ∷ split_commas [] t else split_commas (c ∷ field) t

module _ (http : Http) where
  abbrev drop_spaces : Text → Text
  drop_spaces [] = []
  drop_spaces (c ∷ t) = if http.is_space c then drop_spaces t else c ∷ t

  -- `text.strip()`
  abbrev strip : Text → Text
  strip t = reverse (drop_spaces (reverse (drop_spaces t)))

  abbrev of_reset : Option Text → Outcome IntegrationError (Unit {0})
  of_reset none = raised (rate_limited provider_label none)
  of_reset (some reset_at) = elim (http.seconds_until reset_at) [
    | none ↦ raised (other_error (codes "ValueError"))
    | some seconds ↦ raised (rate_limited provider_label (some seconds))
  ]

  abbrev pub is_zero : Option Text → Bool
  is_zero none = false
  is_zero (some t) = t == codes "0"

  abbrev of_status_error : Option Text → Outcome IntegrationError (Unit {0})
  of_status_error none = returned tt
  of_status_error (some text) = raised (other_error text)

  -- `_raise_for_common_errors`
  unfoldable pub raise_for_common_errors : Response → Outcome IntegrationError (Unit {0})
  unfolding decimal
  raise_for_common_errors response =
      if eqb response.status_code 401
      then raised (authentication_failure provider_label (codes "credential is invalid or expired"))
      else if eqb response.status_code 403
      then (if is_zero (lookup (codes "X-RateLimit-Remaining") response.headers)
          then of_reset (lookup (codes "X-RateLimit-Reset") response.headers)
          else raised (insufficient_permissions provider_label []))
      else if leb 500 response.status_code
      then raised
          (provider_unavailable provider_label (codes "HTTP " ++ decimal response.status_code))
      else of_status_error (http.status_error response)

  abbrev of_get : Outcome Text Response → Outcome IntegrationError Response
  of_get (raised text) = raised (provider_unavailable provider_label text)
  of_get (returned response) = returned response

  -- `_get`
  unfoldable pub get_path : Text → Outcome IntegrationError Response
  get_path path = of_get (http.get path)

  -- `body.get("visibility") or ("private" if body["private"] else "public")`
  abbrev private_text : Bool → Text
  private_text true = codes "private"
  private_text false = codes "public"

  abbrev visibility_of : RepositoryBody → Option Text → Outcome IntegrationError Text
  visibility_of body (some (c ∷ t)) = returned (c ∷ t)
  visibility_of body other = or_error body.is_private >>= λ p. returned (private_text p)

  abbrev metadata_of : RepositoryBody → Outcome IntegrationError RepositoryMetadata
  metadata_of body = do
    owner_login ← or_error body.owner_login
    repository_name ← or_error body.name
    full_name ← or_error body.full_name
    default_branch ← or_error body.default_branch
    visibility ← visibility_of body body.visibility
    html_url ← or_error body.html_url
    returned record {
      owner = owner_login;
      name = repository_name;
      full_name = full_name;
      default_branch = default_branch;
      visibility = visibility;
      html_url = html_url;
    }

  -- `get_repository`
  unfoldable pub get_repository : Text → Text → Outcome IntegrationError RepositoryMetadata
  unfolding get_path raise_for_common_errors
  get_repository owner name = do
    response ← get_path (codes "/repos/" ++ owner ++ codes "/" ++ name)
    ensure (not (eqb response.status_code 404)) (repository_not_found owner name)
    raise_for_common_errors response
    body ← or_error response.body
    metadata_of body

  abbrev header_or_empty : Option Text → Text
  header_or_empty none = []
  header_or_empty (some t) = t

  abbrev scopes_in : Text → List Text
  scopes_in header = dedup (select (λ t. not (is_empty t)) (map strip (split_commas [] header)))

  -- `get_authorized_scopes`
  unfoldable pub get_authorized_scopes : Outcome IntegrationError (List Text)
  unfolding get_path raise_for_common_errors
  get_authorized_scopes = do
    response ← get_path (codes "/user")
    raise_for_common_errors response
    returned (scopes_in (header_or_empty (lookup (codes "X-OAuth-Scopes") response.headers)))

  -- The provider as `connect_repository` meets it.
  abbrev pub github_answers : Text → Text → Answers
  github_answers owner name = record {
    authorized_scopes = get_authorized_scopes;
    repository = get_repository owner name;
  }
