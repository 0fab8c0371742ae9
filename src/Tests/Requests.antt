-- ===== src/Tests/Requests.antt =====
-- A developer, a project and its execution, and the libraries as plain functions.
use forge_ai_autonomous_soft.Common.{
  leb, ltb, ◌&&◌, if◌then◌else◌, ◌≤◌, ◌<◌, subst, some-injective, ℕ, true, false, none, some,
  Option, List, [], ◌∷◌, Text, codes, ◌==◌, text_eq, ◌≡◌, ◌↔◌, refl, arith,
}
use forge_ai_autonomous_soft.Common.Outcome.{returned, raised}
use forge_ai_autonomous_soft.Api.Access.{
  OrganizationMember, OrgRole, Project, require_org_role, require_project_role, forbidden,
  project_stranger,
}
use forge_ai_autonomous_soft.Api.Access.Roles.{
  require_project_role_iff, require_project_role-hidden,
}
use forge_ai_autonomous_soft.Api.Accounts.{
  Verified, Payload, Settings, Libraries, RegisterRequest, TokenResponse, Accounts, register_user,
  login, get_current_user, new_user, touched,
}
use forge_ai_autonomous_soft.Api.Accounts.Login.{IsReliable, CanSign, whole_seconds, register-login}
use forge_ai_autonomous_soft.Api.Workflows.{Session}
use forge_ai_autonomous_soft.Api.Workflows.Requests.{Request, serve}
use forge_ai_autonomous_soft.Api.Workflows.Requests.Atomic.{Ended, serve-Ended}
use forge_ai_autonomous_soft.Api.Routes.{Caller, execution_route}
use forge_ai_autonomous_soft.Api.Routes.Guards.{IsGuarded, execution_route-IsGuarded}
use forge_ai_autonomous_soft.Tests.Samples.{sample_world, sample_store}

abbrev sample_session : Session
sample_session = record { store = sample_store; committed = sample_store }

serve-Ended_example : Ended sample_session (serve sample_world 7 4 Request.cancel sample_session)
serve-Ended_example = serve-Ended sample_world 7 4 Request.cancel sample_session

abbrev sample_member : OrganizationMember
sample_member = record { organization_id = 2; user_id = 5; role = OrgRole.developer }

abbrev sample_members : List OrganizationMember
sample_members =
    sample_member ∷ record { organization_id = 3; user_id = 5; role = OrgRole.owner } ∷ []

abbrev sample_project : Project
sample_project = record { id = 4; organization_id = 2 }

abbrev sample_projects : List Project
sample_projects = record { id = 6; organization_id = 3 } ∷ sample_project ∷ []

require_project_role_iff_example :
    (require_project_role OrgRole.developer 4 5 sample_members sample_projects
      ≡ returned sample_member)
    ↔ (require_org_role OrgRole.developer 2 5 sample_members ≡ returned sample_member)
require_project_role_iff_example =
    require_project_role_iff OrgRole.developer 4 5 sample_members sample_projects sample_project
      sample_member refl

-- There is no project 9, and the user is not in the organization of project 8.
abbrev hidden_projects : List Project
hidden_projects = record { id = 8; organization_id = 1 } ∷ sample_projects

require_project_role-hidden_example :
    (require_project_role OrgRole.developer 9 5 sample_members hidden_projects
      ≡ raised (forbidden project_stranger))
    × (require_project_role OrgRole.owner 8 5 sample_members hidden_projects
        ≡ raised (forbidden project_stranger))
require_project_role-hidden_example =
    require_project_role-hidden OrgRole.developer OrgRole.owner 9 8 5 sample_members hidden_projects
      (record { id = 8; organization_id = 1 }) refl refl refl

-- A hash that is the password; a token that is its times and its user.
abbrev payload_of : ℕ → Text → Option Payload
payload_of now [] = none
payload_of now (e ∷ []) = none
payload_of now (e ∷ i ∷ t) =
    if leb i now && ltb now e
    then some record { sub = some t; token_type = some (codes "access") }
    else none

abbrev number_of : Text → Option ℕ
number_of [] = none
number_of (i ∷ t) = some i

abbrev verified_if : Text → Text → Verified
verified_if hashed password = elim (hashed == password) [
  | true ↦ Verified.matching
  | false ↦ Verified.mismatch
]

abbrev sample_libraries : Libraries
sample_libraries = record {
  hash = λ salt password. password;
  verify = λ hashed password. verified_if hashed password;
  encode = λ claims key algorithm.
      some (whole_seconds claims.exp ∷ whole_seconds claims.iat ∷ claims.sub);
  decode = λ now token key algorithm. payload_of now token;
  id_text = λ i. i ∷ [];
  parse_id = λ t. number_of t;
}

issued_lem :
    (now i iat exp : ℕ) (token : Text)
    → some (whole_seconds exp ∷ whole_seconds iat ∷ i ∷ []) ≡ some token
    → whole_seconds iat ≤ now
    → now < whole_seconds exp
    → payload_of now token
      ≡ some (record { sub = some (i ∷ []); token_type = some (codes "access") })
issued_lem now i iat exp token h after early =
    subst
      (λ t.
        payload_of now t
        ≡ some (record { sub = some (i ∷ []); token_type = some (codes "access") }))
      (some-injective _ _ h) (ground (arith, after, early))

sample-IsReliable : IsReliable sample_libraries
sample-IsReliable = record {
  verifies = λ salt password. ground (arith, (text_eq.beq_iff password password).1 refl);
  decodes = λ now i iat exp key algorithm token hmac signed after early.
      issued_lem now i iat exp token signed after early;
  parses = λ i. refl;
}

abbrev sample_settings : Settings
sample_settings = record {
  jwt_secret_key = codes "key";
  jwt_algorithm = codes "HS256";
  jwt_access_token_expire_minutes = 15;
}

sample-CanSign : CanSign sample_libraries sample_settings 20 5
sample-CanSign = record { hmac = refl; token = 900000000 ∷ 0 ∷ 5 ∷ []; signs = refl }

abbrev sample_registration : RegisterRequest
sample_registration = record {
  email = codes "a@b.c";
  username = codes "abc";
  password = codes "password";
  full_name = none;
}

abbrev no_accounts : Accounts
no_accounts = record { users = []; preferences_of = []; salts = 0; next_id = 5 }

abbrev one_account : Accounts
one_account = record {
  users = new_user sample_libraries sample_settings sample_registration 5 0 ∷ [];
  preferences_of = 5 ∷ [];
  salts = 1;
  next_id = 6;
}

registers :
    register_user sample_libraries sample_settings sample_registration no_accounts
    ≡ returned (5, one_account)
unfolding register_user
registers = refl

register-login_example :
    (response : TokenResponse) × (after : Accounts) × (login sample_libraries sample_settings 10 20
        (codes "a@b.c")
        (codes "password")
        one_account
      ≡ returned (response, after))
    × (get_current_user sample_libraries sample_settings 3000000
          (some response.access_token)
          after.users
        ≡ returned (
            touched sample_libraries sample_settings 10
              (new_user sample_libraries sample_settings sample_registration 5 0)))
register-login_example =
    register-login sample_libraries sample_settings sample_registration 5 10 20 3000000 no_accounts
      one_account sample-IsReliable sample-CanSign refl registers (omega arith) (omega arith)

abbrev sample_caller : Caller
sample_caller = record {
  now = 30;
  token = some (1000000000 ∷ 20 ∷ 5 ∷ []);
  users = one_account.users;
  members = sample_members;
  projects = sample_projects;
}

execution_route-IsGuarded_example :
    IsGuarded sample_world sample_libraries sample_settings sample_caller 4 7 Request.pause
      sample_session
      (execution_route sample_world sample_libraries sample_settings sample_caller 4 7 Request.pause
        sample_session)
execution_route-IsGuarded_example =
    execution_route-IsGuarded sample_world sample_libraries sample_settings sample_caller 4 7
      Request.pause sample_session
