-- ===== src/Api/Access.antt =====
-- apps/api/src/forgeai_api/dependencies/rbac.py, with the columns of organization_member.py and
-- project.py that it reads.
pub mod Roles
use forge_ai_autonomous_soft.Common.Catalog.{scalar_one_or_none}
use forge_ai_autonomous_soft.Common.{
  ℕ, Bool, true, false, ◌&&◌, eqb, ltb, Option, none, some, List, [], ◌∷◌, ◌++◌, select, Text,
  codes, if◌then◌else◌,
}
use forge_ai_autonomous_soft.Common.Outcome.{Outcome, returned, raised, ◌>>=◌}

pub data OrgRole : Type 0 where
  owner admin developer viewer : OrgRole

abbrev pub role_value : OrgRole → Text
role_value owner = codes "owner"
role_value admin = codes "admin"
role_value developer = codes "developer"
role_value viewer = codes "viewer"

-- `_ROLE_RANK`
abbrev pub role_rank : OrgRole → ℕ
role_rank owner = 0
role_rank admin = 1
role_rank developer = 2
role_rank viewer = 3

pub record OrganizationMember : Type 0 where
  pub organization_id : ℕ
  pub user_id : ℕ
  pub role : OrgRole

pub record Project : Type 0 where
  pub id : ℕ
  pub organization_id : ℕ

-- `ForbiddenError` with its text, and SQLAlchemy's `MultipleResultsFound`.
pub data AccessError : Type 0 where
  forbidden : (reason : Text) → AccessError
  multiple_results : AccessError

abbrev pub refusal : OrgRole → AccessError
refusal min_role =
    forbidden (codes "This action requires at least the " ++ role_value min_role ++ codes " role.")

-- What both dependencies make of the row that they find.
abbrev pub admitted :
    OrgRole → Text → Option OrganizationMember → Outcome AccessError OrganizationMember
admitted min_role stranger none = raised (forbidden stranger)
admitted min_role stranger (some member) =
    if ltb (role_rank min_role) (role_rank member.role)
    then raised (refusal min_role)
    else returned member

abbrev pub memberships : ℕ → ℕ → List OrganizationMember → List OrganizationMember
memberships organization_id user_id members =
    select
      (λ (m : OrganizationMember). eqb m.organization_id organization_id && eqb m.user_id user_id)
      members

abbrev pub org_stranger : Text
org_stranger = codes "You are not a member of this organization."

abbrev pub project_stranger : Text
project_stranger = codes "You are not a member of this project's organization."

-- The dependency that `require_org_role` makes.
unfoldable pub require_org_role :
    OrgRole → ℕ → ℕ → List OrganizationMember → Outcome AccessError OrganizationMember
require_org_role min_role organization_id user_id members =
    scalar_one_or_none multiple_results (memberships organization_id user_id members)
    >>= admitted min_role org_stranger

-- The rows of one project, if it is the one that is asked for.
abbrev pub joined_rows : ℕ → ℕ → List OrganizationMember → List Project → List OrganizationMember
joined_rows project_id user_id members [] = []
joined_rows project_id user_id members (p ∷ projects) =
    let rest = joined_rows project_id user_id members projects in
    if eqb p.id project_id then memberships p.organization_id user_id members ++ rest else rest

-- The dependency that `require_project_role` makes, with its join.
unfoldable pub require_project_role :
    OrgRole
    → ℕ
    → ℕ
    → List OrganizationMember
    → List Project
    → Outcome AccessError OrganizationMember
require_project_role min_role project_id user_id members projects =
    scalar_one_or_none multiple_results (joined_rows project_id user_id members projects)
    >>= admitted min_role project_stranger
