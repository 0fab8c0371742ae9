-- ===== src/Api/Access/Roles.antt =====
-- Who passes the checks of roles.
use forge_ai_autonomous_soft.Common.Catalog.{scalar_one_or_none}
use forge_ai_autonomous_soft.Common.{
  ℕ, ◌≤◌, Bool, true, false, eqb, ltb, some, List, [], ◌∷◌, ◌++◌, select, Text, if◌then◌else◌, ◌≡◌,
  ◌↔◌, refl, ap, sym, ◌∙◌, subst, arith,
}
use mathlib.Core.List.{append-nil}
use forge_ai_autonomous_soft.Common.Outcome.{returned, raised, ◌>>=◌}
use forge_ai_autonomous_soft.Api.Access.{
  multiple_results, OrgRole, role_rank, OrganizationMember, Project, forbidden, refusal, admitted,
  memberships, org_stranger, project_stranger, joined_rows, require_org_role, require_project_role,
}

abbrev pub IsAtLeast : OrgRole → OrgRole → Type 0
IsAtLeast min_role role = role_rank role ≤ role_rank min_role

admitted_iff :
    (min_role : OrgRole) (stranger : Text) (found member : OrganizationMember)
    → (admitted min_role stranger (some found) ≡ returned member)
      ↔ ((found ≡ member) × IsAtLeast min_role member.role)
admitted_iff min_role stranger found member = (to, from)
  where
    to :
        admitted min_role stranger (some found) ≡ returned member
        → (found ≡ member) × IsAtLeast min_role member.role
    to h = go (ltb (role_rank min_role) (role_rank found.role)) refl h
      where
        go :
            (b : Bool)
            → ltb (role_rank min_role) (role_rank found.role) ≡ b
            → (if b then raised (refusal min_role) else returned found) ≡ returned member
            → (found ≡ member) × IsAtLeast min_role member.role
        go true e k = absurd (cc)
        go false e k =
            let same : found ≡ member = cc in
            (
              same,
              subst (λ (m : OrganizationMember). IsAtLeast min_role m.role) same
                  (ground (arith, e)),
            )

    from :
        (found ≡ member) × IsAtLeast min_role member.role
        → admitted min_role stranger (some found) ≡ returned member
    from (e, le) = ground (arith, e, ap (λ (m : OrganizationMember). role_rank m.role) e, le)

-- A role check on an organization passes, with a row, exactly if this is the one row of the user in
-- the organization and its role is at least the required one.
pub require_org_role_iff :
    (min_role : OrgRole) (organization_id user_id : ℕ) (members : List OrganizationMember)
    (member : OrganizationMember)
    → (require_org_role min_role organization_id user_id members ≡ returned member) ↔ (
        (memberships organization_id user_id members ≡ member ∷ [])
        × IsAtLeast min_role member.role)
unfolding require_org_role
require_org_role_iff min_role organization_id user_id members member =
    go (memberships organization_id user_id members)
  where
    go :
        (rows : List OrganizationMember)
        → ((scalar_one_or_none multiple_results rows >>= admitted min_role org_stranger)
            ≡ returned member)
          ↔ ((rows ≡ member ∷ []) × IsAtLeast min_role member.role)
    go [] = (λ h. absurd (cc), λ p. absurd (ground (arith, p.0)))
    go (r ∷ []) = (
      λ h.
          (let p = (admitted_iff min_role org_stranger r member).0 h in
            (ap (λ m. m ∷ []) p.0, p.1)),
      λ p. (admitted_iff min_role org_stranger r member).1 (cc, p.1),
    )
    go (r ∷ q ∷ rows) = (λ h. absurd (cc), λ p. absurd (ground (arith, p.0)))

-- Whoever passes the check for a role passes the check for any less privileged role.
pub require_org_role-weaker :
    (min_role weaker : OrgRole) (organization_id user_id : ℕ) (members : List OrganizationMember)
    (member : OrganizationMember)
    → role_rank min_role ≤ role_rank weaker
    → require_org_role min_role organization_id user_id members ≡ returned member
    → require_org_role weaker organization_id user_id members ≡ returned member
require_org_role-weaker min_role weaker organization_id user_id members member le h =
    let p = (require_org_role_iff min_role organization_id user_id members member).0 h in
    (require_org_role_iff weaker organization_id user_id members member).1
      (p.0, omega (arith, p.1, le))

abbrev pub projects_with : ℕ → List Project → List Project
projects_with project_id projects = select (λ (p : Project). eqb p.id project_id) projects

joined_rows-select :
    (project_id user_id : ℕ) (members : List OrganizationMember) (projects : List Project)
    → joined_rows project_id user_id members projects
      ≡ joined_rows project_id user_id members (projects_with project_id projects)
joined_rows-select project_id user_id members [] = refl
joined_rows-select project_id user_id members (p ∷ projects) =
    ground (arith, joined_rows-select project_id user_id members projects)

id-projects_with :
    (project_id : ℕ) (projects found : List Project) (p : Project)
    → projects_with project_id projects ≡ p ∷ found
    → eqb p.id project_id ≡ true
id-projects_with project_id [] found p h = absurd (cc)
id-projects_with project_id (q ∷ projects) found p h =
    ground (arith, h, id-projects_with project_id projects found p)

-- The row that both checks are about, for a project that there is.
joined_rows-one :
    (project_id user_id : ℕ) (members : List OrganizationMember) (projects : List Project)
    (p : Project)
    → projects_with project_id projects ≡ p ∷ []
    → joined_rows project_id user_id members projects
      ≡ memberships p.organization_id user_id members
joined_rows-one project_id user_id members projects p h =
    joined_rows-select project_id user_id members projects
    ∙ ap (joined_rows project_id user_id members) h
    ∙ ap (λ b. if b then memberships p.organization_id user_id members ++ [] else [])
        (id-projects_with project_id projects [] p h)
    ∙ append-nil (memberships p.organization_id user_id members)

same_rows :
    (min_role : OrgRole) (one other : Text) (member : OrganizationMember)
    (rows : List OrganizationMember)
    → (scalar_one_or_none multiple_results rows >>= admitted min_role one) ≡ returned member
    → (scalar_one_or_none multiple_results rows >>= admitted min_role other) ≡ returned member
same_rows min_role one other member [] h = absurd (cc)
same_rows min_role one other member (r ∷ []) h = h
same_rows min_role one other member (r ∷ q ∷ rows) h = absurd (cc)

-- A role check on a project that there is passes exactly if the same check on the organization that
-- owns it passes, and with the same row.
pub require_project_role_iff :
    (min_role : OrgRole) (project_id user_id : ℕ) (members : List OrganizationMember)
    (projects : List Project) (p : Project) (member : OrganizationMember)
    → projects_with project_id projects ≡ p ∷ []
    → (require_project_role min_role project_id user_id members projects ≡ returned member)
      ↔ (require_org_role min_role p.organization_id user_id members ≡ returned member)
unfolding require_project_role require_org_role
require_project_role_iff min_role project_id user_id members projects p member h =
    let rows = joined_rows-one project_id user_id members projects p h in
    (
      λ k.
          same_rows min_role project_stranger org_stranger member
            (memberships p.organization_id user_id members)
            (sym (
                ap
                  (λ found.
                    scalar_one_or_none multiple_results found
                    >>= admitted min_role project_stranger)
                  rows)
              ∙ k),
      λ k.
          ap
            (λ found.
              scalar_one_or_none multiple_results found >>= admitted min_role project_stranger)
            rows
          ∙ same_rows min_role org_stranger project_stranger member
              (memberships p.organization_id user_id members) k,
    )

-- A project that there is not, and a project of an organization that the user is not in, are refused
-- with one and the same error, whatever role is required.
pub require_project_role-hidden :
    (min_role other_role : OrgRole) (missing project_id user_id : ℕ)
    (members : List OrganizationMember) (projects : List Project) (p : Project)
    → projects_with missing projects ≡ []
    → projects_with project_id projects ≡ p ∷ []
    → memberships p.organization_id user_id members ≡ []
    → (require_project_role min_role missing user_id members projects
        ≡ raised (forbidden project_stranger))
      × (require_project_role other_role project_id user_id members projects
          ≡ raised (forbidden project_stranger))
unfolding require_project_role
require_project_role-hidden min_role other_role missing project_id user_id members projects p h k
      none_there =
    (
      ap (λ rows. scalar_one_or_none multiple_results rows >>= admitted min_role project_stranger)
          (joined_rows-select missing user_id members projects
            ∙ ap (joined_rows missing user_id members) h),
      ap (λ rows. scalar_one_or_none multiple_results rows >>= admitted other_role project_stranger)
          (joined_rows-one project_id user_id members projects p k ∙ none_there),
    )
