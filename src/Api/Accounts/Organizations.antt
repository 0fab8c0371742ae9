-- ===== src/Api/Accounts/Organizations.antt =====
-- apps/api/src/forgeai_api/modules/organizations: service.py and repository.py.
use forge_ai_autonomous_soft.Common.Catalog.{scalar_one_or_none}
use forge_ai_autonomous_soft.Common.{
  ℕ, ◌+◌, Bool, true, false, eqb, eqb_iff, ◌==◌, Option, none, some, List, [], ◌∷◌, ◌++◌, find,
  select, Text, text_eq, ◌≡◌, refl, ap, ◌∙◌, subst, arith,
}
use forge_ai_autonomous_soft.Common.Outcome.{
  Outcome, returned, raised, ensure, ◌>>=◌, ◌>>◌, returned-bind,
}
use forge_ai_autonomous_soft.Engine.Session.Actions.{by_id}
use forge_ai_autonomous_soft.Api.Access.{
  multiple_results, OrgRole, owner, OrganizationMember, memberships, require_org_role, org_stranger,
  admitted, AccessError,
}

pub record Organization : Type 0 where
  pub id : ℕ
  pub name : Text
  pub slug : Text
  pub description : Option Text
  pub created_by : Option ℕ

pub data OrganizationError : Type 0 where
  slug_taken organization_not_found : OrganizationError

pub record OrganizationCreateRequest : Type 0 where
  pub name : Text
  pub slug : Text
  pub description : Option Text

pub record Organizations : Type 0 where
  pub organizations : List Organization
  pub members : List OrganizationMember
  pub next_id : ℕ

abbrev pub by_slug : Text → List Organization → Option Organization
by_slug slug rows = find (λ (o : Organization). o.slug == slug) rows

abbrev pub is_free : Option Organization → Bool
is_free none = true
is_free (some o) = false

-- `create_with_owner`
unfoldable pub create_with_owner : OrganizationCreateRequest → ℕ → Organizations → Organizations
create_with_owner request owner_id s = record {
  organizations =
      s.organizations
      ++ record {
        id = s.next_id;
        name = request.name;
        slug = request.slug;
        description = request.description;
        created_by = some owner_id;
      }
        ∷ [];
  members =
      s.members ++ record { organization_id = s.next_id; user_id = owner_id; role = owner } ∷ [];
  next_id = s.next_id + 1;
}

-- `OrganizationService.create`, with the organization's id.
unfoldable pub create_organization :
    OrganizationCreateRequest → ℕ → Organizations → Outcome OrganizationError (ℕ × Organizations)
unfolding create_with_owner
create_organization request owner_id s = do
  ensure (is_free (by_slug request.slug s.organizations)) slug_taken
  returned (s.next_id, create_with_owner request owner_id s)

abbrev pub found_organization : Option Organization → Outcome OrganizationError Organization
found_organization none = raised organization_not_found
found_organization (some o) = returned o

-- `OrganizationService.get`
unfoldable pub get_organization : ℕ → Organizations → Outcome OrganizationError Organization
get_organization organization_id s =
    found_organization (by_id (λ (o : Organization). o.id) organization_id s.organizations)

abbrev pub members_of : ℕ → List OrganizationMember → List OrganizationMember
members_of i members = select (λ (m : OrganizationMember). eqb m.organization_id i) members

memberships-new :
    (i user_id : ℕ) (members : List OrganizationMember) (row : OrganizationMember)
    → members_of i members ≡ []
    → memberships i user_id (members ++ row ∷ []) ≡ memberships i user_id (row ∷ [])
memberships-new i user_id [] row h = refl
memberships-new i user_id (m ∷ members) row h =
    ground (arith, h, memberships-new i user_id members row)

abbrev owner_row : ℕ → ℕ → OrganizationMember
owner_row i user_id = record { organization_id = i; user_id = user_id; role = owner }

abbrev checked : OrgRole → List OrganizationMember → Outcome AccessError OrganizationMember
checked min_role rows = scalar_one_or_none multiple_results rows >>= admitted min_role org_stranger

own_row :
    (i user_id : ℕ) → memberships i user_id (owner_row i user_id ∷ []) ≡ owner_row i user_id ∷ []
own_row i user_id = ground (arith, (eqb_iff i i).1 refl, (eqb_iff user_id user_id).1 refl)

no_row :
    (i user_id stranger : ℕ)
    → eqb user_id stranger ≡ false
    → memberships i stranger (owner_row i user_id ∷ []) ≡ []
no_row i user_id stranger h = ground (arith, h)

owner_passes :
    (min_role : OrgRole) (i user_id : ℕ)
    → checked min_role (owner_row i user_id ∷ []) ≡ returned (owner_row i user_id)
owner_passes OrgRole.owner i user_id = refl
owner_passes OrgRole.admin i user_id = refl
owner_passes OrgRole.developer i user_id = refl
owner_passes OrgRole.viewer i user_id = refl

-- An organization that was created has one member, its creator: this user passes the check for every
-- role, and any other user is refused as a stranger, whatever role is required.
pub create_organization-owner :
    (request : OrganizationCreateRequest) (owner_id stranger i : ℕ) (min_role : OrgRole)
    (s s' : Organizations)
    → members_of s.next_id s.members ≡ []
    → create_organization request owner_id s ≡ returned (i, s')
    → eqb owner_id stranger ≡ false
    → (require_org_role min_role i owner_id s'.members
        ≡ returned record { organization_id = i; user_id = owner_id; role = owner })
      × (require_org_role min_role i stranger s'.members
          ≡ raised (AccessError.forbidden org_stranger))
unfolding create_organization create_with_owner require_org_role
create_organization-owner request owner_id stranger i min_role s s' fresh h other =
    let made =
      returned-bind (ensure (is_free (by_slug request.slug s.organizations)) slug_taken) _ _ h in
    let same_id : s.next_id ≡ i = cc in
    let same : create_with_owner request owner_id s ≡ s' = cc in
    let after = create_with_owner request owner_id s in
    let row : OrganizationMember = record {
      organization_id = s.next_id;
      user_id = owner_id;
      role = owner;
    } in
    (
      subst
          (λ j.
            require_org_role min_role j owner_id s'.members
            ≡ returned record { organization_id = j; user_id = owner_id; role = owner })
          same_id
          (subst
            (λ (t : Organizations).
              require_org_role min_role s.next_id owner_id t.members ≡ returned row)
            same
            (ap (checked min_role) (
                memberships-new s.next_id owner_id s.members row fresh ∙ own_row s.next_id owner_id)
              ∙ owner_passes min_role s.next_id owner_id)),
      subst
          (λ j.
            require_org_role min_role j stranger s'.members
            ≡ raised (AccessError.forbidden org_stranger))
          same_id
          (subst
            (λ (t : Organizations).
              require_org_role min_role s.next_id stranger t.members
              ≡ raised (AccessError.forbidden org_stranger))
            same
            (ap (checked min_role) (
              memberships-new s.next_id stranger s.members row fresh
              ∙ no_row s.next_id owner_id stranger other))),
    )
