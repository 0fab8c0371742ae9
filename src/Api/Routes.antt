-- ===== src/Api/Routes.antt =====
-- The routes of modules/workflows/router.py and modules/organizations/router.py: who is asked for,
-- which role is required, and the call of the service.
pub mod Guards
use forge_ai_autonomous_soft.Common.{ℕ, Option, List, Text}
use forge_ai_autonomous_soft.Common.Outcome.{Outcome, returned, raised}
use forge_ai_autonomous_soft.Engine.Definition.{WorkflowDefinition}
use forge_ai_autonomous_soft.Engine.Session.Rows.{WorkflowVersion}
use forge_ai_autonomous_soft.Engine.Session.Actions.{World}
use forge_ai_autonomous_soft.Api.Access.{
  OrgRole, viewer, developer, OrganizationMember, Project, AccessError, require_org_role,
  require_project_role,
}
use forge_ai_autonomous_soft.Api.Accounts.{User, AuthError, Libraries, Settings, get_current_user}
use forge_ai_autonomous_soft.Api.Accounts.Organizations.{
  Organization, OrganizationError, OrganizationCreateRequest, Organizations, create_organization,
  get_organization,
}
use forge_ai_autonomous_soft.Api.Workflows.{
  ApiError, Session, Service, WorkflowExecutionDetail, list_versions,
}
use forge_ai_autonomous_soft.Api.Workflows.Requests.{
  Request, Reply, CreateExecutionRequest, serve, create_and_start_execution, register_definition,
  get_version_detail,
}

pub data RouteError : Type 0 where
  of_auth : AuthError → RouteError
  of_access : AccessError → RouteError
  of_service : ApiError → RouteError
  of_organization : OrganizationError → RouteError

-- The role that the route of a request requires.
abbrev pub min_role_of : Request → OrgRole
min_role_of Request.detail = viewer
min_role_of Request.list_approvals = viewer
min_role_of request = developer

-- `decided_by=current_user.id`
abbrev pub as_user : ℕ → Request → Request
as_user user_id (Request.resolve_approval approval_id decision comment decided_by) =
    Request.resolve_approval approval_id decision comment user_id
as_user user_id request = request

-- What the dependencies read: the time, the bearer token, and the tables.
pub record Caller : Type 0 where
  pub now : ℕ
  pub token : Option Text
  pub users : List User
  pub members : List OrganizationMember
  pub projects : List Project

abbrev pub answered : {A : Type 0} → Outcome ApiError A × Session → Outcome RouteError A × Session
answered (returned a, s) = (returned a, s)
answered (raised e, s) = (raised (of_service e), s)

module _ (w : World) (libraries : Libraries) (settings : Settings) (c : Caller) where
  -- `Depends(get_current_user)`
  abbrev pub current_user : Outcome AuthError User
  current_user = get_current_user libraries settings c.now c.token c.users

  module _ {A : Type 0} where
    abbrev pub with_user :
        (User → Session → Outcome RouteError A × Session)
        → Outcome AuthError User
        → Session
        → Outcome RouteError A × Session
    with_user f (raised e) s = (raised (of_auth e), s)
    with_user f (returned user) s = f user s

    abbrev pub with_member :
        (Session → Outcome RouteError A × Session)
        → Outcome AccessError OrganizationMember
        → Session
        → Outcome RouteError A × Session
    with_member f (raised e) s = (raised (of_access e), s)
    with_member f (returned member) s = f s

    -- A route that asks for a role in the project.
    abbrev pub project_route :
        OrgRole → ℕ → (User → Service A) → Session → Outcome RouteError A × Session
    project_route min_role project_id f =
        with_user
          (λ user.
            with_member (λ s. answered (f user s))
              (require_project_role min_role project_id user.id c.members c.projects))
          current_user

    -- A route that only asks who it is.
    abbrev pub user_route : (User → Service A) → Session → Outcome RouteError A × Session
    user_route f = with_user (λ user s. answered (f user s)) current_user

  -- The routes under `/projects/{project_id}/workflow-executions/{execution_id}`.
  unfoldable pub execution_route : ℕ → ℕ → Request → Session → Outcome RouteError Reply × Session
  unfolding get_current_user require_project_role serve
  execution_route project_id execution_id request =
      project_route (min_role_of request) project_id
        (λ user. serve w execution_id project_id (as_user user.id request))

  -- `create_workflow_execution`
  unfoldable pub create_execution_route :
      ℕ → CreateExecutionRequest → Session → Outcome RouteError WorkflowExecutionDetail × Session
  unfolding get_current_user require_project_role create_and_start_execution
  create_execution_route project_id request =
      project_route developer project_id
        (λ user. create_and_start_execution w request project_id user.id)

  -- `register_workflow_definition`
  unfoldable pub register_definition_route :
      WorkflowDefinition → Session → Outcome RouteError ℕ × Session
  unfolding get_current_user register_definition
  register_definition_route definition = user_route (λ user. register_definition definition user.id)

  -- `list_workflow_versions`
  unfoldable pub list_versions_route :
      Text → Session → Outcome RouteError (List WorkflowVersion) × Session
  unfolding get_current_user list_versions
  list_versions_route key = user_route (λ user. list_versions key)

  -- `get_workflow_version`
  unfoldable pub get_version_route :
      Text → Text → Session → Outcome RouteError WorkflowVersion × Session
  unfolding get_current_user get_version_detail
  get_version_route key version = user_route (λ user. get_version_detail key version)

  abbrev of_created :
      Organizations
      → Outcome OrganizationError (ℕ × Organizations)
      → Outcome RouteError ℕ × Organizations
  of_created s (raised e) = (raised (of_organization e), s)
  of_created s (returned (i, s')) = (returned i, s')

  abbrev created_by :
      OrganizationCreateRequest
      → Organizations
      → Outcome AuthError User
      → Outcome RouteError ℕ × Organizations
  created_by request s (raised e) = (raised (of_auth e), s)
  created_by request s (returned user) = of_created s (create_organization request user.id s)

  -- `create_organization` of the router.
  unfoldable pub create_organization_route :
      OrganizationCreateRequest → Organizations → Outcome RouteError ℕ × Organizations
  unfolding get_current_user create_organization
  create_organization_route request s = created_by request s current_user

  abbrev of_found : Outcome OrganizationError Organization → Outcome RouteError Organization
  of_found (raised e) = raised (of_organization e)
  of_found (returned o) = returned o

  abbrev if_member :
      ℕ → Organizations → Outcome AccessError OrganizationMember → Outcome RouteError Organization
  if_member organization_id s (raised e) = raised (of_access e)
  if_member organization_id s (returned member) = of_found (get_organization organization_id s)

  abbrev shown_to : ℕ → Organizations → Outcome AuthError User → Outcome RouteError Organization
  shown_to organization_id s (raised e) = raised (of_auth e)
  shown_to organization_id s (returned user) =
      if_member organization_id s (require_org_role viewer organization_id user.id s.members)

  -- `get_organization` of the router.
  unfoldable pub get_organization_route : ℕ → Organizations → Outcome RouteError Organization
  unfolding get_current_user require_org_role get_organization
  get_organization_route organization_id s = shown_to organization_id s current_user
