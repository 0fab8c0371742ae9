-- ===== src/Api/Routes/Guards.antt =====
-- Who gets past the guards of a route.
use forge_ai_autonomous_soft.Common.{
  ℕ, eqb, Option, none, some, ◌≡◌, refl, arith, eqb_iff, Bool-cases, ◌⊎◌, ◌≢◌, inl, inr,
}
use forge_ai_autonomous_soft.Common.Outcome.{Outcome, returned, raised}
use forge_ai_autonomous_soft.Engine.Session.Rows.{WorkflowExecution}
use forge_ai_autonomous_soft.Engine.Session.Actions.{World}
use forge_ai_autonomous_soft.Engine.StateManager.{execution_at}
use forge_ai_autonomous_soft.Api.Access.{OrganizationMember, AccessError, require_project_role}
use forge_ai_autonomous_soft.Api.Accounts.{User, AuthError, Libraries, Settings}
use forge_ai_autonomous_soft.Api.Workflows.{Session}
use forge_ai_autonomous_soft.Api.Workflows.Requests.{Request, Reply, serve}
use forge_ai_autonomous_soft.Api.Workflows.Ownership.{project_of, serve-foreign}
use forge_ai_autonomous_soft.Api.Routes.{
  RouteError, of_auth, of_access, Caller, min_role_of, as_user, answered, with_user, with_member,
  current_user, execution_route,
}

module _ (w : World) (libraries : Libraries) (settings : Settings) (c : Caller) where
  -- How a route may end: it raises and has changed nothing; or the caller is a known user who is a
  -- member of the project's organization with the required role, the execution is the project's,
  -- and the end is that of the service.
  pub data IsGuarded (project_id execution_id : ℕ) (request : Request) (s : Session)
      : Outcome RouteError Reply × Session → Type 0 where
    turned_away : (e : RouteError) → IsGuarded project_id execution_id request s (raised e, s)
    let_in :
        (user : User) (member : OrganizationMember)
        → current_user w libraries settings c ≡ returned user
        → require_project_role (min_role_of request) project_id user.id c.members c.projects
          ≡ returned member
        → project_of (execution_at execution_id s.store) ≡ some project_id
        → IsGuarded project_id execution_id request s
            (answered (serve w execution_id project_id (as_user user.id request) s))

  owned_or_not :
      (project_id : ℕ) (o : Option WorkflowExecution)
      → (project_of o ≡ some project_id) ⊎ (project_of o ≢ some project_id)
  owned_or_not project_id none = inr (λ e. absurd (cc))
  owned_or_not project_id (some row) = elim (Bool-cases (eqb row.project_id project_id)) [
    | inl same ↦ inl (ground (arith, same, eqb_iff row.project_id project_id))
    | inr other ↦ inr (λ e. absurd (ground (arith, e, other, eqb_iff row.project_id project_id)))
  ]

  -- Whatever a caller asks of an execution through the routes: either the caller is turned away and
  -- nothing has changed, or the caller's token is accepted as a user's with at least the route's
  -- role in the organization that owns the project, and the execution belongs to the project.
  pub execution_route-IsGuarded :
      (project_id execution_id : ℕ) (request : Request) (s : Session)
      → IsGuarded project_id execution_id request s
          (execution_route w libraries settings c project_id execution_id request s)
  unfolding execution_route
  execution_route-IsGuarded project_id execution_id request s =
      identified (current_user w libraries settings c) refl
    where
      served :
          (user : User) (member : OrganizationMember)
          → current_user w libraries settings c ≡ returned user
          → require_project_role (min_role_of request) project_id user.id c.members c.projects
            ≡ returned member
          → IsGuarded project_id execution_id request s
              (answered (serve w execution_id project_id (as_user user.id request) s))
      served user member h k = elim (owned_or_not project_id (execution_at execution_id s.store)) [
        | inl mine ↦ let_in user member h k mine
        | inr foreign ↦
            rw (serve-foreign w execution_id project_id (as_user user.id request) s foreign)
              (turned_away _)
      ]

      allowed :
          (user : User)
          → current_user w libraries settings c ≡ returned user
          → (m : Outcome AccessError OrganizationMember)
          → require_project_role (min_role_of request) project_id user.id c.members c.projects ≡ m
          → IsGuarded project_id execution_id request s (
              with_member w libraries settings c
                (λ t. answered (serve w execution_id project_id (as_user user.id request) t))
                m
                s)
      allowed user h (raised e) k = turned_away (of_access e)
      allowed user h (returned member) k = served user member h k

      identified :
          (u : Outcome AuthError User)
          → current_user w libraries settings c ≡ u
          → IsGuarded project_id execution_id request s (
              with_user w libraries settings c
                (λ user.
                  with_member w libraries settings c
                    (λ t. answered (serve w execution_id project_id (as_user user.id request) t))
                    (require_project_role
                      (min_role_of request)
                      project_id
                      user.id
                      c.members
                      c.projects))
                u
                s)
      identified (raised e) h = turned_away (of_auth e)
      identified (returned user) h =
          allowed user h
            (require_project_role (min_role_of request) project_id user.id c.members c.projects)
            refl
