-- ===== src/Identity/Authorization/Laws.antt =====
-- What a granted request needs.
use record_hub.Base.{Text, text_eq, is_empty, true, false, some, ok, ◌≡◌, ◌↔◌, ◌≢◌, arith}
use record_hub.Identity.Principal.{Principal, PrincipalKind, identity_key}
use record_hub.Identity.Authorization.{
  Role, Action, MembershipStatus, MembershipReader, WorkspaceMembership, known_action, role_allows,
  authorize,
}

-- The role table grants nothing outside the known actions, and projection writes to no role.
role_allows_bounds :
    (role : Role) (action : Action)
    → role_allows role action ≡ true
    → (known_action action ≡ true) × (action ≢ Action.projection_write)
unfolding role_allows
role_allows_bounds role action h = ground arith

abbrev pub IsGranted :
    MembershipReader → Principal → Text → Text → Action → WorkspaceMembership → Type 0
IsGranted find_membership principal tenant workspace action m =
    (principal.kind ≡ PrincipalKind.user)
    × (is_empty principal.issuer ≡ false)
    × (is_empty principal.subject ≡ false)
    × (is_empty tenant ≡ false)
    × (is_empty workspace ≡ false)
    × (find_membership (identity_key principal) tenant workspace ≡ some m)
    × (m.status ≡ MembershipStatus.active)
    × (m.identity ≡ identity_key principal)
    × (m.tenant_id ≡ tenant)
    × (m.workspace_id ≡ workspace)
    × (role_allows m.role action ≡ true)

-- The authorizer grants a membership exactly to a user with issuer and subject, in a named tenant and
-- workspace, for whom it is found there and is the user's own, is active and has a role that allows
-- the action.
pub authorize_exact :
    (find_membership : MembershipReader) (principal : Principal) (tenant workspace : Text)
    (action : Action) (m : WorkspaceMembership)
    → (authorize (some find_membership) principal tenant workspace action ≡ ok m)
      ↔ IsGranted find_membership principal tenant workspace action m
unfolding authorize
authorize_exact find_membership principal tenant workspace action m =
    (λ h. ground (arith), λ g. ground (arith, role_allows_bounds m.role action))
