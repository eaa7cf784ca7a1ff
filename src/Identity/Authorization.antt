-- ===== src/Identity/Authorization.antt =====
-- server/internal/modules/identity/authorization.go: roles, actions, and the local membership
-- check. The membership reader is a function, nil or not; what it reads is outside the model.
pub mod Laws
use record_hub.Base.{
  Text, Text-discrete, text_eq, is_empty, Bool, true, false, not, ◌&&◌, ◌||◌, Eq, ◌==◌, ◌!=◌,
  Option, none, some, Result, ok, err, if◌then◌else◌,
}
use record_hub.Identity.Principal.{
  Principal, PrincipalKind, kind_eq, IdentityKey, identity_eq, identity_key,
}

pub data Error : Type 0 where
  unauthenticated forbidden : Error

-- Roles, statuses and actions are Go strings; `other` stands for any text but the constants.
pub data Role : Type 0 where
  owner editor viewer operator : Role
  other : Text → Role

pub data MembershipStatus : Type 0 where
  active revoked : MembershipStatus
  other : Text → MembershipStatus

unfoldable pub MembershipStatus-discrete : Discrete MembershipStatus
MembershipStatus-discrete = hlevel Text-discrete

instance abbrev pub membership_status_eq : Eq MembershipStatus
membership_status_eq = record { dec = MembershipStatus-discrete }

pub data Action : Type 0 where
  workspace_read workspace_manage membership_manage schema_read schema_manage : Action
  record_read record_write view_read view_write operations_read projection_manage : Action
  tag_read tag_assign tag_dictionary_write relation_read relation_write export_read : Action
  audit_read connector_onboard connector_review connector_approve projection_write : Action
  other : Text → Action

pub record WorkspaceMembership : Type 0 where
  pub tenant_id : Text
  pub workspace_id : Text
  pub identity : IdentityKey
  pub role : Role
  pub status : MembershipStatus

-- FindMembership; its error is only tested for nil.
abbrev pub MembershipReader : Type 0
MembershipReader = IdentityKey → Text → Text → Option WorkspaceMembership

unfoldable pub known_action : Action → Bool
known_action (Action.other _) = false
known_action _ = true

-- `action != ActionProjectionWrite`
is_projection_write : Action → Bool
is_projection_write Action.projection_write = true
is_projection_write _ = false

operator_allows : Action → Bool
operator_allows Action.workspace_read = true
operator_allows Action.schema_read = true
operator_allows Action.record_read = true
operator_allows Action.view_read = true
operator_allows Action.operations_read = true
operator_allows Action.projection_manage = true
operator_allows Action.tag_read = true
operator_allows Action.relation_read = true
operator_allows Action.export_read = true
operator_allows Action.audit_read = true
operator_allows Action.connector_review = true
operator_allows _ = false

editor_allows : Action → Bool
editor_allows Action.workspace_read = true
editor_allows Action.schema_read = true
editor_allows Action.record_read = true
editor_allows Action.record_write = true
editor_allows Action.view_read = true
editor_allows Action.view_write = true
editor_allows Action.tag_read = true
editor_allows Action.tag_assign = true
editor_allows Action.relation_read = true
editor_allows Action.relation_write = true
editor_allows Action.export_read = true
editor_allows _ = false

viewer_allows : Action → Bool
viewer_allows Action.workspace_read = true
viewer_allows Action.schema_read = true
viewer_allows Action.record_read = true
viewer_allows Action.view_read = true
viewer_allows Action.tag_read = true
viewer_allows Action.relation_read = true
viewer_allows Action.export_read = true
viewer_allows _ = false

unfoldable pub role_allows : Role → Action → Bool
unfolding known_action is_projection_write operator_allows editor_allows viewer_allows
role_allows Role.owner action = not (is_projection_write action) && known_action action
role_allows Role.operator action = operator_allows action
role_allows Role.editor action = editor_allows action
role_allows Role.viewer action = viewer_allows action
role_allows (Role.other _) action = false

-- The checks on a membership that was found.
check_membership :
    Principal → Text → Text → Action → WorkspaceMembership → Result Error WorkspaceMembership
check_membership principal tenant workspace action m =
    if m.status != MembershipStatus.active
      || m.identity != identity_key principal
      || m.tenant_id != tenant
      || m.workspace_id != workspace
    then err Error.forbidden
    else if not (role_allows m.role action)
    then err Error.forbidden
    else ok m

-- `Authorizer.Authorize`; the authorizer is nil, or its reader is, where there is no reader.
unfoldable pub authorize :
    Option MembershipReader → Principal → Text → Text → Action → Result Error WorkspaceMembership
unfolding check_membership known_action
authorize memberships principal tenant workspace action =
    if principal.kind != PrincipalKind.user
      || is_empty principal.issuer
      || is_empty principal.subject
    then err Error.unauthenticated
    else elim memberships [
      | none ↦ err Error.forbidden
      | some find_membership ↦
          if is_empty tenant || is_empty workspace || not (known_action action)
          then err Error.forbidden
          else elim (find_membership (identity_key principal) tenant workspace) [
            | none ↦ err Error.forbidden
            | some m ↦ check_membership principal tenant workspace action m
          ]
    ]
