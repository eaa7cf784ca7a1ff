-- ===== src/Binding/Policy.antt =====
-- server/internal/modules/binding/service.go: the machine policies and their static authorizer.
use record_hub.Base.{
  Text, text_eq, is_empty, contains, Bool, true, false, not, ◌||◌, List, ◌!=◌, any, Option, none,
  some, if◌then◌else◌,
}
use record_hub.Identity.Principal.{
  Principal, PrincipalKind, kind_eq, IdentityKey, identity_eq, identity_key,
}

pub record BindingAuthorization : Type 0 where
  pub tenant_id : Text
  pub workspace_id : Text
  pub purpose : Text
  pub record_ref : Text
  pub resource_system : Text
  pub resource_type : Text

pub record MachinePolicy : Type 0 where
  pub identity : IdentityKey
  pub audience : Text
  pub scope : Text
  pub tenant_id : Text
  pub workspace_id : Text
  pub purpose : Text
  pub resource_system : Text
  pub resource_type : Text

-- One round of the loop in `Authorize`: whether the policy lets the request pass.
unfoldable pub policy_allows : Principal → BindingAuthorization → MachinePolicy → Bool
policy_allows principal request policy =
    if policy.identity != identity_key principal
      || policy.tenant_id != request.tenant_id
      || policy.workspace_id != request.workspace_id
      || policy.purpose != request.purpose
      || policy.resource_system != request.resource_system
      || policy.resource_type != request.resource_type
    then false
    else if is_empty policy.audience
        || not (contains principal.audience policy.audience)
        || is_empty policy.scope
        || not (contains principal.scopes policy.scope)
    then false
    else true

-- `StaticMachinePolicyAuthorizer.Authorize`, where `none` is the nil authorizer: true for a nil
-- error, false for ErrMachinePolicyDenied.
unfoldable pub machine_authorize :
    Option (List MachinePolicy) → Principal → BindingAuthorization → Bool
unfolding policy_allows
machine_authorize none principal request = false
machine_authorize (some policies) principal request =
    if principal.kind != PrincipalKind.service
      || is_empty principal.issuer
      || is_empty principal.subject
    then false
    else any (policy_allows principal request) policies
