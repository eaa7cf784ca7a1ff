-- ===== src/Audit.antt =====
-- server/internal/modules/audit/model.go.
use record_hub.Base.{Text, List, ℤ, Time}
use record_hub.Identity.Principal.{IdentityKey}

pub record Entry : Type 0 where
  pub tenant_id : Text
  pub workspace_id : Text
  pub action : Text
  pub actor : IdentityKey
  pub resource_type : Text
  pub resource_id : Text
  pub resource_version : ℤ
  pub request_id : Text
  pub idempotency_key : Text
  pub before_hash : Text
  pub after_hash : Text
  pub view_id : Text
  pub field_set : List Text
  pub redacted_fields : List Text
  pub created_at : Time
