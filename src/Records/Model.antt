-- ===== src/Records/Model.antt =====
-- server/internal/modules/records/model.go. The data of a record is its BSON bytes; whether they
-- decode to a document is a parameter, since the decoder is the driver's.
use record_hub.Base.{
  Text, text_eq, Text-discrete, Bool, true, false, not, ◌&&◌, ◌||◌, ◌==◌, ◌!=◌, Eq, is_empty, List,
  [], ◌∷◌, any, Option, none, some, Result, ok, ◌>>◌, reject_if, ℤ, pos, ltb_ℤ, Time, is_zero,
}
use record_hub.Base.Trim.{is_blank}
use record_hub.Identity.Principal.{IdentityKey}

-- The kind of a table is a Go string.
pub data TableKind : Type 0 where
  custom projection : TableKind
  other : Text → TableKind

unfoldable pub TableKind-discrete : Discrete TableKind
TableKind-discrete = hlevel Text-discrete

instance abbrev pub table_kind_eq : Eq TableKind
table_kind_eq = record { dec = TableKind-discrete }

pub record Workspace : Type 0 where
  pub id : Text
  pub tenant_id : Text
  pub name : Text
  pub version : ℤ
  pub created_by : IdentityKey
  pub created_at : Time
  pub updated_at : Time

pub record SourcePolicy : Type 0 where
  pub system : Text
  pub type_name : Text
  pub allow_fields : List Text

pub record TableDefinition : Type 0 where
  pub id : Text
  pub tenant_id : Text
  pub workspace_id : Text
  pub name : Text
  pub kind : TableKind
  pub schema_id : Text
  pub schema_version : ℤ
  pub source_policy : Option SourcePolicy
  pub version : ℤ
  pub created_by : IdentityKey
  pub updated_by : IdentityKey
  pub created_at : Time
  pub updated_at : Time

pub record RecordSource : Type 0 where
  pub system : Text
  pub type_name : Text
  pub id : Text
  pub version : ℤ

pub record RelationTarget : Type 0 where
  pub system : Text
  pub type_name : Text
  pub id : Text

-- The status of a relation is a Go string.
pub data RelationStatus : Type 0 where
  current broken forbidden : RelationStatus
  other : Text → RelationStatus

pub record RecordRelation : Type 0 where
  pub target : RelationTarget
  pub relation_type : Text
  pub resolved_record_id : Text
  pub status : RelationStatus

pub record ProjectionState : Type 0 where
  pub last_event_id : Text
  pub synced_at : Time
  pub status : Text

pub record ProjectionReadPointer : Type 0 where
  pub tenant_id : Text
  pub workspace_id : Text
  pub table_id : Text
  pub generation_id : Text
  pub collection_name : Text
  pub operation_id : Text
  pub revision : ℤ
  pub status : Text
  pub created_at : Time
  pub activated_at : Time

pub record Record : Type 0 where
  pub id : Text
  pub tenant_id : Text
  pub workspace_id : Text
  pub table_id : Text
  pub schema_id : Text
  pub schema_version : ℤ
  pub source : Option RecordSource
  pub record_version : ℤ
  pub tags : List Text
  pub data_bytes : Text
  pub relations : List RecordRelation
  pub projection : Option ProjectionState
  pub created_by : IdentityKey
  pub updated_by : IdentityKey
  pub created_at : Time
  pub updated_at : Time

-- The errors that the checks return, a constructor for each message.
pub data ModelError : Type 0 where
  identity_required version_not_positive data_not_object signed_by_required source_incomplete :
      ModelError
  relation_incomplete relation_exposed relation_status : ModelError
  workspace_incomplete table_incomplete table_kind schema_required policy_required policy_field
        policy_on_custom :
      ModelError

abbrev pub unsigned : IdentityKey → Bool
unsigned key = is_empty key.issuer || is_empty key.subject

-- The check of the status of a relation, a `switch` of the source.
abbrev status_checked : RelationStatus → Text → Result ModelError (Unit {0})
status_checked current resolved = ok tt
status_checked broken resolved = ok tt
status_checked forbidden resolved = reject_if (not (is_empty resolved)) ModelError.relation_exposed
status_checked (other name) resolved = reject_if (not (is_empty name)) ModelError.relation_status

unfoldable pub validate_relation : RecordRelation → Result ModelError (Unit {0})
validate_relation r = do
  reject_if
      (is_blank r.target.system
        || is_blank r.target.type_name
        || is_blank r.target.id
        || is_blank r.relation_type)
      ModelError.relation_incomplete
  status_checked r.status r.resolved_record_id

unfoldable pub validate_relations : List RecordRelation → Result ModelError (Unit {0})
validate_relations [] = ok tt
validate_relations (r ∷ rest) = do validate_relation r; validate_relations rest

abbrev source_bad : Option RecordSource → Bool
source_bad none = false
source_bad (some s) =
    is_blank s.system || is_blank s.type_name || is_blank s.id || ltb_ℤ s.version (pos 1)

-- `Record.Validate`
unfoldable pub validate_record : (Text → Bool) → Record → Result ModelError (Unit {0})
unfolding validate_relations
validate_record is_document r = do
  reject_if
      (is_blank r.id
        || is_blank r.tenant_id
        || is_blank r.workspace_id
        || is_blank r.table_id
        || is_blank r.schema_id)
      ModelError.identity_required
  reject_if (ltb_ℤ r.schema_version (pos 1) || ltb_ℤ r.record_version (pos 1))
      ModelError.version_not_positive
  reject_if (is_empty r.data_bytes || not (is_document r.data_bytes)) ModelError.data_not_object
  reject_if
      (unsigned r.created_by
        || unsigned r.updated_by
        || is_zero r.created_at
        || is_zero r.updated_at)
      ModelError.signed_by_required
  reject_if (source_bad r.source) ModelError.source_incomplete
  validate_relations r.relations

-- `Workspace.Validate`
unfoldable pub validate_workspace : Workspace → Result ModelError (Unit {0})
validate_workspace w = do
  reject_if (is_blank w.id || is_blank w.tenant_id || is_blank w.name)
      ModelError.workspace_incomplete
  reject_if (ltb_ℤ w.version (pos 1)) ModelError.version_not_positive
  reject_if (unsigned w.created_by || is_zero w.created_at || is_zero w.updated_at)
      ModelError.signed_by_required

abbrev policy_missing : Option SourcePolicy → Bool
policy_missing none = true
policy_missing (some p) = is_blank p.system || is_blank p.type_name

abbrev policy_fields : Option SourcePolicy → List Text
policy_fields none = []
policy_fields (some p) = p.allow_fields

abbrev has_policy : Option SourcePolicy → Bool
has_policy none = false
has_policy (some p) = true

-- `TableDefinition.Validate`
unfoldable pub validate_table : TableDefinition → Result ModelError (Unit {0})
validate_table t = do
  reject_if (is_blank t.id || is_blank t.tenant_id || is_blank t.workspace_id || is_blank t.name)
      ModelError.table_incomplete
  reject_if (t.kind != TableKind.custom && t.kind != TableKind.projection) ModelError.table_kind
  reject_if (is_blank t.schema_id || ltb_ℤ t.schema_version (pos 1)) ModelError.schema_required
  reject_if (t.kind == TableKind.projection && policy_missing t.source_policy)
      ModelError.policy_required
  reject_if (t.kind == TableKind.projection && any is_blank (policy_fields t.source_policy))
      ModelError.policy_field
  reject_if (t.kind != TableKind.projection && has_policy t.source_policy)
      ModelError.policy_on_custom
  reject_if (ltb_ℤ t.version (pos 1)) ModelError.version_not_positive
  reject_if
      (unsigned t.created_by
        || unsigned t.updated_by
        || is_zero t.created_at
        || is_zero t.updated_at)
      ModelError.signed_by_required
