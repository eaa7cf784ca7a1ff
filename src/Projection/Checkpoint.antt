-- ===== src/Projection/Checkpoint.antt =====
-- server/internal/modules/projection/store.go: checkpoints, and the decision on an event's version.
use record_hub.Base.{
  Text, text_eq, Text-discrete, Bool, true, false, ◌||◌, ◌!=◌, Eq, Option, none, some, Result, ok,
  err, ◌>>◌, reject_if, if◌then◌else◌, ℤ, pos, int_eq, ltb_ℤ, leb_ℤ, inc64, Time, is_zero,
}
use record_hub.Base.Trim.{is_blank}

-- The status is a Go string.
pub data CheckpointStatus : Type 0 where
  current gap failed : CheckpointStatus
  other : Text → CheckpointStatus

pub record ProjectionCheckpoint : Type 0 where
  pub tenant_id : Text
  pub workspace_id : Text
  pub consumer : Text
  pub source_system : Text
  pub aggregate_type : Text
  pub aggregate_id : Text
  pub source_version : ℤ
  pub last_event_id : Text
  pub synced_at : Time
  pub status : CheckpointStatus

-- The unique index of the collection, which projectionCheckpointFilter selects by.
pub record CheckpointKey : Type 0 where
  pub tenant_id : Text
  pub workspace_id : Text
  pub consumer : Text
  pub source_system : Text
  pub aggregate_type : Text
  pub aggregate_id : Text

unfoldable pub CheckpointKey-discrete : Discrete CheckpointKey
CheckpointKey-discrete = hlevel Text-discrete

instance abbrev pub checkpoint_key_eq : Eq CheckpointKey
checkpoint_key_eq = record { dec = CheckpointKey-discrete }

-- `projectionCheckpointFilter`
abbrev pub checkpoint_filter : ProjectionCheckpoint → CheckpointKey
checkpoint_filter c = record {
  tenant_id = c.tenant_id;
  workspace_id = c.workspace_id;
  consumer = c.consumer;
  source_system = c.source_system;
  aggregate_type = c.aggregate_type;
  aggregate_id = c.aggregate_id;
}

pub data CheckpointError : Type 0 where
  scope_required version_negative synced_at_required status_invalid : CheckpointError

abbrev is_known_status : CheckpointStatus → Bool
is_known_status (CheckpointStatus.other name) = false
is_known_status _ = true

-- `ProjectionCheckpoint.Validate`
unfoldable pub validate_checkpoint : ProjectionCheckpoint → Result CheckpointError (Unit {0})
validate_checkpoint c = do
  reject_if
      (is_blank c.tenant_id
        || is_blank c.workspace_id
        || is_blank c.consumer
        || is_blank c.source_system
        || is_blank c.aggregate_type
        || is_blank c.aggregate_id
        || is_blank c.last_event_id)
      CheckpointError.scope_required
  reject_if (ltb_ℤ c.source_version (pos 0)) CheckpointError.version_negative
  reject_if (is_zero c.synced_at) CheckpointError.synced_at_required
  if is_known_status c.status then ok tt else err CheckpointError.status_invalid

pub data VersionDecision : Type 0 where
  version_apply version_stale version_gap : VersionDecision

-- The version of the checkpoint, if there is one.
abbrev pub current_version : Option ProjectionCheckpoint → ℤ
current_version none = pos 0
current_version (some c) = c.source_version

-- `classifyCheckpoint`
unfoldable pub classify_checkpoint : Option ProjectionCheckpoint → ℤ → VersionDecision
classify_checkpoint stored incoming =
    if leb_ℤ incoming (current_version stored)
    then VersionDecision.version_stale
    else if incoming != inc64 (current_version stored)
    then VersionDecision.version_gap
    else VersionDecision.version_apply
