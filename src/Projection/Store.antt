-- ===== src/Projection/Store.antt =====
-- server/internal/modules/projection/store.go: MongoProjectionRepository. The collections are
-- parameters; a transaction is one run of its callback, and one that ends in an error leaves them
-- as they were. Publication to the feed comes after it and its errors are ignored. `afterCommit` is
-- a hook for tests, nil in the program.
pub mod Effect
pub mod Laws
pub mod Runs
pub mod Versions
pub mod Once
pub mod Redelivery
pub mod Staging
pub mod Trail
mod Tests
use record_hub.Base.{
  Text, text_eq, Text-discrete, codes, is_empty, Bool, true, false, not, ◌&&◌, ◌||◌, ◌==◌, ◌!=◌, Eq,
  ◌++◌, Option, none, some, Result, ok, err, ◌>>=◌, ◌>>◌, reject_if, if◌then◌else◌, leb_ℤ, Time,
  is_zero,
}
use record_hub.Base.Trim.{trim_space, is_blank}
use record_hub.Audit
use record_hub.Database.{Found, Updated, Collection}
use record_hub.Records.Model.{Record, ProjectionReadPointer, ModelError, validate_record, unsigned}
use record_hub.Records.Feed.{RecordChange, RecordFeed, publish}
use record_hub.Projection.Inbox.{
  InboxEvent, InboxStatus, inbox_status_eq, InboxError, EventKey, event_key, validate_event,
  is_processing, mark_applied_set,
}
use record_hub.Projection.Checkpoint.{
  CheckpointStatus, ProjectionCheckpoint, CheckpointKey, CheckpointError, checkpoint_filter,
  validate_checkpoint, VersionDecision, classify_checkpoint,
}

pub record ProjectionApply : Type 0 where
  pub inbox_event : InboxEvent
  pub projection_record : Record
  pub checkpoint : ProjectionCheckpoint
  pub audit : Audit.Entry

pub data ApplyError : Type 0 where
  bad_event : InboxError → ApplyError
  bad_checkpoint : CheckpointError → ApplyError
  bad_record : ModelError → ApplyError
  record_required scope_mismatch audit_incomplete : ApplyError
  inbox_not_found payload_conflict already_applied state_conflict version_gap pointer_unavailable
        database_failed :
      ApplyError

abbrev pub wrap {ℓ κ} : {E F : Type ℓ} {A : Type κ} → (E → F) → Result E A → Result F A
wrap f (ok a) = ok a
wrap f (err e) = err (f e)

abbrev has_state {ℓ} : {A : Type ℓ} → Option A → Bool
has_state none = false
has_state (some a) = true

-- `validateProjectionApply`
unfoldable pub validate_apply : (Text → Bool) → ProjectionApply → Result ApplyError (Unit {0})
validate_apply is_document i = do
  let r = i.projection_record
  let e = i.inbox_event
  let c = i.checkpoint
  wrap ApplyError.bad_event (validate_event e)
  wrap ApplyError.bad_checkpoint (validate_checkpoint c)
  wrap ApplyError.bad_record (validate_record is_document r)
  reject_if (not (has_state r.projection)) ApplyError.record_required
  reject_if
      (c.last_event_id != e.event_id
        || c.tenant_id != r.tenant_id
        || c.workspace_id != r.workspace_id
        || c.consumer != e.consumer
        || i.audit.tenant_id != r.tenant_id
        || i.audit.workspace_id != r.workspace_id
        || i.audit.resource_id != r.id
        || (not (is_empty e.tenant_id)
            && (e.tenant_id != r.tenant_id || e.workspace_id != r.workspace_id)))
      ApplyError.scope_mismatch
  reject_if
      (is_empty i.audit.action
        || unsigned i.audit.actor
        || is_empty i.audit.resource_type
        || is_zero i.audit.created_at)
      ApplyError.audit_incomplete

-- A record of the collection with a name.
pub record RecordKey : Type 0 where
  pub collection_name : Text
  pub tenant_id : Text
  pub workspace_id : Text
  pub table_id : Text
  pub id : Text

unfoldable pub RecordKey-discrete : Discrete RecordKey
RecordKey-discrete = hlevel Text-discrete

instance abbrev pub record_key_eq : Eq RecordKey
record_key_eq = record { dec = RecordKey-discrete }

abbrev pub record_key : Text → Record → RecordKey
record_key name r = record {
  collection_name = name;
  tenant_id = r.tenant_id;
  workspace_id = r.workspace_id;
  table_id = r.table_id;
  id = r.id;
}

-- The unique index of the read pointers.
pub record PointerKey : Type 0 where
  pub tenant_id : Text
  pub workspace_id : Text
  pub table_id : Text
  pub status : Text

unfoldable pub PointerKey-discrete : Discrete PointerKey
PointerKey-discrete = hlevel Text-discrete

instance abbrev pub pointer_key_eq : Eq PointerKey
pointer_key_eq = record { dec = PointerKey-discrete }

-- What the transaction did: the event was stale, it left a gap, or it was applied, with the change
-- to publish.
pub data Outcome : Type 0 where
  stale gap : Outcome
  applied : RecordChange → Outcome

-- The change that the feed is told of.
abbrev pub feed_change : ProjectionApply → RecordChange
feed_change i = record {
  id = 0;
  tenant_id = i.projection_record.tenant_id;
  workspace_id = i.projection_record.workspace_id;
  table_id = i.projection_record.table_id;
  record_id = i.projection_record.id;
  record_version = i.projection_record.record_version;
  change_type = codes "upsert";
  last_event_id = i.inbox_event.event_id;
  occurred_at = i.checkpoint.synced_at;
  dedup_key = codes "projection:" ++ i.inbox_event.consumer ++ codes ":" ++ i.inbox_event.event_id;
}

abbrev pub gap_set : ProjectionCheckpoint → ProjectionCheckpoint
gap_set c = record c { status = CheckpointStatus.gap }

-- The updates of a checkpoint have no test but the key.
abbrev pub always : ProjectionCheckpoint → Bool
always c = true

-- The collections that the repository works on, and how an audit entry is inserted.
pub record Collections (SI SR SP SC SA : Type 0) : Type 0 where
  pub inbox : Collection EventKey InboxEvent SI
  pub records : Collection RecordKey Record SR
  pub read_pointers : Collection PointerKey ProjectionReadPointer SP
  pub checkpoints : Collection CheckpointKey ProjectionCheckpoint SC
  pub append_audit : Audit.Entry → SA → Option SA

pub record State (SI SR SP SC SA : Type 0) : Type 0 where
  pub inbox : SI
  pub records : SR
  pub read_pointers : SP
  pub checkpoints : SC
  pub audit : SA

abbrev found_in_inbox : Found InboxEvent → Result ApplyError InboxEvent
found_in_inbox (Found.found e) = ok e
found_in_inbox Found.no_documents = err ApplyError.inbox_not_found
found_in_inbox Found.failed = err ApplyError.database_failed

abbrev pub optional : {D : Type 0} → Found D → Result ApplyError (Option D)
optional (Found.found d) = ok (some d)
optional Found.no_documents = ok none
optional Found.failed = err ApplyError.database_failed

-- The checks of the stored event.
abbrev pub check_event : ProjectionApply → InboxEvent → Result ApplyError (Unit {0})
check_event i existing = do
  reject_if (existing.payload_hash != i.inbox_event.payload_hash) ApplyError.payload_conflict
  reject_if (existing.status == InboxStatus.applied) ApplyError.already_applied
  reject_if (existing.status != InboxStatus.processing) ApplyError.state_conflict

-- `projectionReadPointer` of a table that is active.
abbrev pub active_key : Record → PointerKey
active_key r = record {
  tenant_id = r.tenant_id;
  workspace_id = r.workspace_id;
  table_id = r.table_id;
  status = codes "ACTIVE";
}

abbrev named_collection : Found ProjectionReadPointer → Result ApplyError Text
named_collection Found.no_documents = ok (codes "records")
named_collection Found.failed = err ApplyError.database_failed
named_collection (Found.found p) =
    if is_blank p.collection_name then err ApplyError.pointer_unavailable else ok p.collection_name

abbrev pub published : Time → RecordChange → Option RecordFeed → Option RecordFeed
published now change none = none
published now change (some feed) = elim (publish now change feed) [
  | ok feed' ↦ some feed'
  | err e ↦ some feed
]

module _ {SI SR SP SC SA : Type 0} (db : Collections SI SR SP SC SA) where
  abbrev pub Stores : Type 0
  Stores = State SI SR SP SC SA

  abbrev pub with_inbox : Stores → Updated SI → Result ApplyError Stores
  with_inbox s (Updated.updated n inbox') = ok (record s { inbox = inbox' })
  with_inbox s Updated.failed = err ApplyError.database_failed

  unfoldable pub mark_inbox : ProjectionApply → Stores → Result ApplyError Stores
  mark_inbox i s = with_inbox s (
      db.inbox.update_one (event_key i.inbox_event) is_processing
        (mark_applied_set i.checkpoint.synced_at) s.inbox)

  -- `activeRecordsCollection`
  unfoldable pub active_collection : Record → Stores → Result ApplyError Text
  active_collection r s =
      if is_blank r.table_id
      then ok (codes "records")
      else named_collection (db.read_pointers.find_one (active_key r) s.read_pointers)

  abbrev pub with_records : Stores → Option SR → Result ApplyError Stores
  with_records s (some records') = ok (record s { records = records' })
  with_records s none = err ApplyError.database_failed

  unfoldable pub put_record : Text → ProjectionApply → Stores → Result ApplyError Stores
  put_record name i s =
      with_records s
        (db.records.replace_one (record_key name i.projection_record) i.projection_record s.records)

  abbrev pub with_checkpoints : Stores → Option SC → Result ApplyError Stores
  with_checkpoints s (some checkpoints') = ok (record s { checkpoints = checkpoints' })
  with_checkpoints s none = err ApplyError.database_failed

  unfoldable pub put_checkpoint : ProjectionApply → Stores → Result ApplyError Stores
  put_checkpoint i s =
      with_checkpoints s
        (db.checkpoints.replace_one (checkpoint_filter i.checkpoint) i.checkpoint s.checkpoints)

  abbrev pub with_audit : Stores → Option SA → Result ApplyError Stores
  with_audit s (some audit') = ok (record s { audit = audit' })
  with_audit s none = err ApplyError.database_failed

  unfoldable pub put_audit : ProjectionApply → Stores → Result ApplyError Stores
  put_audit i s = with_audit s (db.append_audit i.audit s.audit)

  abbrev pub with_gap : Stores → Updated SC → Result ApplyError (Outcome × Stores)
  with_gap s (Updated.updated n checkpoints') =
      ok (Outcome.gap, record s { checkpoints = checkpoints' })
  with_gap s Updated.failed = err ApplyError.database_failed

  unfoldable pub mark_gap :
      ProjectionApply → Option ProjectionCheckpoint → Stores → Result ApplyError (Outcome × Stores)
  mark_gap i none s = ok (Outcome.gap, s)
  mark_gap i (some current) s =
      with_gap s
        (db.checkpoints.update_one (checkpoint_filter i.checkpoint) always gap_set s.checkpoints)

  -- What follows the decision.
  unfoldable pub decided :
      VersionDecision
      → ProjectionApply
      → Option ProjectionCheckpoint
      → Stores
      → Result ApplyError (Outcome × Stores)
  unfolding mark_gap
  decided VersionDecision.version_stale i current s = do s' ← mark_inbox i s; ok (Outcome.stale, s')
  decided VersionDecision.version_gap i current s = mark_gap i current s
  decided VersionDecision.version_apply i current s = do
    s1 ← mark_inbox i s
    name ← active_collection i.projection_record s1
    s2 ← put_record name i s1
    s3 ← put_checkpoint i s2
    s4 ← put_audit i s3
    ok (Outcome.applied (feed_change i), s4)

  -- The transaction.
  unfoldable pub transact : ProjectionApply → Stores → Result ApplyError (Outcome × Stores)
  unfolding decided
  transact i s = do
    existing ← found_in_inbox (db.inbox.find_one (event_key i.inbox_event) s.inbox)
    check_event i existing
    current ← optional (db.checkpoints.find_one (checkpoint_filter i.checkpoint) s.checkpoints)
    decided (classify_checkpoint current i.checkpoint.source_version) i current s

  -- What `Apply` makes of it.
  unfoldable pub settled :
      Time
      → Stores
      → Option RecordFeed
      → Result ApplyError (Outcome × Stores)
      → Result ApplyError (Unit {0}) × Stores × Option RecordFeed
  settled now s feed (err ApplyError.already_applied) = (ok tt, s, feed)
  settled now s feed (err e) = (err e, s, feed)
  settled now s feed (ok (Outcome.stale, s')) = (ok tt, s', feed)
  settled now s feed (ok (Outcome.gap, s')) = (err ApplyError.version_gap, s', feed)
  settled now s feed (ok (Outcome.applied change, s')) = (ok tt, s', published now change feed)

  -- `Apply` of a repository that is not for staging, at the feed's clock `now`.
  unfoldable pub apply :
      (Text → Bool)
      → Time
      → ProjectionApply
      → Stores
      → Option RecordFeed
      → Result ApplyError (Unit {0}) × Stores × Option RecordFeed
  apply is_document now i s feed = settled now s feed (validate_apply is_document i >> transact i s)

  unfoldable pub staged : Text → ProjectionApply → Stores → Option Record → Result ApplyError Stores
  staged name i s none = put_record name i s
  staged name i s (some current) =
      if leb_ℤ i.projection_record.record_version current.record_version
      then ok s
      else put_record name i s

  -- `applyStaging`, of the staging collection with that name.
  unfoldable pub apply_staging :
      (Text → Bool) → Text → ProjectionApply → Stores → Result ApplyError Stores
  apply_staging is_document name i s = do
    validate_apply is_document i
    current ← optional (db.records.find_one (record_key name i.projection_record) s.records)
    staged name i s current
