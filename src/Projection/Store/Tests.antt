-- ===== src/Projection/Store/Tests.antt =====
-- The projection store over collections that never fail.
use record_hub.Base.{
  ℕ, Text, codes, Bool, true, false, not, is_empty, List, [], ◌∷◌, ◌++◌, map, length, Option, none,
  some, Result, ok, err, ℤ, pos, Time, ◌≡◌, ◌⊎◌, refl, arith,
}
use record_hub.Audit
use record_hub.Database.Maps.{map_collection, map_view, map_collection-IsCollection}
use record_hub.Records.Model.{Record, ProjectionReadPointer}
use record_hub.Records.Feed.{RecordFeed}
use record_hub.Projection.Inbox.{InboxEvent, InboxStatus, EventKey, event_key, event_key_eq}
use record_hub.Projection.Inbox.Once.{applied_call}
use record_hub.Projection.Checkpoint.{
  CheckpointStatus, ProjectionCheckpoint, CheckpointKey, checkpoint_key_eq, checkpoint_filter,
}
use record_hub.Projection.Store.{
  Stores, ProjectionApply, ApplyError, RecordKey, record_key, record_key_eq, PointerKey,
  pointer_key_eq, Collections, State, validate_apply, apply, apply_staging,
}
use record_hub.Projection.Store.Effect.{Views, AreCollections, version}
use record_hub.Projection.Store.Runs.{
  StoreCall, apply_call, inbox_call, advance, successors, versions_of, event_keys, log_of,
  store_step, run_store,
}
use record_hub.Projection.Store.Versions.{versions_follow}
use record_hub.Projection.Store.Once.{Distinct, applied_once}
use record_hub.Projection.Store.Redelivery.{redelivered}
use record_hub.Projection.Store.Staging.{AtLeast, replay, newest_staged}
use record_hub.Projection.Store.Trail.{trail_of_applied}

abbrev plain : Text → Text
plain s = s

abbrev any_document : Text → Bool
any_document s = true

abbrev append_entry : Audit.Entry → List Audit.Entry → Option (List Audit.Entry)
append_entry e s = some (s ++ (e ∷ []))

abbrev db :
    Collections
      (List (EventKey × InboxEvent))
      (List (RecordKey × Record))
      (List (PointerKey × ProjectionReadPointer))
      (List (CheckpointKey × ProjectionCheckpoint))
      (List Audit.Entry)
db = record {
  inbox = map_collection;
  records = map_collection;
  read_pointers = map_collection;
  checkpoints = map_collection;
  append_audit = append_entry;
}

abbrev all_entries : List Audit.Entry → List Audit.Entry
all_entries s = s

abbrev views :
    Views
      (List (EventKey × InboxEvent))
      (List (RecordKey × Record))
      (List (PointerKey × ProjectionReadPointer))
      (List (CheckpointKey × ProjectionCheckpoint))
      (List Audit.Entry)
views = record {
  inbox = map_view;
  records = map_view;
  read_pointers = map_view;
  checkpoints = map_view;
  entries = all_entries;
}

db-AreCollections : AreCollections db views
db-AreCollections = record {
  inbox = map_collection-IsCollection;
  records = map_collection-IsCollection;
  read_pointers = map_collection-IsCollection;
  checkpoints = map_collection-IsCollection;
  audit_lem = λ e s s' h. ground arith;
}

abbrev event : InboxEvent
event = record {
  event_id = codes "e1";
  consumer = codes "bids";
  subject = codes "bids.closed";
  tenant_id = codes "t";
  workspace_id = codes "w";
  payload_hash = codes "h";
  status = InboxStatus.processing;
  received_at = pos 7;
  applied_at = none;
  safe_error = [];
}

abbrev projected : Record
projected = record {
  id = codes "r1";
  tenant_id = codes "t";
  workspace_id = codes "w";
  table_id = codes "bids";
  schema_id = codes "bid";
  schema_version = pos 1;
  source = none;
  record_version = pos 1;
  tags = [];
  data_bytes = codes "d";
  relations = [];
  projection =
      some (record { last_event_id = codes "e1"; synced_at = pos 8; status = codes "CURRENT" });
  created_by = record { issuer = codes "i"; subject = codes "robot" };
  updated_by = record { issuer = codes "i"; subject = codes "robot" };
  created_at = pos 7;
  updated_at = pos 8;
}

abbrev checkpoint : ProjectionCheckpoint
checkpoint = record {
  tenant_id = codes "t";
  workspace_id = codes "w";
  consumer = codes "bids";
  source_system = codes "bids";
  aggregate_type = codes "Bid";
  aggregate_id = codes "7";
  source_version = pos 1;
  last_event_id = codes "e1";
  synced_at = pos 8;
  status = CheckpointStatus.current;
}

abbrev entry : Audit.Entry
entry = record {
  tenant_id = codes "t";
  workspace_id = codes "w";
  action = codes "projection.apply";
  actor = record { issuer = codes "i"; subject = codes "robot" };
  resource_type = codes "record";
  resource_id = codes "r1";
  resource_version = pos 1;
  request_id = [];
  idempotency_key = [];
  before_hash = [];
  after_hash = [];
  view_id = [];
  field_set = [];
  redacted_fields = [];
  created_at = pos 8;
}

abbrev input : ProjectionApply
input = record {
  inbox_event = event;
  projection_record = projected;
  checkpoint = checkpoint;
  audit = entry;
}

-- The second version, of an event that is not in the inbox.
abbrev second : ProjectionApply
second = record {
  inbox_event = record event { event_id = codes "e2" };
  projection_record = record projected { record_version = pos 2 };
  checkpoint = record checkpoint { source_version = pos 2; last_event_id = codes "e2" };
  audit = entry;
}

abbrev start :
    State
      (List (EventKey × InboxEvent))
      (List (RecordKey × Record))
      (List (PointerKey × ProjectionReadPointer))
      (List (CheckpointKey × ProjectionCheckpoint))
      (List Audit.Entry)
start = record {
  inbox = (event_key event, event) ∷ [];
  records = [];
  read_pointers = [];
  checkpoints = [];
  audit = [];
}

abbrev no_feed : Option RecordFeed
no_feed = none

abbrev calls : List StoreCall
calls =
    apply_call (pos 9) input
    ∷ apply_call (pos 10) second
    ∷ inbox_call (applied_call (event_key event) (pos 11))
    ∷ []

versions_follow_example :
    let (log, s', feed') = run_store db any_document plain calls start no_feed in
    (versions_of (checkpoint_filter checkpoint) log
      ≡ successors
          (length (versions_of (checkpoint_filter checkpoint) log))
          (version db views db-AreCollections start (checkpoint_filter checkpoint)))
    × (version db views db-AreCollections s' (checkpoint_filter checkpoint)
        ≡ advance
            (length (versions_of (checkpoint_filter checkpoint) log))
            (version db views db-AreCollections start (checkpoint_filter checkpoint)))
versions_follow_example =
    versions_follow db any_document plain views db-AreCollections calls start no_feed
      (checkpoint_filter checkpoint)

applied_once_example : Distinct (event_keys (run_store db any_document plain calls start no_feed).0)
applied_once_example =
    applied_once db any_document plain views db-AreCollections calls start no_feed

trail_of_applied_example :
    let (log, s', feed') = run_store db any_document plain calls start no_feed in
    s'.audit ≡ map (λ i. i.audit) log
trail_of_applied_example =
    trail_of_applied db any_document plain views db-AreCollections calls start no_feed

input_valid : validate_apply any_document input ≡ ok tt
unfolding validate_apply record_hub.Projection.Inbox.validate_event record_hub.Base.Trim.is_blank
    record_hub.Base.ℕ_discrete record_hub.Projection.Inbox.InboxStatus-discrete
    record_hub.Base.ℤ-discrete record_hub.Projection.Checkpoint.validate_checkpoint
    record_hub.Records.Model.validate_record record_hub.Base.Text-discrete
input_valid = refl

input_logged : log_of db any_document plain (apply_call (pos 9) input) start ≡ input ∷ []
unfolding validate_apply record_hub.Projection.Inbox.validate_event record_hub.Base.Trim.is_blank
    record_hub.Base.ℕ_discrete record_hub.Projection.Inbox.InboxStatus-discrete
    record_hub.Base.ℤ-discrete record_hub.Projection.Checkpoint.validate_checkpoint
    record_hub.Records.Model.validate_record record_hub.Base.Text-discrete
    record_hub.Projection.Store.transact map_collection record_hub.Base.Map.lookup
    record_hub.Projection.Inbox.EventKey-discrete
    record_hub.Projection.Checkpoint.classify_checkpoint record_hub.Projection.Store.mark_inbox
    record_hub.Projection.Store.active_collection record_hub.Projection.Store.put_record
    record_hub.Base.Map.insert record_hub.Projection.Store.decided
    record_hub.Projection.Store.mark_gap record_hub.Projection.Store.put_audit
    record_hub.Projection.Store.put_checkpoint record_hub.Records.Model.validate_relations
input_logged = refl

redelivered_example :
    let (s1, feed1) = store_step db any_document plain (apply_call (pos 9) input) start no_feed in
    let (log, s2, feed2) =
      run_store db any_document plain (apply_call (pos 10) second ∷ []) s1 feed1 in
    (apply db any_document (pos 12) input s2 feed2 ≡ (ok tt, s2, feed2))
    ⊎ (apply db any_document (pos 12) input s2 feed2 ≡ (err ApplyError.database_failed, s2, feed2))
redelivered_example =
    redelivered db any_document plain views db-AreCollections input input (pos 9) (pos 12) start
      no_feed (apply_call (pos 10) second ∷ []) input_logged input_valid refl refl

abbrev shelf : Text
shelf = codes "projection_staging_records_op"

abbrev staged_state :
    State
      (List (EventKey × InboxEvent))
      (List (RecordKey × Record))
      (List (PointerKey × ProjectionReadPointer))
      (List (CheckpointKey × ProjectionCheckpoint))
      (List Audit.Entry)
staged_state = record start {
  records = (record_key shelf second.projection_record, second.projection_record) ∷ [];
}

second_staged : apply_staging db any_document shelf second start ≡ ok staged_state
unfolding apply_staging validate_apply record_hub.Projection.Inbox.validate_event
    record_hub.Base.Trim.is_blank record_hub.Base.ℕ_discrete
    record_hub.Projection.Inbox.InboxStatus-discrete record_hub.Base.ℤ-discrete
    record_hub.Projection.Checkpoint.validate_checkpoint record_hub.Records.Model.validate_record
    record_hub.Base.Text-discrete map_collection record_hub.Base.Map.lookup
    record_hub.Projection.Store.staged record_hub.Projection.Store.put_record
    record_hub.Base.Map.insert
second_staged = refl

newest_staged_example : AtLeast (pos 2) (
    map_view
      (replay db any_document shelf (input ∷ []) staged_state).records
      (record_key shelf second.projection_record))
newest_staged_example =
    newest_staged db any_document shelf views db-AreCollections second start staged_state
      (input ∷ []) second_staged
