-- ===== src/Projection/ReadPointer.antt =====
-- server/internal/modules/projection/read_pointer.go: the pointers that switch the readers of a
-- table to another collection. Their unique index is over the scope, the table and the status, so
-- an update of the status moves a pointer to another key; `set_status` is that update, a parameter.
pub mod Laws
pub mod Switch
pub mod Retired
pub mod Restore
mod Tests
use record_hub.Base.{
  Text, text_eq, codes, is_empty, contains, Bool, true, false, ◌||◌, ◌==◌, ◌++◌, List, [], ◌∷◌,
  Option, none, some, Result, ok, err, ◌>>=◌, ◌>>◌, reject_if, if◌then◌else◌, length, take, drop,
  ltb_ℤ, pos, Time,
}
use record_hub.Base.Trim.{trim_space, is_blank}
use record_hub.Database.{Found, Inserted, Updated, Collection}
use record_hub.Records.Model.{ProjectionReadPointer}
use record_hub.Projection.Checkpoint.{
  ProjectionCheckpoint, CheckpointKey, CheckpointError, checkpoint_filter, validate_checkpoint,
}
use record_hub.Projection.Store.{PointerKey, always}

pub data PointerError : Type 0 where
  pointer_unavailable database_failed : PointerError
  bad_checkpoint : CheckpointError → PointerError

abbrev pub active_status : Text
active_status = codes "ACTIVE"

abbrev pub retired_status : Text
retired_status = codes "RETIRED"

pub record Pointers (SP SC : Type 0) : Type 0 where
  pub collection : Collection PointerKey ProjectionReadPointer SP
  -- `UpdateOne` with `$set` of the status, on the pointer under a key if there is one; the driver's
  -- error, which the unique index may cause, is `none`.
  pub set_status : PointerKey → Text → SP → Option SP
  pub checkpoints : Collection CheckpointKey ProjectionCheckpoint SC

-- `stagingRecordsCollectionName`
abbrev staging_prefix : Text
staging_prefix = codes "projection_staging_records_"

unfoldable pub staging_records_collection_name : Text → Text
staging_records_collection_name operation_id =
    let id = trim_space operation_id in
    let n = length staging_prefix in
    staging_prefix ++ (if take n id == staging_prefix then drop n id else id)

-- The trimmed tables, without blanks and repetitions.
unfoldable pub unique_from : List Text → List Text → List Text
unique_from seen [] = []
unique_from seen (table ∷ tables) =
    let t = trim_space table in
    let skipped = unique_from seen tables in
    let rest = unique_from (t ∷ seen) tables in
    if is_empty t || contains seen t then skipped else t ∷ rest

abbrev pub is_nil : List Text → Bool
is_nil [] = true
is_nil (t ∷ tables) = false

-- The inputs of an activation.
pub record Activation : Type 0 where
  pub tenant_id : Text
  pub workspace_id : Text
  pub operation_id : Text
  pub generation_id : Text
  pub collection_name : Text
  pub table_ids : List Text
  pub checkpoints : List ProjectionCheckpoint

abbrev pub trimmed : Activation → Activation
trimmed a = record a {
  tenant_id = trim_space a.tenant_id;
  workspace_id = trim_space a.workspace_id;
  operation_id = trim_space a.operation_id;
  generation_id = trim_space a.generation_id;
  collection_name = trim_space a.collection_name;
}

abbrev pub pointer_key : Activation → Text → Text → PointerKey
pointer_key a table status = record {
  tenant_id = a.tenant_id;
  workspace_id = a.workspace_id;
  table_id = table;
  status = status;
}

abbrev pub new_pointer : Activation → Time → Text → ProjectionReadPointer
new_pointer a now table = record {
  tenant_id = a.tenant_id;
  workspace_id = a.workspace_id;
  table_id = table;
  generation_id = a.generation_id;
  collection_name = a.collection_name;
  operation_id = a.operation_id;
  revision = pos 1;
  status = active_status;
  created_at = now;
  activated_at = now;
}

abbrev pub inserted_or : {S : Type 0} → Inserted S → Result PointerError S
inserted_or (Inserted.inserted s) = ok s
inserted_or Inserted.duplicate_key = err PointerError.database_failed
inserted_or Inserted.failed = err PointerError.database_failed

abbrev pub or_failed : {S : Type 0} → Option S → Result PointerError S
or_failed (some s) = ok s
or_failed none = err PointerError.database_failed

abbrev pub updated_or : {S : Type 0} → Updated S → Result PointerError S
updated_or (Updated.updated n s) = ok s
updated_or Updated.failed = err PointerError.database_failed

abbrev pub checked : ProjectionCheckpoint → Result PointerError (Unit {0})
checked c = elim (validate_checkpoint c) [
  | ok u ↦ ok tt
  | err e ↦ err (PointerError.bad_checkpoint e)
]

module _ {SP SC : Type 0} (db : Pointers SP SC) where
  -- One table: its active pointer is retired, and the new one inserted.
  unfoldable pub activate_table : Activation → Time → Text → SP → Result PointerError SP
  activate_table a now table s = do
    s' ← or_failed (db.set_status (pointer_key a table active_status) retired_status s)
    inserted_or
        (db.collection.insert_one (pointer_key a table active_status) (new_pointer a now table) s')

  unfoldable pub activate_tables : Activation → Time → List Text → SP → Result PointerError SP
  activate_tables a now [] s = ok s
  activate_tables a now (table ∷ tables) s = do
    s' ← activate_table a now table s
    activate_tables a now tables s'

  -- One checkpoint of the replay, by what is stored for its aggregate.
  unfoldable pub restored :
      ProjectionCheckpoint → SC → Found ProjectionCheckpoint → Result PointerError SC
  restored c s Found.no_documents =
      inserted_or (db.checkpoints.insert_one (checkpoint_filter c) c s)
  restored c s Found.failed = err PointerError.database_failed
  restored c s (Found.found stored) =
      if ltb_ℤ stored.source_version c.source_version
      then updated_or (db.checkpoints.update_one (checkpoint_filter c) always (λ old. c) s)
      else ok s

  unfoldable pub restore_checkpoints : List ProjectionCheckpoint → SC → Result PointerError SC
  restore_checkpoints [] s = ok s
  restore_checkpoints (c ∷ checkpoints) s = do
    checked c
    s' ← restored c s (db.checkpoints.find_one (checkpoint_filter c) s)
    restore_checkpoints checkpoints s'

  -- The transaction of an activation.
  unfoldable pub activation : Activation → Time → SP × SC → Result PointerError (SP × SC)
  activation a now (pointers, checkpoints) = do
    pointers' ← activate_tables a now (unique_from [] a.table_ids) pointers
    checkpoints' ← restore_checkpoints a.checkpoints checkpoints
    ok (pointers', checkpoints')

  -- `ActivateManyWithCheckpoints`
  unfoldable pub activate_many : Activation → Time → SP × SC → Result PointerError (SP × SC)
  activate_many raw now s = do
    let a = trimmed raw
    reject_if
        (is_empty a.tenant_id
          || is_empty a.workspace_id
          || is_empty a.operation_id
          || is_empty a.generation_id
          || is_empty a.collection_name)
        PointerError.pointer_unavailable
    if is_nil (unique_from [] a.table_ids) then ok s else activation a now s
