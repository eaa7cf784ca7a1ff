-- ===== src/Projection/ReadPointer/Tests.antt =====
-- The read pointers over collections that fail only where the unique index asks for it.
use record_hub.Base.{
  Has, Text, text_eq, codes, Bool, true, false, ◌==◌, List, [], ◌∷◌, Option, none, some,
  Option-cases, Result, ok, err, if◌then◌else◌, pos, Time, ◌≡◌, ◌≢◌, ◌⊎◌, inl, inr, refl, arith, ℤ,
  ◌≤ℤ◌,
}
use record_hub.Base.Map.{lookup, insert, erase, lookup-insert, lookup-erase}
use record_hub.Database.Maps.{map_collection, map_view, map_collection-IsCollection}
use record_hub.Records.Model.{ProjectionReadPointer}
use record_hub.Projection.Checkpoint.{
  CheckpointStatus, ProjectionCheckpoint, CheckpointKey, checkpoint_key_eq, checkpoint_filter,
  current_version,
}
use record_hub.Projection.Store.{PointerKey, PointerKey-discrete, pointer_key_eq}
use record_hub.Base.Trim.{trim_space}
use record_hub.Projection.ReadPointer.{
  PointerError, active_status, Pointers, Activation, trimmed, unique_from, pointer_key, new_pointer,
  activate_many, restore_checkpoints,
}
use record_hub.Projection.ReadPointer.Laws.{with_status, ArePointers}
use record_hub.Projection.ReadPointer.Switch.{activation_switches}
use record_hub.Projection.ReadPointer.Retired.{third_activation_fails}
use record_hub.Projection.ReadPointer.Restore.{restore_never_back}

abbrev PointerMap : Type 0
PointerMap = List (PointerKey × ProjectionReadPointer)

abbrev moved :
    PointerKey
    → Text
    → PointerMap
    → Option ProjectionReadPointer
    → Option ProjectionReadPointer
    → Option PointerMap
moved k status s none q = some s
moved k status s (some p) none =
    some (insert (with_status k status) (record p { status = status }) (erase k s))
moved k status s (some p) (some q) = none

abbrev db : Pointers PointerMap (List (CheckpointKey × ProjectionCheckpoint))
db = record {
  collection = map_collection;
  set_status = λ k status s. moved k status s (lookup k s) (lookup (with_status k status) s);
  checkpoints = map_collection;
}

moved_untouched :
    (k : PointerKey) (status : Text) (s s' : PointerMap) (p q : Option ProjectionReadPointer)
    → moved k status s p q ≡ some s'
    → (j : PointerKey) → j ≢ k
    → j ≢ with_status k status
    → lookup j s' ≡ lookup j s
moved_untouched k status s s' none q h j other apart = ground arith
moved_untouched k status s s' (some p) none h j other apart = ground (
  arith,
  lookup-insert (with_status k status) j (record p { status = status }) (erase k s),
  lookup-erase k j s,
)
moved_untouched k status s s' (some p) (some q) h j other apart = absurd (ground arith)

db-ArePointers : ArePointers db map_view
db-ArePointers = record {
  collection = map_collection-IsCollection;
  duplicate_lem = λ k status s p q there taken differ. ground arith;
  moved_lem = λ k status s s' p h there. elim (Option-cases (lookup (with_status k status) s)) [
    | inl free ↦ ground (
      arith,
      lookup-insert (with_status k status) (with_status k status) (record p { status = status })
          (erase k s),
    )
    | inr (q, taken) ↦ absurd (ground arith)
  ];
  untouched_lem = λ k status s s' h j other moved_.
      moved_untouched k status s s' (lookup k s) (lookup (with_status k status) s) h j other moved_;
}

abbrev State : Type 0
State = PointerMap × List (CheckpointKey × ProjectionCheckpoint)

abbrev start : State
start = ([], [])

abbrev replayed : ProjectionCheckpoint
replayed = record {
  tenant_id = codes "t";
  workspace_id = codes "w";
  consumer = codes "bids";
  source_system = codes "bids";
  aggregate_type = codes "Bid";
  aggregate_id = codes "7";
  source_version = pos 3;
  last_event_id = codes "e3";
  synced_at = pos 8;
  status = CheckpointStatus.current;
}

abbrev first : Activation
first = record {
  tenant_id = codes "t";
  workspace_id = codes "w";
  operation_id = codes "op1";
  generation_id = codes "g1";
  collection_name = codes "c1";
  table_ids = codes "bids" ∷ [];
  checkpoints = replayed ∷ [];
}

abbrev second : Activation
second = record first { operation_id = codes "op2"; collection_name = codes "c2" }

abbrev third : Activation
third = record first { operation_id = codes "op3"; collection_name = codes "c3" }

abbrev restored_map : List (CheckpointKey × ProjectionCheckpoint)
restored_map = (checkpoint_filter replayed, replayed) ∷ []

abbrev once : State
once = (
  (pointer_key first (codes "bids") active_status, new_pointer first (pos 5) (codes "bids")) ∷ [],
  restored_map,
)

abbrev twice : State
twice = (
  (
    pointer_key first (codes "bids") (codes "RETIRED"),
    record (new_pointer first (pos 5) (codes "bids")) { status = codes "RETIRED" },
  )
      ∷ (pointer_key first (codes "bids") active_status, new_pointer second (pos 6) (codes "bids"))
      ∷ [],
  restored_map,
)

first_ok : activate_many db first (pos 5) start ≡ ok once
unfolding activate_many record_hub.Base.Trim.trim_space record_hub.Base.ℕ_discrete unique_from
    record_hub.Projection.ReadPointer.activation record_hub.Projection.ReadPointer.activate_tables
    record_hub.Projection.ReadPointer.activate_table lookup map_collection restore_checkpoints
    record_hub.Projection.Checkpoint.validate_checkpoint record_hub.Base.Trim.is_blank
    record_hub.Base.ℤ-discrete record_hub.Projection.ReadPointer.restored insert
first_ok = refl

second_ok : activate_many db second (pos 6) once ≡ ok twice
unfolding activate_many record_hub.Base.Trim.trim_space record_hub.Base.ℕ_discrete unique_from
    record_hub.Projection.ReadPointer.activation record_hub.Projection.ReadPointer.activate_tables
    record_hub.Projection.ReadPointer.activate_table lookup PointerKey-discrete
    record_hub.Base.Text-discrete map_collection insert erase restore_checkpoints
    record_hub.Projection.Checkpoint.validate_checkpoint record_hub.Base.Trim.is_blank
    record_hub.Base.ℤ-discrete record_hub.Projection.ReadPointer.restored
    record_hub.Projection.Checkpoint.CheckpointKey-discrete
second_ok = refl

first_tables : Has (codes "bids") (unique_from [] first.table_ids)
unfolding unique_from record_hub.Base.Trim.trim_space record_hub.Base.ℕ_discrete
first_tables = inl refl

third_activation_fails_example : (e : PointerError) × (activate_many db third (pos 7) twice ≡ err e)
third_activation_fails_example =
    third_activation_fails db map_view db-ArePointers first second third (pos 5) (pos 6) (pos 7)
      (codes "bids") start once twice refl refl first_tables first_tables first_tables first_ok
      second_ok

activation_switches_example :
    map_view once.0 (record {
      tenant_id = trim_space first.tenant_id;
      workspace_id = trim_space first.workspace_id;
      table_id = codes "bids";
      status = codes "ACTIVE";
    })
    ≡ some (record {
      tenant_id = trim_space first.tenant_id;
      workspace_id = trim_space first.workspace_id;
      table_id = codes "bids";
      generation_id = trim_space first.generation_id;
      collection_name = trim_space first.collection_name;
      operation_id = trim_space first.operation_id;
      revision = pos 1;
      status = codes "ACTIVE";
      created_at = pos 5;
      activated_at = pos 5;
    })
unfolding trim_space record_hub.Base.ℕ_discrete
activation_switches_example =
    activation_switches db map_view db-ArePointers first (pos 5) (codes "bids") start once first_ok
      (inl refl) refl

restored_ok : restore_checkpoints db (replayed ∷ []) [] ≡ ok restored_map
unfolding restore_checkpoints record_hub.Projection.Checkpoint.validate_checkpoint
    record_hub.Base.Trim.is_blank record_hub.Base.ℕ_discrete record_hub.Base.ℤ-discrete
    record_hub.Projection.ReadPointer.restored map_collection lookup insert
restored_ok = refl

restore_never_back_example :
    current_version none ≤ℤ current_version (map_view restored_map (checkpoint_filter replayed))
unfolding lookup
restore_never_back_example =
    restore_never_back db map_view map_collection-IsCollection (replayed ∷ []) [] restored_map
      restored_ok (checkpoint_filter replayed)
