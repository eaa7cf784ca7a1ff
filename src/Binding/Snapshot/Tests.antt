-- ===== src/Binding/Snapshot/Tests.antt =====
-- A snapshot of a record, in a store that is a list.
use record_hub.Base.{
  Text, text_eq, codes, Bool, true, false, List, [], ◌∷◌, Option, none, some, Result, ok, err, ℤ,
  pos, Time, ◌==◌, if◌then◌else◌, ◌≡◌, refl,
}
use record_hub.Identity.Principal.{Principal, PrincipalKind}
use record_hub.Binding.Snapshot.{
  Error, SnapshotRequest, SourceRecord, Snapshot, Deps, create_snapshot,
}
use record_hub.Binding.Snapshot.Laws.{Taken, create_snapshot-Taken}

abbrev find_operation : Text → List Snapshot → Result Error Snapshot
find_operation id [] = err Error.not_found
find_operation id (s ∷ snapshots) =
    if s.operation_id == id then ok s else find_operation id snapshots

abbrev source : SourceRecord
source = record {
  record_ref = codes "bids:bid:7";
  schema_id = codes "bid";
  schema_version = pos 2;
  record_version = pos 5;
  source_version = pos 3;
  data_ = codes "{}";
}

abbrev deps : Deps
deps = record {
  State = List Snapshot;
  find_by_operation = λ tenant workspace id s. find_operation id s;
  create = λ snapshot s. ok (snapshot ∷ s);
  read = λ tenant workspace ref. ok source;
  user_reads = λ p tenant workspace. ok tt;
  machine_allows = λ p request. true;
  is_object = λ text. true;
  canonical = λ text. ok text;
  request_hash = λ r. codes "rh";
  snapshot_hash = λ schema v1 v2 v3 text. ok (codes "sh");
}

abbrev ann : Principal
ann = record {
  kind = PrincipalKind.user;
  issuer = codes "iss";
  subject = codes "ann";
  audience = [];
  email = [];
  email_verified = true;
  name = [];
  preferred_username = [];
  groups = [];
  scopes = [];
}

abbrev request : SnapshotRequest
request = record {
  tenant_id = codes "t";
  workspace_id = codes "w";
  record_ref = codes "bids:bid:7";
  schema_id = codes "bid";
  schema_version = pos 2;
  expected_record_version = pos 5;
  expected_source_version = pos 0;
  purpose = codes "settle";
  operation_id = codes "op1";
}

abbrev taken : Snapshot
taken = record {
  snapshot_id = codes "s1";
  tenant_id = codes "t";
  workspace_id = codes "w";
  operation_id = codes "op1";
  record_ref = codes "bids:bid:7";
  schema_id = codes "bid";
  schema_version = pos 2;
  record_version = pos 5;
  source_version = pos 3;
  purpose = codes "settle";
  snapshot_hash = codes "sh";
  data_ = codes "{}";
  request_hash = codes "rh";
  created_at = pos 9;
}

taken_now :
    create_snapshot deps (some (codes "s1")) (pos 9) ann request [] ≡ ok (taken, false, taken ∷ [])
unfolding create_snapshot record_hub.Binding.Snapshot.normal_request record_hub.Base.Trim.trim_space
    record_hub.Base.ℕ_discrete record_hub.Binding.Reference.parse_record_ref record_hub.Base.split
    record_hub.Binding.Reference.bad_part record_hub.Base.Trim.is_blank
    record_hub.Binding.Snapshot.authorized record_hub.Identity.Principal.PrincipalKind-discrete
    record_hub.Binding.Snapshot.source_of record_hub.Binding.Snapshot.validate_source
    record_hub.Base.Text-discrete record_hub.Binding.Reference.ref_text record_hub.Base.ℤ-discrete
    record_hub.Binding.Snapshot.validate_snapshot
taken_now = refl

create_snapshot-Taken_example : Taken deps ann request [] taken (taken ∷ [])
create_snapshot-Taken_example =
    create_snapshot-Taken deps (some (codes "s1")) (pos 9) ann request [] taken (taken ∷ [])
      taken_now
