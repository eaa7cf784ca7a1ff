-- ===== src/Binding/Snapshot.antt =====
-- server/internal/modules/binding: SnapshotRequest.normalized and Snapshot.Validate (model.go), and
-- Service.CreateSnapshot (service.go). The record reader, the snapshot store, the two authorizers,
-- JSON and the hashes are the fields of `Deps`; a nil dependency is not modelled.
pub mod Get
pub mod Laws
mod Tests
use record_hub.Base.{
  ℕ, Text, text_eq, codes, is_empty, contains_any, Bool, true, false, not, ◌&&◌, ◌||◌, ◌==◌, ◌!=◌,
  List, [], ◌∷◌, any, length, Option, none, some, Result, ok, err, ◌>>=◌, ◌>>◌, reject_if,
  if◌then◌else◌, ltb, ℤ, pos, int_eq, ltb_ℤ, Time, is_zero, ◌≡◌, refl, arith, >>=-eq-ok,
  Option-cases, Result-cases, inl, inr, ◌⊎◌,
}
use record_hub.Base.Trim.{trim_space, is_blank}
use record_hub.Identity.Principal.{Principal, PrincipalKind, kind_eq}
use record_hub.Binding.Reference.{RecordRef, parse_record_ref, ref_text}
use record_hub.Binding.Policy.{BindingAuthorization}

pub data Error : Type 0 where
  invalid_snapshot invalid_request not_found exists key_required idempotency_conflict : Error
  record_not_found record_version_conflict source_version_conflict schema_mismatch : Error
  policy_denied invalid_reference unauthenticated forbidden unknown : Error

pub record SnapshotRequest : Type 0 where
  pub tenant_id : Text
  pub workspace_id : Text
  pub record_ref : Text
  pub schema_id : Text
  pub schema_version : ℤ
  pub expected_record_version : ℤ
  pub expected_source_version : ℤ
  pub purpose : Text
  pub operation_id : Text

pub record SourceRecord : Type 0 where
  pub record_ref : Text
  pub schema_id : Text
  pub schema_version : ℤ
  pub record_version : ℤ
  pub source_version : ℤ
  pub data_ : Text

pub record Snapshot : Type 0 where
  pub snapshot_id : Text
  pub tenant_id : Text
  pub workspace_id : Text
  pub operation_id : Text
  pub record_ref : Text
  pub schema_id : Text
  pub schema_version : ℤ
  pub record_version : ℤ
  pub source_version : ℤ
  pub purpose : Text
  pub snapshot_hash : Text
  pub data_ : Text
  pub request_hash : Text
  pub created_at : Time

abbrev trimmed : SnapshotRequest → SnapshotRequest
trimmed r = record r {
  tenant_id = trim_space r.tenant_id;
  workspace_id = trim_space r.workspace_id;
  record_ref = trim_space r.record_ref;
  schema_id = trim_space r.schema_id;
  purpose = trim_space r.purpose;
  operation_id = trim_space r.operation_id;
}

-- One round of the loop over the named values.
abbrev bad_value : Text × ℕ → Bool
bad_value (value, max) = ltb max (length value) || contains_any value (codes "\t\r\n")

abbrev no_reference : Option RecordRef → Bool
no_reference none = true
no_reference (some r) = false

-- `SnapshotRequest.normalized`
unfoldable pub normal_request : SnapshotRequest → Result Error SnapshotRequest
normal_request raw = do
  let r = trimmed raw
  reject_if
      (any is_empty (r.tenant_id ∷ r.workspace_id ∷ r.record_ref ∷ r.schema_id ∷ r.purpose ∷ []))
      Error.invalid_request
  reject_if (is_empty r.operation_id) Error.key_required
  reject_if
      (any bad_value (
        (r.tenant_id, 256)
        ∷ (r.workspace_id, 256)
        ∷ (r.schema_id, 256)
        ∷ (r.purpose, 128)
        ∷ (r.operation_id, 256)
        ∷ []))
      Error.invalid_request
  reject_if (ltb 512 (length r.record_ref)) Error.invalid_request
  reject_if
      (ltb_ℤ r.schema_version (pos 1)
        || ltb_ℤ r.expected_record_version (pos 1)
        || ltb_ℤ r.expected_source_version (pos 0))
      Error.invalid_request
  reject_if (no_reference (parse_record_ref r.record_ref)) Error.invalid_request
  ok r

-- `is_object` tells whether a text is one JSON object and nothing more.
unfoldable pub validate_snapshot : (Text → Bool) → Snapshot → Result Error (Unit {0})
validate_snapshot is_object s = do
  reject_if
      (any is_blank (
          s.snapshot_id ∷ s.tenant_id ∷ s.workspace_id ∷ s.operation_id ∷ s.record_ref ∷ s.schema_id
          ∷ s.purpose ∷ s.snapshot_hash ∷ s.request_hash ∷ [])
        || ltb_ℤ s.schema_version (pos 1)
        || ltb_ℤ s.record_version (pos 1)
        || ltb_ℤ s.source_version (pos 0)
        || is_zero s.created_at
        || is_empty s.data_)
      Error.invalid_snapshot
  reject_if (no_reference (parse_record_ref s.record_ref)) Error.invalid_reference
  reject_if
      (ltb 128 (length s.purpose)
        || ltb 256 (length s.operation_id)
        || ltb 256 (length s.tenant_id)
        || ltb 256 (length s.workspace_id)
        || ltb 256 (length s.schema_id))
      Error.invalid_snapshot
  reject_if (not (is_object s.data_)) Error.invalid_snapshot

-- `parsed.String() != record.RecordRef`, or no reference at all.
abbrev loose_reference : Text → Option RecordRef → Bool
loose_reference raw none = true
loose_reference raw (some r) = ref_text r != raw

unfoldable pub validate_source : (Text → Bool) → SourceRecord → Result Error (Unit {0})
validate_source is_object r = do
  reject_if
      (is_blank r.record_ref
        || is_blank r.schema_id
        || ltb_ℤ r.schema_version (pos 1)
        || ltb_ℤ r.record_version (pos 1)
        || ltb_ℤ r.source_version (pos 0)
        || is_empty r.data_)
      Error.record_not_found
  reject_if (loose_reference r.record_ref (parse_record_ref r.record_ref)) Error.invalid_reference
  reject_if (not (is_object r.data_)) Error.invalid_snapshot

pub record Deps : Type 1 where
  pub State : Type 0
  pub find_by_operation : Text → Text → Text → State → Result Error Snapshot
  pub create : Snapshot → State → Result Error State
  pub read : Text → Text → Text → Result Error SourceRecord
  pub user_reads : Principal → Text → Text → Result Error (Unit {0})
  pub machine_allows : Principal → BindingAuthorization → Bool
  pub is_object : Text → Bool
  pub canonical : Text → Result Error Text
  pub request_hash : SnapshotRequest → Text
  pub snapshot_hash : Text → ℤ → ℤ → ℤ → Text → Result Error Text

module _ (d : Deps) where
  abbrev pub Outcome : Type 0
  Outcome = Result Error (Snapshot × Bool × d.State)

  -- `requirePrincipal` and the authorization of a user or a machine.
  unfoldable pub authorized : Principal → SnapshotRequest → Result Error (Unit {0})
  authorized p r = do
    reject_if
        ((p.kind != PrincipalKind.user && p.kind != PrincipalKind.service)
          || is_empty p.issuer
          || is_empty p.subject)
        Error.unauthenticated
    elim (parse_record_ref r.record_ref) [
      | none ↦ err Error.invalid_request
      | some ref ↦
          if p.kind == PrincipalKind.user
          then d.user_reads p r.tenant_id r.workspace_id
          else reject_if
              (not (
                d.machine_allows p (record {
                  tenant_id = r.tenant_id;
                  workspace_id = r.workspace_id;
                  purpose = r.purpose;
                  record_ref = r.record_ref;
                  resource_system = ref.system;
                  resource_type = ref.type;
                })))
              Error.policy_denied
    ]

  -- The record that the request asks for, at the versions it expects.
  unfoldable pub source_of : SnapshotRequest → Result Error SourceRecord
  source_of r = do
    record' ← d.read r.tenant_id r.workspace_id r.record_ref
    validate_source d.is_object record'
    reject_if (record'.record_ref != r.record_ref) Error.record_not_found
    reject_if (record'.schema_id != r.schema_id || record'.schema_version != r.schema_version)
        Error.schema_mismatch
    reject_if (record'.record_version != r.expected_record_version) Error.record_version_conflict
    reject_if
        (ltb_ℤ (pos 0) r.expected_source_version
          && record'.source_version != r.expected_source_version)
        Error.source_version_conflict
    ok record'

  -- The answer to an operation that is there.
  abbrev pub replayed : SnapshotRequest → Snapshot → d.State → Outcome
  replayed r existing s =
      if existing.request_hash != d.request_hash r
      then err Error.idempotency_conflict
      else ok (existing, true, s)

  -- What follows Create.
  abbrev pub stored : SnapshotRequest → Snapshot → d.State → Result Error d.State → Outcome
  stored r snapshot s (ok s') = ok (snapshot, false, s')
  stored r snapshot s (err Error.exists) =
      d.find_by_operation r.tenant_id r.workspace_id r.operation_id s >>= λ existing.
      replayed r existing s
  stored r snapshot s (err e) = err e

  unfoldable pub fresh : Option Text → Time → SnapshotRequest → d.State → Outcome
  fresh new_id now r s = do
    source ← source_of r
    canonical ← d.canonical source.data_
    hash ←
        d.snapshot_hash r.schema_id r.schema_version source.record_version source.source_version
          canonical
    elim new_id [
      | none ↦ err Error.unknown
      | some id ↦ do
        let snapshot : Snapshot = record {
          snapshot_id = id;
          tenant_id = r.tenant_id;
          workspace_id = r.workspace_id;
          operation_id = r.operation_id;
          record_ref = r.record_ref;
          schema_id = r.schema_id;
          schema_version = r.schema_version;
          record_version = source.record_version;
          source_version = source.source_version;
          purpose = r.purpose;
          snapshot_hash = hash;
          data_ = canonical;
          request_hash = d.request_hash r;
          created_at = now;
        }
        validate_snapshot d.is_object snapshot
        stored r snapshot s (d.create snapshot s)
    ]

  -- What follows FindByOperation.
  abbrev pub found :
      Option Text → Time → SnapshotRequest → d.State → Result Error Snapshot → Outcome
  found new_id now r s (ok existing) = replayed r existing s
  found new_id now r s (err Error.not_found) = fresh new_id now r s
  found new_id now r s (err e) = err e

  -- `CreateSnapshot`: the snapshot, and whether it was there before.
  unfoldable pub create_snapshot :
      Option Text → Time → Principal → SnapshotRequest → d.State → Outcome
  unfolding fresh
  create_snapshot new_id now p raw s = do
    r ← normal_request raw
    authorized p r
    found new_id now r s (d.find_by_operation r.tenant_id r.workspace_id r.operation_id s)
