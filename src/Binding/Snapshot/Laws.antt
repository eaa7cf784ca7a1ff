-- ===== src/Binding/Snapshot/Laws.antt =====
-- A new snapshot is of the record versions that were asked for.
use record_hub.Base.{
  Text, text_eq, false, ◌&&◌, ◌||◌, ◌!=◌, Option, Result, ok, err, reject_if, pos, int_eq, ltb_ℤ,
  ◌<ℤ◌, Time, ◌≡◌, refl, arith, >>=-eq-ok, Option-cases, inl, inr,
}
use mathlib.Core.Path.{subst}
use record_hub.Identity.Principal.{Principal}
use record_hub.Binding.Snapshot.{
  Error, SnapshotRequest, SourceRecord, Snapshot, Deps, normal_request, validate_source,
  validate_snapshot, authorized, source_of, stored, fresh, found, create_snapshot,
}

module _ (d : Deps) where
  -- The source has the schema and the versions of the request.
  abbrev pub Matches : SnapshotRequest → SourceRecord → Type 0
  Matches r source =
      (d.read r.tenant_id r.workspace_id r.record_ref ≡ ok source)
      × (source.record_ref ≡ r.record_ref)
      × (source.schema_id ≡ r.schema_id)
      × (source.schema_version ≡ r.schema_version)
      × (source.record_version ≡ r.expected_record_version)
      × (pos 0 <ℤ r.expected_source_version → source.source_version ≡ r.expected_source_version)

  source_of-Matches :
      (r : SnapshotRequest) (source : SourceRecord) → source_of d r ≡ ok source → Matches r source
  unfolding source_of
  source_of-Matches r source h =
      let (c, read, rest) = >>=-eq-ok (d.read r.tenant_id r.workspace_id r.record_ref) _ h in
      let (u, valid, rest) = >>=-eq-ok (validate_source d.is_object c) _ rest in
      let (u, same_ref, rest) =
        >>=-eq-ok (reject_if (c.record_ref != r.record_ref) Error.record_not_found) _ rest in
      let (u, same_schema, rest) =
        >>=-eq-ok
          (reject_if (c.schema_id != r.schema_id || c.schema_version != r.schema_version)
            Error.schema_mismatch)
          _ rest in
      let (u, same_version, rest) =
        >>=-eq-ok
          (reject_if (c.record_version != r.expected_record_version) Error.record_version_conflict)
          _ rest in
      let (u, same_source, last) =
        >>=-eq-ok
          (reject_if
            (ltb_ℤ (pos 0) r.expected_source_version
              && c.source_version != r.expected_source_version)
            Error.source_version_conflict)
          _ rest in
      let e : c ≡ source = cc in
      let facts : Matches r c =
        (read, ground arith, ground arith, ground arith, ground arith, λ positive. ground arith) in
      subst (Matches r) e facts

  -- What a new snapshot is.
  pub record Taken (p : Principal) (raw : SnapshotRequest) (s : d.State) (snapshot : Snapshot)
      (s' : d.State) : Type 0 where
    pub request : SnapshotRequest
    pub normal : normal_request raw ≡ ok request
    pub allowed : authorized d p request ≡ ok tt
    pub unknown :
        d.find_by_operation request.tenant_id request.workspace_id request.operation_id s
        ≡ err Error.not_found
    pub source : SourceRecord
    pub current : Matches request source
    pub versions :
        (snapshot.schema_version ≡ request.schema_version)
        × (snapshot.record_version ≡ request.expected_record_version)
        × (snapshot.source_version ≡ source.source_version)
    pub content : d.canonical source.data_ ≡ ok snapshot.data_
    pub valid : validate_snapshot d.is_object snapshot ≡ ok tt
    pub kept : d.create snapshot s ≡ ok s'

  stored-fresh :
      (r : SnapshotRequest) (snapshot q : Snapshot) (s s' : d.State) (x : Result Error d.State)
      → stored d r snapshot s x ≡ ok (q, false, s')
      → (x ≡ ok s') × (snapshot ≡ q)
  stored-fresh r snapshot q s s' (ok t) h = (ground arith, ground arith)
  stored-fresh r snapshot q s s' (err Error.exists) h =
      let (existing, there, rest) =
        >>=-eq-ok (d.find_by_operation r.tenant_id r.workspace_id r.operation_id s) _ h in
      absurd (ground (arith, rest))
  stored-fresh r snapshot q s s' (err x) h = absurd (ground arith)

  fresh-Taken :
      (new_id : Option Text) (now : Time) (p : Principal) (raw r : SnapshotRequest) (s : d.State)
      (q : Snapshot) (s' : d.State)
      → normal_request raw ≡ ok r
      → authorized d p r ≡ ok tt
      → d.find_by_operation r.tenant_id r.workspace_id r.operation_id s ≡ err Error.not_found
      → fresh d new_id now r s ≡ ok (q, false, s')
      → Taken p raw s q s'
  unfolding fresh
  fresh-Taken new_id now p raw r s q s' normal allowed unknown h =
      let (source, found, rest) = >>=-eq-ok (source_of d r) _ h in
      let m = source_of-Matches r source found in
      let (canonical, content, rest) = >>=-eq-ok (d.canonical source.data_) _ rest in
      let (hash, hashed, rest) =
        >>=-eq-ok
          (d.snapshot_hash r.schema_id r.schema_version source.record_version source.source_version
            canonical)
          _ rest in
      elim (Option-cases new_id) [
        | inl nothing ↦ absurd (ground (arith, rest))
        | inr (id, e) ↦
            let (u, valid, last) = >>=-eq-ok (validate_snapshot d.is_object _) _ (rw e at rest) in
            let (kept, same) = stored-fresh r _ q s s' _ last in
            record {
              request = r;
              normal = normal;
              allowed = allowed;
              unknown = unknown;
              source = source;
              current = m;
              versions = (ground (arith, same), ground (arith, same, m), ground (arith, same));
              content = ground (arith, same, content);
              valid = subst (λ x. validate_snapshot d.is_object x ≡ ok tt) same valid;
              kept = subst (λ x. d.create x s ≡ ok s') same kept;
            }
      ]

  found-Taken :
      (new_id : Option Text) (now : Time) (p : Principal) (raw r : SnapshotRequest) (s : d.State)
      (q : Snapshot) (s' : d.State)
      → normal_request raw ≡ ok r
      → authorized d p r ≡ ok tt
      → (x : Result Error Snapshot)
      → d.find_by_operation r.tenant_id r.workspace_id r.operation_id s ≡ x
      → found d new_id now r s x ≡ ok (q, false, s')
      → Taken p raw s q s'
  found-Taken new_id now p raw r s q s' normal allowed (ok existing) e h = absurd (ground arith)
  found-Taken new_id now p raw r s q s' normal allowed (err Error.not_found) e h =
      fresh-Taken new_id now p raw r s q s' normal allowed e h
  found-Taken new_id now p raw r s q s' normal allowed (err x) e h = absurd (ground arith)

  -- A snapshot that CreateSnapshot takes anew, over any store and any reader: the request is well
  -- formed, the principal is authorized, no snapshot was there for the operation, and the snapshot,
  -- which is valid and was created in the store, has the canonical data of the source record at
  -- exactly the schema version and the record version that were expected, and at the source version,
  -- if one was expected.
  pub create_snapshot-Taken :
      (new_id : Option Text) (now : Time) (p : Principal) (raw : SnapshotRequest) (s : d.State)
      (q : Snapshot) (s' : d.State)
      → create_snapshot d new_id now p raw s ≡ ok (q, false, s')
      → Taken p raw s q s'
  unfolding create_snapshot
  create_snapshot-Taken new_id now p raw s q s' h =
      let (r, normal, rest) = >>=-eq-ok (normal_request raw) _ h in
      let (u, allowed, rest) = >>=-eq-ok (authorized d p r) _ rest in
      found-Taken new_id now p raw r s q s' normal allowed
        (d.find_by_operation r.tenant_id r.workspace_id r.operation_id s) refl rest
