-- ===== src/Binding/Snapshot/Get.antt =====
-- server/internal/modules/binding/service.go: Service.GetSnapshot, with the Get of the snapshot store as
-- an argument.
use record_hub.Base.{
  Text, text_eq, is_empty, true, not, ◌&&◌, ◌||◌, ◌==◌, ◌!=◌, Option, none, some, Result, ok, err,
  ◌>>=◌, ◌>>◌, reject_if, if◌then◌else◌, ◌≡◌, refl, arith, >>=-eq-ok,
}
use mathlib.Core.Path.{subst}
use record_hub.Base.Trim.{trim_space, is_blank}
use record_hub.Identity.Principal.{Principal, PrincipalKind, kind_eq}
use record_hub.Binding.Reference.{RecordRef, parse_record_ref}
use record_hub.Binding.Policy.{BindingAuthorization}
use record_hub.Binding.Snapshot.{Error, Snapshot, validate_snapshot, Deps}

-- `requirePrincipal`
unfoldable pub require_principal : Principal → Result Error (Unit {0})
require_principal p =
    reject_if
      ((p.kind != PrincipalKind.user && p.kind != PrincipalKind.service)
        || is_empty p.issuer
        || is_empty p.subject)
      Error.unauthenticated

-- What a machine's policy is asked for a snapshot.
abbrev pub authorization_of : Snapshot → RecordRef → BindingAuthorization
authorization_of s ref = record {
  tenant_id = s.tenant_id;
  workspace_id = s.workspace_id;
  purpose = s.purpose;
  record_ref = s.record_ref;
  resource_system = ref.system;
  resource_type = ref.type;
}

module _ (d : Deps) where
  abbrev pub machine_reads : Principal → Snapshot → Option RecordRef → Result Error (Unit {0})
  machine_reads p s none = err Error.invalid_snapshot
  machine_reads p s (some ref) =
      reject_if (not (d.machine_allows p (authorization_of s ref))) Error.policy_denied

  abbrev user_allowed : Principal → Text → Text → Result Error (Unit {0})
  user_allowed p tenant workspace =
      if p.kind == PrincipalKind.user then d.user_reads p tenant workspace else ok tt

  abbrev machine_allowed : Principal → Snapshot → Result Error (Unit {0})
  machine_allowed p s =
      if p.kind == PrincipalKind.service
      then machine_reads p s (parse_record_ref s.record_ref)
      else ok tt

  -- What follows Get.
  abbrev pub checked : Principal → Snapshot → Result Error Snapshot
  checked p s = do validate_snapshot d.is_object s; machine_allowed p s; ok s

  unfoldable pub get_snapshot :
      (Text → Text → Text → Result Error Snapshot)
      → Principal
      → Text
      → Text
      → Text
      → Result Error Snapshot
  get_snapshot get p tenant workspace id = do
    reject_if (is_blank tenant || is_blank workspace || is_blank id) Error.invalid_request
    require_principal p
    user_allowed p (trim_space tenant) (trim_space workspace)
    snapshot ← get (trim_space tenant) (trim_space workspace) (trim_space id)
    checked p snapshot

  machine_reads-allowed :
      (p : Principal) (s : Snapshot) (ref : Option RecordRef)
      → machine_reads p s ref ≡ ok tt
      → (r : RecordRef) × (ref ≡ some r) × (d.machine_allows p (authorization_of s r) ≡ true)
  machine_reads-allowed p s none h = absurd (ground arith)
  machine_reads-allowed p s (some r) h = (r, refl, ground arith)

  -- The snapshot is valid, and the policies allow its tenant, workspace, purpose and record.
  abbrev pub IsAllowed : Principal → Snapshot → Type 0
  IsAllowed p s =
      (validate_snapshot d.is_object s ≡ ok tt)
      × (r : RecordRef) × (parse_record_ref s.record_ref ≡ some r)
      × (d.machine_allows p (authorization_of s r) ≡ true)

  -- A service gets a stored snapshot only if it is valid and the policies allow the service the
  -- tenant, workspace, purpose and record of that snapshot.
  get_snapshot-Allowed :
      (get : Text → Text → Text → Result Error Snapshot) (p : Principal)
      (tenant workspace id : Text) (s : Snapshot)
      → get_snapshot get p tenant workspace id ≡ ok s
      → p.kind ≡ PrincipalKind.service
      → IsAllowed p s
  unfolding get_snapshot
  get_snapshot-Allowed get p tenant workspace id s h service =
      let (u1, given, h1) =
        >>=-eq-ok
          (reject_if (is_blank tenant || is_blank workspace || is_blank id) Error.invalid_request) _
          h in
      let (u2, known, h2) = >>=-eq-ok (require_principal p) _ h1 in
      let (u3, reads, h3) =
        >>=-eq-ok (user_allowed p (trim_space tenant) (trim_space workspace)) _ h2 in
      let (found, got, h4) =
        >>=-eq-ok (get (trim_space tenant) (trim_space workspace) (trim_space id)) _ h3 in
      let (u5, valid, h5) = >>=-eq-ok (validate_snapshot d.is_object found) _ h4 in
      let (u6, allowed, h6) = >>=-eq-ok (machine_allowed p found) _ h5 in
      let same : found ≡ s = ground arith in
      let machine : machine_reads p found (parse_record_ref found.record_ref) ≡ ok tt =
        ground arith in
      let (ref, parsed, may) =
        machine_reads-allowed p found (parse_record_ref found.record_ref) machine in
      subst (λ x. IsAllowed p x) same (valid, ref, parsed, may)
