-- ===== src/Identity/Tests.antt =====
-- Authorization and rotation on concrete values.
use record_hub.Base.{
  Text, text_eq, codes, ◌++◌, Bool, true, false, List, [], ◌∷◌, Option, none, some, Result, ok, err,
  ℤ, pos, Time, ◌≡◌, ◌≢◌, ◌↔◌, refl, arith,
}
use record_hub.Base.Map.{lookup}
use record_hub.Base.Trim.{is_blank}
use record_hub.Identity.Principal.{Principal, PrincipalKind}
use record_hub.Identity.Authorization.{
  Role, Action, MembershipStatus, MembershipReader, WorkspaceMembership, authorize,
}
use record_hub.Identity.Authorization.Laws.{IsGranted, authorize_exact}
use record_hub.Identity.Rotation.{
  PrincipalState, WorkloadScope, Rotation, CreateRequest, MemoryAudit, Service, validate_create,
  initial, audit_entry,
}
use record_hub.Identity.Rotation.Laws.{IsSound}
use record_hub.Identity.Rotation.Traces.{Call, method, run, run-IsSound}
use record_hub.Identity.Rotation.Final.{Ended, run-Ended}
use record_hub.Identity.Rotation.Audit.{Trail, method-Trail}
use record_hub.Identity.Rotation.Handover.{handover_calls, handed_over, handover_completes}

abbrev ann : Principal
ann = record {
  kind = PrincipalKind.user;
  issuer = codes "iss";
  subject = codes "ann";
  audience = [];
  email = [];
  email_verified = true;
  name = [];
  preferred_username = [];
  groups = [];
  scopes = [];
}

abbrev membership : WorkspaceMembership
membership = record {
  tenant_id = codes "t";
  workspace_id = codes "w";
  identity = record { issuer = codes "iss"; subject = codes "ann" };
  role = Role.editor;
  status = MembershipStatus.active;
}

abbrev members : MembershipReader
members identity tenant workspace = some membership

authorize_exact_example :
    (authorize (some members) ann (codes "t") (codes "w") Action.record_write ≡ ok membership)
    ↔ IsGranted members ann (codes "t") (codes "w") Action.record_write membership
authorize_exact_example =
    authorize_exact members ann (codes "t") (codes "w") Action.record_write membership

abbrev old_hash : Text
old_hash = codes "sha256:aaaaaaaaaaaaaaaaaaaaaaaaaaaaaaaaaaaaaaaaaaaaaaaaaaaaaaaaaaaaaaaa"

abbrev new_hash : Text
new_hash = codes "sha256:bbbbbbbbbbbbbbbbbbbbbbbbbbbbbbbbbbbbbbbbbbbbbbbbbbbbbbbbbbbbbbbb"

abbrev candidate : CreateRequest
candidate = record {
  owner = codes "bids";
  scope = record {
    tenant_id = codes "t";
    workspace_id = codes "w";
    owner_system = codes "bids";
    resource_type = codes "bid";
  };
  audience = codes "hub";
  old_principal_hash = old_hash;
  new_principal_hash = new_hash;
  actor = codes "ann";
  reason = codes "rotate";
}

abbrev writer : MemoryAudit
writer = record { entries = []; failing = false }

abbrev fresh : Service
fresh = record { values = []; audit = some writer }

fresh-IsSound : IsSound fresh
unfolding lookup
fresh-IsSound = record { each = λ k r h. absurd (ground arith) }

run-IsSound_example : IsSound (run (handover_calls (pos 1) candidate) fresh)
run-IsSound_example = run-IsSound (handover_calls (pos 1) candidate) fresh fresh-IsSound

candidate_valid : validate_create candidate ≡ ok tt
unfolding validate_create record_hub.Base.Text-discrete record_hub.Base.Trim.trim_space
    record_hub.Identity.Rotation.valid_scope is_blank
    record_hub.Identity.Rotation.valid_principal_hash
candidate_valid = refl

owner_named : is_blank (codes "bids") ≡ false
unfolding is_blank record_hub.Base.ℕ_discrete
owner_named = refl

fresh_owner : lookup (codes "bids") fresh.values ≡ none
unfolding lookup
fresh_owner = refl

handover_completes_example :
    lookup (codes "bids") (run (handover_calls (pos 1) candidate) fresh).values
    ≡ some (handed_over candidate (pos 1))
handover_completes_example =
    handover_completes (pos 1) candidate fresh writer candidate_valid owner_named refl refl
      fresh_owner

abbrev revoked : Service
revoked = record {
  values = (codes "bids", handed_over candidate (pos 1)) ∷ [];
  audit = some writer;
}

revoked_found : lookup (codes "bids") revoked.values ≡ some (handed_over candidate (pos 1))
unfolding lookup record_hub.Base.Text-discrete
revoked_found = refl

run-Ended_example : Ended (codes "bids") (handed_over candidate (pos 1)) (
    run
      ((pos 2, Call.create candidate)
        ∷ (pos 3, Call.emergency (codes "bids") (codes "ann") (codes "again"))
        ∷ (pos 4, Call.in_flight (codes "bids") (pos 3))
        ∷ [])
      revoked)
run-Ended_example =
    run-Ended
      ((pos 2, Call.create candidate)
        ∷ (pos 3, Call.emergency (codes "bids") (codes "ann") (codes "again"))
        ∷ (pos 4, Call.in_flight (codes "bids") (pos 3))
        ∷ [])
      revoked (codes "bids") (handed_over candidate (pos 1)) revoked_found refl

abbrev created : Service
created = record {
  values = (codes "bids", initial candidate (pos 1)) ∷ [];
  audit = some (record writer {
    entries =
        audit_entry (initial candidate (pos 1)) (codes "CREATE_CANDIDATE") (codes "ann")
          (codes "rotate")
        ∷ [];
  });
}

create_runs : method (pos 1) (Call.create candidate) fresh ≡ ok (initial candidate (pos 1), created)
unfolding method record_hub.Identity.Rotation.create_candidate validate_create
    record_hub.Base.Text-discrete record_hub.Base.Trim.trim_space
    record_hub.Identity.Rotation.valid_scope is_blank
    record_hub.Identity.Rotation.valid_principal_hash lookup record_hub.Base.Map.insert
create_runs = refl

method-Trail_example : Trail (Call.create candidate) fresh (initial candidate (pos 1), created)
method-Trail_example =
    method-Trail (pos 1) (Call.create candidate) fresh (initial candidate (pos 1)) created
      create_runs
