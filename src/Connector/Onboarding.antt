-- ===== src/Connector/Onboarding.antt =====
-- server/internal/modules/connector/onboarding.go: OnboardingService with its authorizer, its audit
-- writer and its clock set. A call's surroundings are its two clock readings and whether the writer
-- succeeds; the JSON digest of a record is the parameter `digest`.
pub mod Calls
pub mod Changes
pub mod Laws
pub mod Runs
use record_hub.Base.{
  Text, text_eq, codes, ℤ, int_eq, pos, inc64, Bool, true, false, not, ◌&&◌, ◌||◌, ◌==◌, ◌!=◌, List,
  [], ◌∷◌, ◌++◌, Option, none, some, any, Result, ok, err, ◌>>=◌, ◌>>◌, reject_if, if◌then◌else◌,
  Time,
}
use record_hub.Base.Map.{lookup, insert}
use record_hub.Base.Trim.{trim_space, is_blank}
use record_hub.Base.Decimal.{decimal_ℤ}
use record_hub.Audit
use record_hub.Identity.Principal.{Principal, IdentityKey, identity_eq, identity_key}
use record_hub.Identity.Authorization
use record_hub.Identity.Authorization.{Action, MembershipReader, authorize}
use record_hub.Connector.Names.{Error, hash_pattern, source_commit_pattern}
use record_hub.Connector.Manifest.{
  Status, status_eq, Key, key_eq, Manifest, lowered, normal_key, normal_manifest,
}

pub record OnboardingEvidence : Type 0 where
  pub fixture_digest : Text
  pub redaction_policy_digest : Text
  pub source_commit : Text
  pub compatibility_pass : Bool
  pub fixture_pass : Bool
  pub redaction_pass : Bool
  pub operator_audit : Bool
  pub owner_signoff : Bool
  pub reviewer : Text
  pub approver : Text

pub record OnboardingRecord : Type 0 where
  pub tenant_id : Text
  pub workspace_id : Text
  pub manifest : Manifest
  pub evidence : OnboardingEvidence
  pub submitter : IdentityKey
  pub created_at : Time
  pub updated_at : Time

abbrev pub Records : Type 0
Records = List (Text × OnboardingRecord)

pub record World : Type 0 where
  pub entries : Records
  pub audits : List Audit.Entry

pub record Env : Type 0 where
  pub now : Time
  pub logged_at : Time
  pub audit_runs : Bool

abbrev pub onboarding_key : Text → Text → Key → Text
onboarding_key tenant workspace k =
    tenant
    ++ (0
        ∷ (workspace ++ (0 ∷ (k.connector ++ (0 ∷ (k.event ++ (0 ∷ decimal_ℤ k.schema_version)))))))

abbrev or_value : Text → Text → Text
or_value s fallback = if is_blank s then fallback else s

-- The four operations that move an onboarding record.
pub data Step : Type 0 where
  submit_for_review disable enable : Step
  review : Bool → Step

-- What a transition does to a record before its status moves on, or the error of its check.
abbrev pub Check : Type 0
Check = OnboardingRecord → Result Error OnboardingRecord

abbrev pub to_review : Check
to_review r = reject_if (r.manifest.status != Status.draft) Error.onboarding_state >> ok r

abbrev pub reviewed : Principal → Check
reviewed p r =
    reject_if (r.manifest.status != Status.in_review || r.submitter == identity_key p)
      Error.onboarding_state
    >> ok (record r { evidence = record r.evidence { reviewer = p.subject } })

abbrev pub signed_off : Principal → OnboardingEvidence → OnboardingEvidence
signed_off p e = record e { owner_signoff = true; approver = p.subject }

abbrev pub approved_by : Principal → Check
approved_by p r =
    reject_if
      (r.manifest.status != Status.approved
        || r.submitter == identity_key p
        || r.evidence.reviewer == p.subject
        || not r.evidence.compatibility_pass
        || not r.evidence.fixture_pass
        || not r.evidence.redaction_pass
        || not r.evidence.operator_audit)
      Error.onboarding_evidence
    >> ok (record r { evidence = signed_off p r.evidence })

abbrev pub to_disable : Check
to_disable r = reject_if (r.manifest.status != Status.enabled) Error.onboarding_state >> ok r

abbrev pub advanced : Time → Status → OnboardingRecord → OnboardingRecord
advanced now status r = record r {
  manifest = record r.manifest { status = status; revision = inc64 r.manifest.revision };
  updated_at = now;
}

-- The status that a review ends in.
abbrev pub verdict : Bool → Status
verdict true = Status.approved
verdict false = Status.rejected

-- `"connector.onboarding." + strings.ToLower(string(status))`
audit_action : Status → Text
audit_action Status.in_review = codes "connector.onboarding.in_review"
audit_action Status.approved = codes "connector.onboarding.approved"
audit_action Status.rejected = codes "connector.onboarding.rejected"
audit_action Status.enabled = codes "connector.onboarding.enabled"
audit_action _ = codes "connector.onboarding.disabled"

module _ (lower_unicode : Text → Text) (digest : OnboardingRecord → Text)
    (memberships : MembershipReader) where
  unfoldable pub validate_manifest : Manifest → OnboardingEvidence → Result Error Manifest
  validate_manifest m e = do
    reject_if (m.status != Status.other [] && m.status != Status.draft) Error.invalid_manifest
    reject_if (m.revision != pos 0) Error.invalid_manifest
    let fixture = or_value e.fixture_digest m.fixture_digest
    let redaction = or_value e.redaction_policy_digest m.redaction_policy_digest
    let commit = or_value e.source_commit m.source_commit
    reject_if (any (λ d. not (hash_pattern (lowered lower_unicode d))) (fixture ∷ redaction ∷ []))
        Error.invalid_manifest
    reject_if (not (source_commit_pattern (lowered lower_unicode commit))) Error.invalid_manifest
    n ← normal_manifest lower_unicode m
    ok (record n {
      fixture_digest = lowered lower_unicode fixture;
      redaction_policy_digest = lowered lower_unicode redaction;
      source_commit = lowered lower_unicode commit;
      status = Status.draft;
      revision = pos 1;
    })

  -- `service.authorize`
  unfoldable pub permitted : Principal → Text → Text → Action → Result Error (Unit {0})
  permitted p tenant workspace action =
      if is_blank tenant || is_blank workspace
      then err Error.forbidden
      else elim (authorize (some memberships) p tenant workspace action) [
        | ok m ↦ ok tt
        | err Authorization.Error.unauthenticated ↦ err Error.unauthenticated
        | err Authorization.Error.forbidden ↦ err Error.forbidden
      ]

  audit_entry : Env → Principal → OnboardingRecord → Text → Audit.Entry
  audit_entry env p r action = record {
    tenant_id = r.tenant_id;
    workspace_id = r.workspace_id;
    action = action;
    actor = identity_key p;
    resource_type = codes "connector_manifest";
    resource_id = onboarding_key r.tenant_id r.workspace_id r.manifest.key;
    resource_version = r.manifest.revision;
    request_id = [];
    idempotency_key = [];
    before_hash = [];
    after_hash = codes "sha256:" ++ digest r;
    view_id = [];
    field_set = [];
    redacted_fields = [];
    created_at = env.logged_at;
  }

  abbrev pub Outcome : Type 0
  Outcome = Result Error OnboardingRecord × World

  -- The record is kept whether or not its audit is written.
  unfoldable pub stored : Env → Principal → Text → Text → OnboardingRecord → World → Outcome
  unfolding audit_entry
  stored env p key action r w =
      let entries = insert key r w.entries in
      if env.audit_runs
      then (ok r, record { entries = entries; audits = audit_entry env p r action ∷ w.audits })
      else (err Error.audit_failed, record { entries = entries; audits = w.audits })

  abbrev pub submitted :
      Env → Principal → Text → Text → OnboardingEvidence → Manifest → OnboardingRecord
  submitted env p tenant workspace e m = record {
    tenant_id = trim_space tenant;
    workspace_id = trim_space workspace;
    manifest = m;
    evidence = e;
    submitter = identity_key p;
    created_at = env.now;
    updated_at = env.now;
  }

  -- The record that Submit stores and its key, or the error.
  unfoldable pub admitted :
      Env
      → Principal
      → Text
      → Text
      → Manifest
      → OnboardingEvidence
      → World
      → Result Error (Text × OnboardingRecord)
  admitted env p tenant workspace raw e w = do
    permitted p tenant workspace Action.connector_onboard
    m ← validate_manifest raw e
    elim (lookup (onboarding_key tenant workspace m.key) w.entries) [
      | some _ ↦ err Error.onboarding_exists
      | none ↦ ok (onboarding_key tenant workspace m.key, submitted env p tenant workspace e m)
    ]

  abbrev pub finished :
      Env → Principal → Text → Result Error (Text × OnboardingRecord) → World → Outcome
  finished env p action (err x) w = (err x, w)
  finished env p action (ok (key, r)) w = stored env p key action r w

  unfoldable pub submit :
      Env → Principal → Text → Text → Manifest → OnboardingEvidence → World → Outcome
  unfolding stored
  submit env p tenant workspace raw e w =
      finished env p (codes "connector.onboarding.submit") (admitted env p tenant workspace raw e w)
        w

  -- The record that a transition stores and its key, or the error.
  unfoldable pub next_record :
      Env
      → Principal
      → Text
      → Text
      → Key
      → ℤ
      → Status
      → Action
      → Check
      → World
      → Result Error (Text × OnboardingRecord)
  next_record env p tenant workspace key expected status action check w = do
    permitted p tenant workspace action
    k ← normal_key lower_unicode key
    elim (lookup (onboarding_key tenant workspace k) w.entries) [
      | none ↦ err Error.onboarding_not_found
      | some r ↦ do
        reject_if (r.manifest.revision != expected) Error.revision_conflict
        r' ← check r
        ok (onboarding_key tenant workspace k, advanced env.now status r')
    ]

  unfoldable pub transition :
      Env → Principal → Text → Text → Key → ℤ → Status → Action → Check → World → Outcome
  unfolding stored audit_action
  transition env p tenant workspace key expected status action check w =
      finished env p (audit_action status)
        (next_record env p tenant workspace key expected status action check w) w

  unfoldable pub take_step : Env → Principal → Text → Text → Key → ℤ → Step → World → Outcome
  unfolding transition
  take_step env p tenant workspace key expected Step.submit_for_review w =
      transition env p tenant workspace key expected Status.in_review Action.connector_onboard
        to_review w
  take_step env p tenant workspace key expected (Step.review approved) w =
      transition env p tenant workspace key expected (verdict approved) Action.connector_review
        (reviewed p) w
  take_step env p tenant workspace key expected Step.enable w =
      transition env p tenant workspace key expected Status.enabled Action.connector_approve
        (approved_by p) w
  take_step env p tenant workspace key expected Step.disable w =
      transition env p tenant workspace key expected Status.disabled Action.connector_approve
        to_disable w
