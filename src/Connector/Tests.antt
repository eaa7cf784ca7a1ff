-- ===== src/Connector/Tests.antt =====
-- The connector registry and its onboarding on concrete manifests.
use record_hub.Base.{
  ◌⊎◌, inc64, Text, text_eq, codes, ◌++◌, Bool, true, false, List, [], ◌∷◌, Option, none, some,
  Result, ok, err, ℤ, pos, Time, ◌≡◌, ◌↔◌, refl, arith, inr, inl, if◌then◌else◌, ◌==◌,
}
use record_hub.Base.Map.{lookup}
use record_hub.Identity.Principal.{Principal, PrincipalKind}
use record_hub.Identity.Authorization.{Role, MembershipStatus, MembershipReader}
use record_hub.Connector.Manifest.{Status, Key, key_eq, Manifest, normal_key}
use record_hub.Connector.Registry.{Registered, resolve, transition}
use record_hub.Connector.Registry.Laws.{Resolves, resolve_exact, transition_checked}
use record_hub.Connector.Onboarding.{OnboardingRecord, OnboardingEvidence, Env, Step, World}
use record_hub.Connector.Onboarding.Laws.{IsSound}
use record_hub.Connector.Onboarding.Calls.{Call, run, deeds}
use record_hub.Connector.Onboarding.Runs.{run_separates_duties, run_keeps_final}

abbrev plain : Text → Text
plain s = s

abbrev key : Key
key = record { connector = codes "bids"; event = codes "bid.closed"; schema_version = pos 1 }

abbrev digest_a : Text
digest_a = codes "sha256:aaaaaaaaaaaaaaaaaaaaaaaaaaaaaaaaaaaaaaaaaaaaaaaaaaaaaaaaaaaaaaaa"

abbrev manifest : Manifest
manifest = record {
  key = key;
  owner_system = codes "bids";
  sdk_version = codes "1.2.3";
  compatibility_min = codes "1.0.0";
  compatibility_max = codes "2.0.0";
  contract_hash = digest_a;
  allowed_fields = codes "amount" ∷ [];
  fixture_digest = digest_a;
  redaction_policy_digest = digest_a;
  source_commit = codes "abcdef0";
  status = Status.draft;
  revision = pos 0;
}

abbrev entries : Registered
entries = (key, record manifest { revision = pos 1 }) ∷ []

resolve_exact_example :
    (resolve plain key (codes "1.5.0") entries ≡ ok manifest)
    ↔ Resolves plain key (codes "1.5.0") entries manifest
resolve_exact_example = resolve_exact plain key (codes "1.5.0") entries manifest

abbrev enabled : Manifest
enabled = record manifest { status = Status.enabled; revision = pos 2 }

transition_runs :
    transition plain key Status.enabled (pos 1) entries ≡ ok (enabled, (key, enabled) ∷ [])
unfolding transition record_hub.Connector.Manifest.Status-discrete normal_key
    record_hub.Connector.Names.name_pattern record_hub.Connector.Names.to_lower
    record_hub.Base.Trim.trim_space record_hub.Base.ℕ_discrete lookup
    record_hub.Connector.Manifest.Key-discrete record_hub.Base.Text-discrete
    record_hub.Base.ℤ-discrete record_hub.Base.Map.insert
transition_runs = refl

transition_checked_example :
    (k : Key) × (was : Manifest) × (normal_key plain key ≡ ok k)
    × (lookup k entries ≡ some was)
    × (was.revision ≡ pos 1)
    × ((Status.enabled ≡ Status.enabled)
        ⊎ (Status.enabled ≡ Status.disabled)
        ⊎ (Status.enabled ≡ Status.deprecated))
    × (enabled ≡ record was { status = Status.enabled; revision = inc64 was.revision })
    × ((j : Key)
        → lookup j ((key, enabled) ∷ []) ≡ (if k == j then some enabled else lookup j entries))
transition_checked_example =
    transition_checked plain key Status.enabled (pos 1) entries ((key, enabled) ∷ []) enabled
      transition_runs

abbrev user : Text → Principal
user name = record {
  kind = PrincipalKind.user;
  issuer = codes "iss";
  subject = name;
  audience = [];
  email = [];
  email_verified = true;
  name = [];
  preferred_username = [];
  groups = [];
  scopes = [];
}

-- Everybody owns the workspace.
abbrev owners : MembershipReader
owners identity tenant workspace = some (record {
  tenant_id = tenant;
  workspace_id = workspace;
  identity = identity;
  role = Role.owner;
  status = MembershipStatus.active;
})

abbrev record_digest : OnboardingRecord → Text
record_digest r = []

abbrev evidence : OnboardingEvidence
evidence = record {
  fixture_digest = digest_a;
  redaction_policy_digest = digest_a;
  source_commit = codes "abcdef0";
  compatibility_pass = true;
  fixture_pass = true;
  redaction_pass = true;
  operator_audit = true;
  owner_signoff = false;
  reviewer = [];
  approver = [];
}

abbrev env : Env
env = record { now = pos 1; logged_at = pos 1; audit_runs = true }

abbrev step_by : Text → ℤ → Step → Call
step_by name revision step = Call.steps env (user name) (codes "t") (codes "w") key revision step

abbrev calls : List Call
calls =
    Call.submits env (user (codes "ann")) (codes "t") (codes "w") manifest evidence
    ∷ step_by (codes "ann") (pos 1) Step.submit_for_review
    ∷ step_by (codes "bob") (pos 2) (Step.review true)
    ∷ step_by (codes "eve") (pos 3) Step.enable
    ∷ []

abbrev place : Text
place = codes "t\0w\0bids\0bid.closed\0" ++ codes "1"

abbrev released : OnboardingRecord
released = record {
  tenant_id = codes "t";
  workspace_id = codes "w";
  manifest = record manifest { status = Status.enabled; revision = pos 4 };
  evidence = record evidence {
    reviewer = codes "bob";
    approver = codes "eve";
    owner_signoff = true;
  };
  submitter = record { issuer = codes "iss"; subject = codes "ann" };
  created_at = pos 1;
  updated_at = pos 1;
}

calls-run :
    lookup place
      (run plain record_digest owners calls (record { entries = []; audits = [] })).entries
    ≡ some released
unfolding run lookup record_hub.Connector.Onboarding.Calls.after
    record_hub.Connector.Onboarding.take_step record_hub.Connector.Onboarding.next_record
    record_hub.Connector.Onboarding.permitted record_hub.Base.Trim.is_blank
    record_hub.Base.ℕ_discrete record_hub.Identity.Authorization.authorize
    record_hub.Identity.Principal.PrincipalKind-discrete
    record_hub.Identity.Authorization.MembershipStatus-discrete
    record_hub.Identity.Principal.IdentityKey-discrete record_hub.Base.Text-discrete
    record_hub.Identity.Authorization.role_allows normal_key record_hub.Connector.Names.name_pattern
    record_hub.Connector.Names.to_lower record_hub.Connector.Onboarding.submit
    record_hub.Base.Decimal.decimal record_hub.Base.Decimal.decimal_ℤ record_hub.Base.ℤ-discrete
    record_hub.Base.Map.insert record_hub.Base.split record_hub.Base.Trim.trim_space
    record_hub.Connector.Manifest.Status-discrete record_hub.Connector.Manifest.normal_fields
    record_hub.Connector.Manifest.normal_manifest record_hub.Connector.Names.atoi
    record_hub.Connector.Names.digits_value record_hub.Connector.Names.hash_pattern
    record_hub.Connector.Names.parse_version record_hub.Connector.Names.source_commit_pattern
    record_hub.Connector.Names.version_before record_hub.Connector.Onboarding.admitted
    record_hub.Connector.Onboarding.stored record_hub.Connector.Onboarding.transition
    record_hub.Connector.Onboarding.validate_manifest record_hub.Identity.Authorization.known_action
calls-run = refl

run_separates_duties_example :
    IsSound
      (deeds plain record_digest owners calls (record { entries = []; audits = [] }))
      place
      released
run_separates_duties_example =
    run_separates_duties plain record_digest owners calls [] place released calls-run

abbrev withdrawn : OnboardingRecord
withdrawn = record released {
  manifest = record manifest { status = Status.disabled; revision = pos 5 };
}

abbrev world : World
world = record { entries = (place, withdrawn) ∷ []; audits = [] }

withdrawn_found : lookup place world.entries ≡ some withdrawn
unfolding lookup record_hub.Base.Text-discrete
withdrawn_found = refl

run_keeps_final_example :
    lookup place (run plain record_digest owners calls world).entries ≡ some withdrawn
run_keeps_final_example =
    run_keeps_final plain record_digest owners calls world place withdrawn withdrawn_found
      (inr refl)
