-- ===== src/Connector/Manifest.antt =====
-- server/internal/modules/connector/registry.go: Key, Manifest and their normal forms. A manifest is
-- a value here: what `normalized` writes to the caller's AllowedFields is not seen.
use record_hub.Base.{
  Text, Text-discrete, text_eq, ℤ, ℤ-discrete, int_eq, pos, ltb_ℤ, Bool, true, false, not, ◌||◌,
  List, [], ◌∷◌, contains, Eq, Result, ok, err, ◌>>=◌, ◌>>◌, reject_if, if◌then◌else◌,
}
use record_hub.Base.Trim.{trim_space}
use record_hub.Connector.Names.{
  Error, name_pattern, hash_pattern, to_lower, parse_version, version_before,
}

-- A Go string: `other` is any text but the constants, the empty one included.
pub data Status : Type 0 where
  draft in_review approved enabled disabled rejected deprecated : Status
  other : Text → Status

unfoldable pub Status-discrete : Discrete Status
Status-discrete = hlevel Text-discrete

instance abbrev pub status_eq : Eq Status
status_eq = record { dec = Status-discrete }

pub record Key : Type 0 where
  pub connector : Text
  pub event : Text
  pub schema_version : ℤ

unfoldable pub Key-discrete : Discrete Key
Key-discrete = hlevel (Text-discrete, ℤ-discrete)

instance abbrev pub key_eq : Eq Key
key_eq = record { dec = Key-discrete }

pub record Manifest : Type 0 where
  pub key : Key
  pub owner_system : Text
  pub sdk_version : Text
  pub compatibility_min : Text
  pub compatibility_max : Text
  pub contract_hash : Text
  pub allowed_fields : List Text
  pub fixture_digest : Text
  pub redaction_policy_digest : Text
  pub source_commit : Text
  pub status : Status
  pub revision : ℤ

-- The loop over AllowedFields; `seen` are the fields before.
unfoldable pub normal_fields : List Text → List Text → Result Error (List Text)
normal_fields seen [] = ok []
normal_fields seen (raw ∷ fields) =
    let field = trim_space raw in
    let rest = normal_fields (field ∷ seen) fields in
    if not (name_pattern field) || contains seen field
    then err Error.invalid_manifest
    else rest >>= λ more. ok (field ∷ more)

no_fields : List Text → Bool
no_fields [] = true
no_fields (field ∷ fields) = false

-- `if manifest.Status == "" { manifest.Status = StatusDraft }`, and the switch after it.
abbrev pub normal_status : Status → Result Error Status
normal_status (Status.other []) = ok Status.draft
normal_status (Status.other _) = err Error.invalid_manifest
normal_status s = ok s

module _ (lower_unicode : Text → Text) where
  -- `strings.ToLower(strings.TrimSpace(s))`
  abbrev pub lowered : Text → Text
  lowered s = to_lower lower_unicode (trim_space s)

  abbrev lowered_key : Key → Key
  lowered_key k = record {
    connector = lowered k.connector;
    event = lowered k.event;
    schema_version = k.schema_version;
  }

  -- `Key.normalized`
  unfoldable pub normal_key : Key → Result Error Key
  normal_key raw =
      let k = lowered_key raw in
      if not (name_pattern k.connector)
        || not (name_pattern k.event)
        || ltb_ℤ k.schema_version (pos 1)
      then err Error.invalid_manifest
      else ok k

  -- `Manifest.normalized`
  unfoldable pub normal_manifest : Manifest → Result Error Manifest
  unfolding no_fields
  normal_manifest m = do
    k ← normal_key m.key
    reject_if (not (name_pattern (lowered m.owner_system))) Error.invalid_manifest
    sdk ← parse_version m.sdk_version
    minimum ← parse_version m.compatibility_min
    maximum ← parse_version m.compatibility_max
    reject_if (version_before maximum minimum) Error.invalid_manifest
    reject_if (not (hash_pattern (lowered m.contract_hash))) Error.invalid_manifest
    fields ← normal_fields [] m.allowed_fields
    reject_if (no_fields fields) Error.invalid_manifest
    s ← normal_status m.status
    reject_if (ltb_ℤ m.revision (pos 0)) Error.invalid_manifest
    ok (record m {
      key = k;
      owner_system = lowered m.owner_system;
      contract_hash = lowered m.contract_hash;
      allowed_fields = fields;
      status = s;
    })
