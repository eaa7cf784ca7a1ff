-- ===== src/Commands/Service.antt =====
-- server/internal/modules/commands/service.go: Service over any store that keeps the contract. What
-- a call meets outside, the clock, the identifier generator, the audit writer and the publisher,
-- comes as the record `Env`; what it leaves there is in `World`. A nil service or dependency, which
-- the code answers by ErrCommandUnavailable, is not modelled.
pub mod Submit
pub mod Results
pub mod ResultLaws
pub mod Replay
pub mod History
pub mod SubmitLaws
pub mod SubmitEffect
pub mod Idempotency
pub mod Runs
use record_hub.Base.{
  Text, text_eq, codes, is_empty, ℕ, Bool, true, false, not, ◌&&◌, ◌||◌, ◌==◌, ◌!=◌, List, [], ◌∷◌,
  ◌++◌, any, length, Option, none, some, Result, ok, err, ◌>>=◌, ◌>>◌, reject_if, if◌then◌else◌,
  ltb, ℤ, pos, ltb_ℤ, leb_ℤ, int_eq, inc64, Time, before, utf8_valid,
}
use record_hub.Base.Trim.{trim_space}
use record_hub.Identity.Principal.{Principal, PrincipalKind, kind_eq, IdentityKey, identity_key}
use record_hub.Binding.Reference.{RecordRef, parse_record_ref}
use record_hub.Binding.Policy.{BindingAuthorization}
use record_hub.Audit
use record_hub.Commands.Model.{
  Error, Status, status_eq, Policy, SubmitRequest, Operation, Envelope, ResultEnvelope,
  max_payload_bytes, validate_operation, validate_result, payload_hash_of, bad_version,
}
use record_hub.Commands.Store.{Store, Receipt}

-- Packages outside the repository: SHA-256 in hexadecimal, and JSON objects. `decode` is the object
-- of a text that holds one object and nothing else; `encode` is json.Marshal.
pub record Codec : Type 1 where
  pub Object : Type 0
  pub sha256_hex : Text → Text
  pub decode : Text → Option Object
  pub encode : Object → Option Text

pub record Gateway : Type 1 where
  pub codec : Codec
  pub store : Store
  pub find_policy : Text → Text → Text → Result Error Policy
  pub authorize : Principal → BindingAuthorization → Bool

-- One call's surroundings: the clock at each reading, what the generator returns, whether the audit
-- writer and the publisher are there (not nil) and succeed.
pub record Env : Type 0 where
  pub new_id : Option Text
  pub created : Time
  pub dispatched : Time
  pub audit : Option Bool
  pub publish : Option Bool

-- The store, the messages that were published, and the audit entries, the latest first.
pub record World (S : Type 0) : Type 0 where
  pub state : S
  pub published : List (Text × Envelope)
  pub audits : List Audit.Entry

abbrev pub is_some {ℓ} : {A : Type ℓ} → Option A → Bool
is_some none = false
is_some (some _) = true

module _ (codec : Codec) where
  encoded : Option Text → Result Error Text
  encoded none = err Error.payload_too_large
  encoded (some text) =
      if ltb max_payload_bytes (length text) then err Error.payload_too_large else ok text

  decoded : Option codec.Object → Result Error Text
  unfolding encoded
  decoded none = err Error.invalid_request
  decoded (some object) = encoded (codec.encode object)

  unfoldable pub canonical_payload : Text → Result Error Text
  unfolding decoded
  canonical_payload raw =
      if is_empty raw || ltb max_payload_bytes (length raw) || not (utf8_valid raw)
      then err Error.payload_too_large
      else decoded (codec.decode raw)

  abbrev pub trimmed : SubmitRequest → SubmitRequest
  trimmed r = record r {
    tenant_id = trim_space r.tenant_id;
    workspace_id = trim_space r.workspace_id;
    policy_id = trim_space r.policy_id;
    resource_ref = trim_space r.resource_ref;
    request_id = trim_space r.request_id;
    idempotency_key = trim_space r.idempotency_key;
  }

  -- The request with its fields trimmed, and the canonical payload.
  unfoldable pub normalize_request : SubmitRequest → Result Error (SubmitRequest × Text)
  normalize_request raw = do
    let r = trimmed raw
    reject_if
        (any is_empty
          (r.tenant_id ∷ r.workspace_id ∷ r.policy_id ∷ r.resource_ref ∷ r.idempotency_key ∷ []))
        Error.invalid_request
    reject_if (ltb 128 (length r.idempotency_key) || ltb 256 (length r.request_id))
        Error.invalid_request
    reject_if (bad_version r.expected_version) Error.invalid_request
    reject_if (not (is_some (parse_record_ref r.resource_ref))) Error.invalid_request
    payload ← canonical_payload r.payload
    ok (r, payload)

-- "commands." + ownerSystem + "." + action + ".v1"
unfoldable pub command_subject : Text → Text → Text
command_subject owner action = codes "commands." ++ owner ++ codes "." ++ action ++ codes ".v1"

abbrev pub envelope_of : Operation → Envelope
envelope_of o = record {
  operation_id = o.id;
  tenant_id = o.tenant_id;
  workspace_id = o.workspace_id;
  policy_id = o.policy_id;
  owner_system = o.owner_system;
  resource_type = o.resource_type;
  action = o.action;
  purpose = o.purpose;
  resource_ref = o.resource_ref;
  expected_version = o.expected_version;
  payload_hash = o.payload_hash;
  payload = o.payload;
  requested_by = o.created_by;
  created_at = o.created_at;
}

abbrev pub is_service : Principal → Bool
is_service p = not (p.kind != PrincipalKind.service || is_empty p.issuer || is_empty p.subject)

-- `err != nil || reference.System != policy.OwnerSystem || reference.Type != policy.ResourceType`
abbrev pub wrong_reference : Option RecordRef → Policy → Bool
wrong_reference none policy = true
wrong_reference (some r) policy = r.system != policy.owner_system || r.type != policy.resource_type

abbrev pub authorization : Text → Text → Text → Policy → BindingAuthorization
authorization tenant workspace reference policy = record {
  tenant_id = tenant;
  workspace_id = workspace;
  purpose = policy.purpose;
  record_ref = reference;
  resource_system = policy.owner_system;
  resource_type = policy.resource_type;
}
