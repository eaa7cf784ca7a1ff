-- ===== src/Commands/Model.antt =====
-- server/internal/modules/commands/model.go: policies, operations, envelopes and their validation.
-- The SHA-256 digest in hexadecimal is a parameter, `sha256_hex`.
use record_hub.Base.{
  ℕ, Text, Text-discrete, text_eq, codes, is_empty, contains_any, Bool, true, false, not, ◌||◌, Eq,
  ◌!=◌, [], ◌∷◌, ◌++◌, any, length, Option, none, some, Result, ◌>>◌, reject_if, if◌then◌else◌, ltb,
  ℤ, pos, ltb_ℤ, leb_ℤ, Time, is_zero,
}
use record_hub.Base.Trim.{is_blank}
use record_hub.Identity.Principal.{IdentityKey}

-- The sentinel errors; a wrapped error is what `errors.Is` finds in it. `unknown` stands for a
-- failure of a store or an owner that none of them wraps.
pub data Error : Type 0 where
  unavailable policy_denied policy_not_found not_found exists idempotency invalid_request : Error
  expected_version payload_too_large publication_failed result_conflict result_invalid : Error
  inbox_claimed inbox_conflict : Error
  unknown : Error

-- A Go string, so `other` stands for any text but the constants.
pub data Status : Type 0 where
  accepted dispatched succeeded rejected failed expired : Status
  other : Text → Status

unfoldable pub Status-discrete : Discrete Status
Status-discrete = hlevel Text-discrete

instance abbrev pub status_eq : Eq Status
status_eq = record { dec = Status-discrete }

abbrev pub max_payload_bytes : ℕ
max_payload_bytes = 262144

pub record Policy : Type 0 where
  pub id : Text
  pub tenant_id : Text
  pub workspace_id : Text
  pub purpose : Text
  pub owner_system : Text
  pub resource_type : Text
  pub action : Text
  pub expected_version_required : Bool
  pub max_payload : ℤ

-- A field of a policy that the loop in `Policy.Validate` refuses.
bad_field : Text → Bool
bad_field value = is_blank value || contains_any value (codes "*> \t\r\n")

abbrev pub default_limit : ℤ → ℤ
default_limit limit = if leb_ℤ limit (pos 0) then pos max_payload_bytes else limit

unfoldable pub validate_policy : Policy → Result Error (Unit {0})
unfolding bad_field
validate_policy p = do
  reject_if
      (any bad_field (
        p.id ∷ p.tenant_id ∷ p.workspace_id ∷ p.purpose ∷ p.owner_system ∷ p.resource_type
        ∷ p.action ∷ []))
      Error.invalid_request
  reject_if
      (ltb 128 (length p.id)
        || ltb 128 (length p.purpose)
        || ltb 64 (length p.owner_system)
        || ltb 128 (length p.resource_type)
        || ltb 128 (length p.action))
      Error.invalid_request
  reject_if (ltb_ℤ (pos max_payload_bytes) (default_limit p.max_payload)) Error.invalid_request

pub record SubmitRequest : Type 0 where
  pub tenant_id : Text
  pub workspace_id : Text
  pub policy_id : Text
  pub resource_ref : Text
  pub expected_version : Option ℤ
  pub payload : Text
  pub request_id : Text
  pub idempotency_key : Text

pub record Operation : Type 0 where
  pub id : Text
  pub tenant_id : Text
  pub workspace_id : Text
  pub policy_id : Text
  pub owner_system : Text
  pub resource_type : Text
  pub action : Text
  pub purpose : Text
  pub resource_ref : Text
  pub expected_version : Option ℤ
  pub payload_hash : Text
  pub payload : Text
  pub idempotency_key : Text
  pub request_id : Text
  pub status : Status
  pub revision : ℤ
  pub safe_error : Text
  pub result_event_id : Text
  pub result_hash : Text
  pub result_version : Option ℤ
  pub created_by : IdentityKey
  pub created_at : Time
  pub updated_at : Time

known_status : Status → Bool
known_status (Status.other _) = false
known_status _ = true

abbrev pub line_breaks : Text
line_breaks = codes "\r\n"

unfoldable pub validate_operation : Operation → Result Error (Unit {0})
unfolding known_status
validate_operation o = do
  reject_if
      (any is_empty (
          o.id ∷ o.tenant_id ∷ o.workspace_id ∷ o.policy_id ∷ o.owner_system ∷ o.resource_type
          ∷ o.action ∷ o.purpose ∷ o.resource_ref ∷ o.payload_hash ∷ o.idempotency_key ∷ [])
        || ltb_ℤ o.revision (pos 1)
        || is_zero o.created_at
        || is_zero o.updated_at)
      Error.invalid_request
  reject_if (not (known_status o.status)) Error.invalid_request
  reject_if (ltb 512 (length o.safe_error) || contains_any o.safe_error line_breaks)
      Error.invalid_request

pub record Envelope : Type 0 where
  pub operation_id : Text
  pub tenant_id : Text
  pub workspace_id : Text
  pub policy_id : Text
  pub owner_system : Text
  pub resource_type : Text
  pub action : Text
  pub purpose : Text
  pub resource_ref : Text
  pub expected_version : Option ℤ
  pub payload_hash : Text
  pub payload : Text
  pub requested_by : IdentityKey
  pub created_at : Time

pub record ResultEnvelope : Type 0 where
  pub event_id : Text
  pub operation_id : Text
  pub tenant_id : Text
  pub workspace_id : Text
  pub owner_system : Text
  pub action : Text
  pub status : Status
  pub result_hash : Text
  pub error_code : Text
  pub safe_error : Text
  pub result_version : Option ℤ
  pub occurred_at : Time

-- SUCCEEDED, REJECTED, FAILED, EXPIRED.
unfoldable pub is_terminal : Status → Bool
is_terminal Status.succeeded = true
is_terminal Status.rejected = true
is_terminal Status.failed = true
is_terminal Status.expired = true
is_terminal _ = false

-- `version != nil && *version < 1`
unfoldable pub bad_version : Option ℤ → Bool
bad_version none = false
bad_version (some v) = ltb_ℤ v (pos 1)

unfoldable pub validate_result : ResultEnvelope → Result Error (Unit {0})
unfolding is_terminal bad_version
validate_result r = do
  reject_if
      (any is_empty (
          r.event_id ∷ r.operation_id ∷ r.tenant_id ∷ r.workspace_id ∷ r.owner_system ∷ r.action
          ∷ [])
        || is_zero r.occurred_at)
      Error.result_invalid
  reject_if (not (is_terminal r.status)) Error.result_invalid
  reject_if
      (ltb 256 (length r.event_id)
        || ltb 128 (length r.error_code)
        || ltb 512 (length r.safe_error)
        || ltb 256 (length r.result_hash)
        || contains_any (r.event_id ++ r.error_code ++ r.result_hash ++ r.safe_error) line_breaks)
      Error.result_invalid
  reject_if (bad_version r.result_version) Error.result_invalid

module _ (sha256_hex : Text → Text) where
  -- `"sha256:" + hex.EncodeToString(hash[:])`
  abbrev pub payload_hash_of : Text → Text
  payload_hash_of payload = codes "sha256:" ++ sha256_hex payload

  unfoldable pub validate_envelope : Envelope → Result Error (Unit {0})
  unfolding bad_version
  validate_envelope e = do
    reject_if
        (any is_empty (
            e.operation_id ∷ e.tenant_id ∷ e.workspace_id ∷ e.policy_id ∷ e.owner_system
            ∷ e.resource_type ∷ e.action ∷ e.purpose ∷ e.resource_ref ∷ e.payload_hash ∷ [])
          || is_zero e.created_at)
        Error.invalid_request
    reject_if
        (ltb 256 (length e.operation_id)
          || is_empty e.payload
          || ltb max_payload_bytes (length e.payload))
        Error.invalid_request
    reject_if (bad_version e.expected_version) Error.invalid_request
    reject_if (e.payload_hash != payload_hash_of e.payload) Error.invalid_request
