-- ===== src/Projection/Inbox.antt =====
-- server/internal/modules/projection/inbox.go: the events that a consumer has claimed, in a
-- collection that is unique by consumer and event. The SHA-256 of a payload, in hexadecimal, is a
-- parameter. An error of the driver is `database_failed`.
pub mod Laws
pub mod Once
mod Tests
use record_hub.Base.{
  ℕ, ◌*◌, Text, text_eq, Text-discrete, codes, is_empty, contains_any, Bool, true, false, not, ◌&&◌,
  ◌||◌, ◌==◌, ◌!=◌, Eq, ◌++◌, length, ltb, Option, none, some, Result, ok, err, ◌>>=◌, ◌>>◌,
  reject_if, if◌then◌else◌, nat_eq, Time, is_zero,
}
use record_hub.Base.Trim.{trim_space, is_blank}
use record_hub.Database.{Found, Inserted, Updated, Collection}

pub data InboxError : Type 0 where
  inbox_not_found payload_conflict state_conflict : InboxError
  event_incomplete scope_incomplete scope_invalid status_invalid received_at_required
        safe_error_long :
      InboxError
  identity_unbounded identity_space payload_size applied_at_required safe_error_size
        database_failed :
      InboxError

-- The status is a Go string.
pub data InboxStatus : Type 0 where
  processing applied rejected failed : InboxStatus
  other : Text → InboxStatus

unfoldable pub InboxStatus-discrete : Discrete InboxStatus
InboxStatus-discrete = hlevel Text-discrete

instance abbrev pub inbox_status_eq : Eq InboxStatus
inbox_status_eq = record { dec = InboxStatus-discrete }

pub record InboxEvent : Type 0 where
  pub event_id : Text
  pub consumer : Text
  pub subject : Text
  pub tenant_id : Text
  pub workspace_id : Text
  pub payload_hash : Text
  pub status : InboxStatus
  pub received_at : Time
  pub applied_at : Option Time
  pub safe_error : Text

pub record InboxClaim : Type 0 where
  pub event_id : Text
  pub consumer : Text
  pub subject : Text
  pub tenant_id : Text
  pub workspace_id : Text
  pub payload : Text
  pub received_at : Time

pub record InboxClaimResult : Type 0 where
  pub event : InboxEvent
  pub duplicate : Bool

-- The unique index of the collection.
pub record EventKey : Type 0 where
  pub event_id : Text
  pub consumer : Text

unfoldable pub EventKey-discrete : Discrete EventKey
EventKey-discrete = hlevel Text-discrete

instance abbrev pub event_key_eq : Eq EventKey
event_key_eq = record { dec = EventKey-discrete }

abbrev pub event_key : InboxEvent → EventKey
event_key e = record { event_id = e.event_id; consumer = e.consumer }

-- `InboxEvent.Validate`
unfoldable pub validate_event : InboxEvent → Result InboxError (Unit {0})
validate_event e = do
  reject_if
      (is_blank e.event_id || is_blank e.consumer || is_blank e.subject || is_blank e.payload_hash)
      InboxError.event_incomplete
  reject_if
      ((is_empty e.tenant_id && not (is_empty e.workspace_id))
        || (not (is_empty e.tenant_id) && is_empty e.workspace_id))
      InboxError.scope_incomplete
  reject_if
      (ltb 128 (length e.tenant_id)
        || ltb 128 (length e.workspace_id)
        || contains_any (e.tenant_id ++ e.workspace_id) (codes " \t\r\n"))
      InboxError.scope_invalid
  reject_if
      (e.status != InboxStatus.processing
        && e.status != InboxStatus.applied
        && e.status != InboxStatus.rejected
        && e.status != InboxStatus.failed)
      InboxError.status_invalid
  reject_if (is_zero e.received_at) InboxError.received_at_required
  reject_if (not (is_empty e.safe_error) && ltb 512 (length e.safe_error))
      InboxError.safe_error_long

-- contracts/eventenvelope: MaxEnvelopeBytes.
abbrev pub max_envelope_bytes : ℕ
max_envelope_bytes = 256 * 1024

-- The event that a claim makes, of its trimmed parts.
abbrev claimed_event : (Text → Text) → InboxClaim → InboxEvent
claimed_event sha256_hex c = record {
  event_id = trim_space c.event_id;
  consumer = trim_space c.consumer;
  subject = trim_space c.subject;
  tenant_id = trim_space c.tenant_id;
  workspace_id = trim_space c.workspace_id;
  payload_hash = codes "sha256:" ++ sha256_hex c.payload;
  status = InboxStatus.processing;
  received_at = c.received_at;
  applied_at = none;
  safe_error = codes "";
}

-- `normalizeInboxClaim`
unfoldable pub normalize_claim : (Text → Text) → InboxClaim → Result InboxError InboxEvent
unfolding validate_event
normalize_claim sha256_hex c = do
  let e = claimed_event sha256_hex c
  reject_if
      (is_empty e.event_id
        || is_empty e.consumer
        || is_empty e.subject
        || ltb 256 (length e.event_id)
        || ltb 256 (length e.consumer)
        || ltb 256 (length e.subject))
      InboxError.identity_unbounded
  reject_if
      ((is_empty e.tenant_id && not (is_empty e.workspace_id))
        || (not (is_empty e.tenant_id) && is_empty e.workspace_id)
        || ltb 128 (length e.tenant_id)
        || ltb 128 (length e.workspace_id))
      InboxError.scope_incomplete
  reject_if (contains_any (e.event_id ++ e.consumer ++ e.subject) (codes "\n\r\t "))
      InboxError.identity_space
  reject_if (is_empty c.payload || ltb max_envelope_bytes (length c.payload))
      InboxError.payload_size
  reject_if (is_zero c.received_at) InboxError.received_at_required
  validate_event e
  ok e

abbrev pub is_processing : InboxEvent → Bool
is_processing e = e.status == InboxStatus.processing

abbrev pub mark_applied_set : Time → InboxEvent → InboxEvent
mark_applied_set at e = record e { status = InboxStatus.applied; applied_at = some at }

abbrev pub mark_rejected_set : Text → Time → InboxEvent → InboxEvent
mark_rejected_set safe at e = record e {
  status = InboxStatus.rejected;
  safe_error = safe;
  applied_at = some at;
}

module _ {S : Type 0} (inbox : Collection EventKey InboxEvent S) where
  unfoldable pub found_event : Found InboxEvent → Result InboxError InboxEvent
  found_event (Found.found e) = ok e
  found_event Found.no_documents = err InboxError.inbox_not_found
  found_event Found.failed = err InboxError.database_failed

  -- `Get`
  unfoldable pub get : EventKey → S → Result InboxError InboxEvent
  unfolding found_event
  get key s = found_event (inbox.find_one key s)

  abbrev same_payload : InboxEvent → InboxEvent → Result InboxError InboxClaimResult
  same_payload e existing =
      if existing.payload_hash != e.payload_hash
      then err InboxError.payload_conflict
      else ok (record { event = existing; duplicate = true })

  pub after_insert : InboxEvent → S → Inserted S → Result InboxError InboxClaimResult × S
  unfolding get
  after_insert e s (Inserted.inserted s') = (ok (record { event = e; duplicate = false }), s')
  after_insert e s Inserted.duplicate_key = (get (event_key e) s >>= same_payload e, s)
  after_insert e s Inserted.failed = (err InboxError.database_failed, s)

  pub claim_normalized : S → Result InboxError InboxEvent → Result InboxError InboxClaimResult × S
  unfolding after_insert
  claim_normalized s (err e) = (err e, s)
  claim_normalized s (ok e) = after_insert e s (inbox.insert_one (event_key e) e s)

  -- `Claim`
  unfoldable pub claim : (Text → Text) → InboxClaim → S → Result InboxError InboxClaimResult × S
  unfolding claim_normalized
  claim sha256_hex c s = claim_normalized s (normalize_claim sha256_hex c)

  abbrev has_status : InboxStatus → InboxEvent → Result InboxError (Unit {0})
  has_status want e = if e.status == want then ok tt else err InboxError.state_conflict

  -- `checkInboxState`
  unfoldable pub check_inbox_state : EventKey → InboxStatus → S → Result InboxError (Unit {0})
  unfolding get
  check_inbox_state key want s = get key s >>= has_status want

  pub marked : EventKey → InboxStatus → S → Updated S → Result InboxError (Unit {0}) × S
  unfolding check_inbox_state
  marked key want s (Updated.updated n s') =
      (if n == 1 then ok tt else check_inbox_state key want s', s')
  marked key want s Updated.failed = (err InboxError.database_failed, s)

  -- `MarkApplied`
  unfoldable pub mark_applied : EventKey → Time → S → Result InboxError (Unit {0}) × S
  unfolding marked
  mark_applied key at s =
      if is_zero at
      then (err InboxError.applied_at_required, s)
      else marked key InboxStatus.applied s
          (inbox.update_one key is_processing (mark_applied_set at) s)

  -- `MarkRejected`
  unfoldable pub mark_rejected : EventKey → Text → Time → S → Result InboxError (Unit {0}) × S
  unfolding marked
  mark_rejected key safe_error at s =
      let safe = trim_space safe_error in
      if is_empty safe || ltb 512 (length safe)
      then (err InboxError.safe_error_size, s)
      else if is_zero at
      then (err InboxError.applied_at_required, s)
      else marked key InboxStatus.rejected s
          (inbox.update_one key is_processing (mark_rejected_set safe at) s)
