-- ===== src/Projection/Retry.antt =====
-- server/internal/modules/projection/retry.go: the class of a failure, its safe message, and dead
-- letters. The digests and JSON of a letter's identity are parameters.
use record_hub.Base.{
  ℕ, Text, codes, is_empty, contains_any, ◌||◌, ◌++◌, take, length, ltb, Option, none, some, Result,
  ok, ◌>>◌, reject_if, if◌then◌else◌, Time, is_zero, ◌∷◌,
}
use record_hub.Base.Trim.{trim_space, is_blank}
use record_hub.Base.Decimal.{decimal}

pub data ErrorClass : Type 0 where
  transient deterministic : ErrorClass

-- A handler's error: a RetryError, which `errors.As` finds in it, or another one.
pub data HandlerError : Type 0 where
  retry_error : ErrorClass → Text → HandlerError
  other_error : HandlerError

abbrev deterministic_fallback : Text
deterministic_fallback = codes "deterministic projection failure"

abbrev transient_fallback : Text
transient_fallback = codes "transient projection failure"

abbrev pub fallback_of : ErrorClass → Text
fallback_of ErrorClass.deterministic = deterministic_fallback
fallback_of ErrorClass.transient = transient_fallback

-- `RetryError.Error`
unfoldable pub error_text : ErrorClass → Text → Text
error_text class message = if is_empty message then fallback_of class else message

-- `boundedSafeMessage`
unfoldable pub bounded_safe_message : Text → Text → Text
bounded_safe_message value fallback =
    let v = trim_space value in
    if is_empty v then fallback else if ltb 512 (length v) then take 512 v else v

-- `DeterministicError` and `TransientError`
unfoldable pub retry_error_of : ErrorClass → Text → HandlerError
retry_error_of class message =
    HandlerError.retry_error class (bounded_safe_message message (fallback_of class))

-- `errorClass`
unfoldable pub error_class : HandlerError → ErrorClass × Text
error_class (HandlerError.retry_error class message) =
    (class, bounded_safe_message message (error_text class message))
error_class HandlerError.other_error = (ErrorClass.transient, transient_fallback)

pub record DeadLetter : Type 0 where
  pub event_id : Text
  pub consumer : Text
  pub original_subject : Text
  pub attempts : ℕ
  pub reason : Text
  pub created_at : Time

pub data LetterError : Type 0 where
  incomplete reason_long identity_characters : LetterError

-- `DeadLetter.Validate`
unfoldable pub validate_letter : DeadLetter → Result LetterError (Unit {0})
validate_letter l = do
  reject_if
      (is_blank l.event_id
        || is_blank l.consumer
        || is_blank l.original_subject
        || ltb l.attempts 1
        || is_blank l.reason
        || is_zero l.created_at)
      LetterError.incomplete
  reject_if (ltb 512 (length l.reason)) LetterError.reason_long
  reject_if (contains_any (l.consumer ++ l.original_subject) (codes " *>\t\r\n"))
      LetterError.identity_characters

-- `deadLetterMessageID`, with the SHA-256 in hexadecimal.
unfoldable pub dead_letter_message_id : (Text → Text) → DeadLetter → Text
unfolding decimal
dead_letter_message_id sha256_hex l =
    codes "dlq-" ++ take 32 (sha256_hex (l.event_id ++ 0 ∷ l.consumer ++ 0 ∷ decimal l.attempts))

-- `messageEventID`, with the event's identifier that the JSON of the payload has, if any.
unfoldable pub message_event_id : (Text → Text) → (Text → Option Text) → Text → Text
message_event_id sha256_hex json_event_id payload = elim (json_event_id payload) [
  | some id ↦
      if is_blank id then codes "payload-" ++ take 32 (sha256_hex payload) else trim_space id
  | none ↦ codes "payload-" ++ take 32 (sha256_hex payload)
]

-- `NATSDeadLetterPublisher.Publish`: the subject, or the letter's error.
unfoldable pub letter_subject : Text → DeadLetter → Result LetterError Text
unfolding validate_letter
letter_subject prefix l = do validate_letter l; ok (prefix ++ codes "." ++ l.consumer)
