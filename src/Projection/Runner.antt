-- ===== src/Projection/Runner.antt =====
-- server/internal/modules/projection/nats.go: PullRunnerConfig, and what PullRunner does with a
-- message whose handler failed. Durations are in nanoseconds. The calls of JetStream that end a
-- message are the values of `Settlement`. The loop over fetched batches is not modelled.
pub mod Bounds
pub mod Ends
mod Tests
use record_hub.Base.{
  ℕ, zero, suc, ◌*◌, ◌-◌, Text, Bool, true, false, ◌||◌, ◌&&◌, List, [], ◌∷◌, length, any, Option,
  none, some, Result, ok, err, ◌>>◌, reject_if, if◌then◌else◌, ltb, leb, ℤ, pos, negsuc, int_eq,
  ltb_ℤ, ◌==◌, Time,
}
use record_hub.Base.Trim.{is_blank}
use record_hub.Projection.Retry.{
  ErrorClass, HandlerError, DeadLetter, error_class, message_event_id,
}

abbrev pub milliseconds : ℕ → ℤ
milliseconds n = pos (n * 1000000)

abbrev pub seconds : ℕ → ℤ
seconds n = pos (n * 1000000000)

pub record PullRunnerConfig : Type 0 where
  pub stream : Text
  pub durable : Text
  pub batch_size : ℤ
  pub max_deliver : ℤ
  pub backoff : List ℤ
  pub fetch_timeout : ℤ
  pub ack_timeout : ℤ
  pub retry_delay : ℤ
  pub drain_timeout : ℤ

abbrev pub or_else : ℤ → ℤ → ℤ
or_else v fallback = if v == pos 0 then fallback else v

abbrev pub default_backoff : List ℤ
default_backoff = milliseconds 250 ∷ seconds 1 ∷ seconds 5 ∷ seconds 15 ∷ []

abbrev pub backoff_or_default : List ℤ → List ℤ
backoff_or_default [] = default_backoff
backoff_or_default (d ∷ delays) = d ∷ delays

-- `withDefaults`
unfoldable pub with_defaults : PullRunnerConfig → PullRunnerConfig
with_defaults c = record c {
  batch_size = or_else c.batch_size (pos 64);
  max_deliver = or_else c.max_deliver (pos 5);
  backoff = backoff_or_default c.backoff;
  fetch_timeout = or_else c.fetch_timeout (seconds 10);
  ack_timeout = or_else c.ack_timeout (seconds 5);
  retry_delay = or_else c.retry_delay (milliseconds 250);
  drain_timeout = or_else c.drain_timeout (seconds 10);
}

pub data ConfigError : Type 0 where
  identity_required batch_size max_deliver backoff_count backoff_entry fetch_timeout ack_timeout
        retry_delay drain_timeout :
      ConfigError

-- `value < low || value > high`
abbrev pub outside : ℤ → ℤ → ℤ → Bool
outside low high v = ltb_ℤ v low || ltb_ℤ high v

abbrev pub bad_delay : ℤ → Bool
bad_delay = outside (milliseconds 10) (seconds 30)

-- `PullRunnerConfig.Validate`
unfoldable pub validate_config : PullRunnerConfig → Result ConfigError (Unit {0})
validate_config c = do
  reject_if (is_blank c.stream || is_blank c.durable) ConfigError.identity_required
  reject_if (outside (pos 1) (pos 256) c.batch_size) ConfigError.batch_size
  reject_if (outside (pos 1) (pos 100) c.max_deliver) ConfigError.max_deliver
  reject_if (ltb_ℤ c.max_deliver (pos (length c.backoff))) ConfigError.backoff_count
  reject_if (any bad_delay c.backoff) ConfigError.backoff_entry
  reject_if (outside (milliseconds 100) (seconds 60) c.fetch_timeout) ConfigError.fetch_timeout
  reject_if (outside (milliseconds 100) (seconds 60) c.ack_timeout) ConfigError.ack_timeout
  reject_if (bad_delay c.retry_delay) ConfigError.retry_delay
  reject_if (outside (milliseconds 100) (seconds 300) c.drain_timeout) ConfigError.drain_timeout

-- The element at an index, and the last one past the end.
unfoldable pub clamped_at : ℤ → List ℤ → ℕ → ℤ
clamped_at last [] n = last
clamped_at last (d ∷ delays) n = elim n [ zero ↦ d | suc m ↦ clamped_at d delays m ]

-- `retryDelay`; attempts are at least 1.
unfoldable pub runner_retry_delay : PullRunnerConfig → ℕ → ℤ
unfolding clamped_at
runner_retry_delay c attempts = clamped_at c.retry_delay c.backoff (attempts - 1)

-- What a failed message comes to: it is put back with a delay, it is ended with a reason, or the
-- publication of its dead letter failed.
pub data Settlement : Type 0 where
  nak_with_delay : ℤ → Settlement
  term_with_reason : Text → Settlement
  publish_failed : Settlement

pub record Message : Type 0 where
  pub subject : Text
  pub payload : Text
  -- `NumDelivered` of the metadata, if they can be read.
  pub num_delivered : Option ℕ

unfoldable pub attempts_of : Message → ℕ
attempts_of m = elim m.num_delivered [ none ↦ 1 | some n ↦ if ltb 0 n then n else 1 ]

abbrev is_deterministic : ErrorClass → Bool
is_deterministic ErrorClass.deterministic = true
is_deterministic ErrorClass.transient = false

-- `uint64(config.MaxDeliver)`
abbrev pub delivered_out : ℕ → ℤ → Bool
delivered_out attempts (pos n) = leb n attempts
delivered_out attempts (negsuc n) = leb (18446744073709551615 - n) attempts

unfoldable pub dead_letter_of :
    (Text → Text) → (Text → Option Text) → PullRunnerConfig → Time → Message → Text → DeadLetter
dead_letter_of sha256_hex json_event_id c now m reason = record {
  event_id = message_event_id sha256_hex json_event_id m.payload;
  consumer = c.durable;
  original_subject = m.subject;
  attempts = attempts_of m;
  reason = reason;
  created_at = now;
}

-- `retryMessage`; the dead letter publisher, if there is one, answers whether it could publish.
unfoldable pub retry_message :
    (Text → Text)
    → (Text → Option Text)
    → PullRunnerConfig
    → Option (DeadLetter → Bool)
    → Time
    → Message
    → HandlerError
    → Settlement
unfolding error_class runner_retry_delay dead_letter_of attempts_of
retry_message sha256_hex json_event_id c dlq now m failure =
    let (class, reason) = error_class failure in
    let again = Settlement.nak_with_delay (runner_retry_delay c (attempts_of m)) in
    if is_deterministic class || delivered_out (attempts_of m) c.max_deliver
    then elim dlq [
      | none ↦ again
      | some publish ↦
          if publish (dead_letter_of sha256_hex json_event_id c now m reason)
          then Settlement.term_with_reason reason
          else Settlement.publish_failed
    ]
    else again
