-- ===== src/Projection/Runner/Tests.antt =====
-- The runner's default configuration, and a message that always fails.
use record_hub.Base.{
  ℕ, ◌≤◌, Text, codes, Bool, true, List, [], ◌∷◌, length, is_empty, false, Option, none, some,
  Result, ok, ℤ, pos, ◌≤ℤ◌, Time, ◌≡◌, refl,
}
use record_hub.Projection.Retry.{HandlerError, DeadLetter}
use record_hub.Projection.Runner.{
  PullRunnerConfig, milliseconds, seconds, with_defaults, validate_config, runner_retry_delay,
  Message,
}
use record_hub.Projection.Runner.Bounds.{retry_delay_bounded}
use record_hub.Projection.Runner.Ends.{ended_at, ends_by_max_deliver}

abbrev unset : PullRunnerConfig
unset = record {
  stream = codes "EVENTS";
  durable = codes "bids";
  batch_size = pos 0;
  max_deliver = pos 0;
  backoff = [];
  fetch_timeout = pos 0;
  ack_timeout = pos 0;
  retry_delay = pos 0;
  drain_timeout = pos 0;
}

unset_valid : validate_config (with_defaults unset) ≡ ok tt
unfolding validate_config record_hub.Base.Trim.is_blank with_defaults record_hub.Base.ℕ_discrete
    record_hub.Base.ℤ-discrete
unset_valid = refl

retry_delay_bounded_example :
    (milliseconds 10 ≤ℤ runner_retry_delay (with_defaults unset) 7)
    × (runner_retry_delay (with_defaults unset) 7 ≤ℤ seconds 30)
retry_delay_bounded_example = retry_delay_bounded (with_defaults unset) unset_valid 7

abbrev plain : Text → Text
plain s = s

abbrev no_id : Text → Option Text
no_id s = none

abbrev works : DeadLetter → Bool
works l = true

abbrev clock : ℕ → Time
clock n = pos n

abbrev message : Message
message = record { subject = codes "bids.closed"; payload = codes "{}"; num_delivered = none }

abbrev fails : ℕ → HandlerError
fails n = HandlerError.other_error

five_deliveries : (with_defaults unset).max_deliver ≡ pos 5
unfolding with_defaults record_hub.Base.ℤ-discrete
five_deliveries = refl

works_always : (l : DeadLetter) → works l ≡ true
works_always l = refl

ends_by_max_deliver_example :
    (k : ℕ) × (ended_at plain no_id (with_defaults unset) works clock message fails 5 1 ≡ some k)
    × (k ≤ 5)
ends_by_max_deliver_example =
    ends_by_max_deliver plain no_id (with_defaults unset) works clock message fails 5 unset_valid
      five_deliveries works_always
