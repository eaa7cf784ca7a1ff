-- ===== src/Records/Feed.antt =====
-- server/internal/modules/records/feed.go: RecordFeed, the bounded broker of record changes. Its
-- methods run under one mutex. A subscriber's channel is its queue with the capacity.
-- parseFeedCursor and the HTTP stream over a subscription are not modelled.
pub mod Laws
pub mod Replay
mod Tests
use record_hub.Base.{
  ℕ, ◌+◌, ◌-◌, Text, text_eq, nat_eq, codes, is_empty, Bool, true, false, not, ◌&&◌, ◌||◌, ◌==◌,
  ◌!=◌, List, [], ◌∷◌, ◌++◌, length, filter, Option, none, some, Result, ok, err, ◌>>=◌, ◌>>◌,
  reject_if, if◌then◌else◌, ltb, leb, ℤ, pos, ltb_ℤ, Time, is_zero,
}
use record_hub.Base.Map.{lookup, insert, erase}
use record_hub.Base.Trim.{is_blank}

pub data Error : Type 0 where
  cursor_expired cursor_invalid slow_consumer scope_required : Error

pub record RecordChange : Type 0 where
  pub id : ℕ
  pub tenant_id : Text
  pub workspace_id : Text
  pub table_id : Text
  pub record_id : Text
  pub record_version : ℤ
  pub change_type : Text
  pub last_event_id : Text
  pub occurred_at : Time
  pub dedup_key : Text

pub record Scope : Type 0 where
  pub tenant_id : Text
  pub workspace_id : Text
  pub table_id : Text

pub record Subscriber : Type 0 where
  pub scope : Scope
  pub events : List RecordChange
  pub capacity : ℕ

pub record RecordFeed : Type 0 where
  pub history : List RecordChange
  pub history_limit : ℕ
  pub subscriber_buf : ℕ
  pub next_id : ℕ
  pub next_subscriber : ℕ
  pub subscribers : List (ℕ × Subscriber)
  pub dedup : List (Text × ℕ)
  pub dropped : ℕ

abbrev pub or_default : ℤ → ℕ → ℕ
or_default (pos n) fallback = if leb n 0 then fallback else n
or_default _ fallback = fallback

unfoldable pub new_record_feed : ℤ → ℤ → RecordFeed
new_record_feed history_limit subscriber_buffer = record {
  history = [];
  history_limit = or_default history_limit 2048;
  subscriber_buf = or_default subscriber_buffer 64;
  next_id = 0;
  next_subscriber = 0;
  subscribers = [];
  dedup = [];
  dropped = 0;
}

-- `x++` on a uint64.
abbrev pub inc_uint64 : ℕ → ℕ
inc_uint64 n = if ltb n 18446744073709551615 then n + 1 else 0

unfoldable pub validate_change : RecordChange → Result Error (Unit {0})
validate_change c = do
  reject_if
      (is_blank c.tenant_id
        || is_blank c.workspace_id
        || is_blank c.table_id
        || is_blank c.record_id)
      Error.scope_required
  reject_if
      (ltb_ℤ c.record_version (pos 0)
        || (c.change_type != codes "upsert" && c.change_type != codes "delete"))
      Error.cursor_invalid

abbrev pub matches : Scope → RecordChange → Bool
matches s c =
    s.tenant_id == c.tenant_id && s.workspace_id == c.workspace_id && s.table_id == c.table_id

-- The key of the change that leaves the history is forgotten.
abbrev pub forget : Text → List (Text × ℕ) → List (Text × ℕ)
forget key dedup = if is_empty key then dedup else erase key dedup

-- The history after an append, and the keys that are kept: past the limit the oldest change leaves.
abbrev pub trimmed : ℕ → List RecordChange → List (Text × ℕ) → List RecordChange × List (Text × ℕ)
trimmed limit [] dedup = ([], dedup)
trimmed limit (oldest ∷ history) dedup =
    if ltb limit (length (oldest ∷ history))
    then (history, forget oldest.dedup_key dedup)
    else (oldest ∷ history, dedup)

abbrev pub remember : RecordChange → List (Text × ℕ) → List (Text × ℕ)
remember c dedup = if is_empty c.dedup_key then dedup else insert c.dedup_key c.id dedup

-- One subscriber after a change: it stays, or it is dropped because its channel is full.
abbrev offered : RecordChange → Subscriber → Option Subscriber
offered c s =
    if not (matches s.scope c)
    then some s
    else if ltb (length s.events) s.capacity
    then some (record s { events = s.events ++ (c ∷ []) })
    else none

abbrev kept : ℕ → Option Subscriber → List (ℕ × Subscriber) × ℕ → List (ℕ × Subscriber) × ℕ
kept key (some s) (others, dropped) = ((key, s) ∷ others, dropped)
kept key none (others, dropped) = (others, dropped + 1)

-- The loop over the subscribers: those that stay, and how many were dropped.
unfoldable pub delivered : RecordChange → List (ℕ × Subscriber) → List (ℕ × Subscriber) × ℕ
delivered c [] = ([], 0)
delivered c ((key, s) ∷ subscribers) = kept key (offered c s) (delivered c subscribers)

-- The change as it is stored, at the clock's reading `now`.
abbrev pub stamped : Time → RecordFeed → RecordChange → RecordChange
stamped now feed c = record c {
  id = inc_uint64 feed.next_id;
  occurred_at = if is_zero c.occurred_at then now else c.occurred_at;
}

abbrev pub is_known : Option ℕ → Bool
is_known none = false
is_known (some id) = true

abbrev pub is_duplicate : RecordFeed → RecordChange → Bool
is_duplicate feed c = not (is_empty c.dedup_key) && is_known (lookup c.dedup_key feed.dedup)

-- What Publish does with a change that is neither invalid nor a duplicate.
unfoldable pub appended : RecordChange → RecordFeed → RecordFeed
unfolding delivered
appended c feed =
    let (history, dedup) = trimmed feed.history_limit (feed.history ++ (c ∷ [])) feed.dedup in
    let (subscribers, gone) = delivered c feed.subscribers in
    record feed {
      history = history;
      next_id = c.id;
      subscribers = subscribers;
      dedup = remember c dedup;
      dropped = feed.dropped + gone;
    }

-- `Publish`
unfoldable pub publish : Time → RecordChange → RecordFeed → Result Error RecordFeed
publish now c feed = do
  validate_change c
  if is_duplicate feed c then ok feed else ok (appended (stamped now feed c) feed)

-- `afterID > 0 && len(feed.history) > 0 && afterID < feed.history[0].ID-1`
abbrev pub is_expired : ℕ → List RecordChange → Bool
is_expired after [] = false
is_expired after (oldest ∷ history) = ltb 0 after && ltb after (oldest.id - 1)

abbrev pub is_replayed : Scope → ℕ → RecordChange → Bool
is_replayed s after c = ltb after c.id && matches s c

abbrev pub replay_of : Scope → ℕ → List RecordChange → List RecordChange
replay_of s after history = if ltb 0 after then filter (is_replayed s after) history else []

abbrev at_least : ℕ → ℕ → ℕ
at_least n m = if ltb n m then m else n

abbrev at_most : ℕ → ℕ → ℕ
at_most n m = if ltb m n then m else n

abbrev buffer_size : RecordFeed → ℤ → List RecordChange → ℕ
buffer_size feed buffer replay =
    at_most (at_least (or_default buffer feed.subscriber_buf) (length replay + 1))
      (feed.history_limit + feed.subscriber_buf)

-- `Subscribe`: the replay, the subscriber's key, and the feed.
unfoldable pub subscribe :
    Scope → ℕ → ℤ → RecordFeed → Result Error (List RecordChange × ℕ × RecordFeed)
subscribe s after buffer feed = do
  reject_if (is_blank s.tenant_id || is_blank s.workspace_id || is_blank s.table_id)
      Error.scope_required
  reject_if (is_expired after feed.history) Error.cursor_expired
  let replay = replay_of s after feed.history
  let key = inc_uint64 feed.next_subscriber
  let subscriber : Subscriber = record {
    scope = s;
    events = [];
    capacity = buffer_size feed buffer replay;
  }
  ok (
    replay,
    key,
    record feed { next_subscriber = key; subscribers = insert key subscriber feed.subscribers },
  )

-- The `close` of a subscription, of the subscriber under that key.
unfoldable pub unsubscribe : ℕ → RecordFeed → RecordFeed
unsubscribe key feed = record feed { subscribers = erase key feed.subscribers }
