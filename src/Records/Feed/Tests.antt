-- ===== src/Records/Feed/Tests.antt =====
-- The feed on concrete changes.
use record_hub.Base.{
  ℕ, Text, codes, Bool, true, false, List, [], ◌∷◌, ◌++◌, filter, Option, none, some, Result, ok,
  err, ℤ, pos, Time, is_empty, ◌≡◌, refl, arith,
}
use record_hub.Records.Feed.{
  RecordChange, Scope, RecordFeed, new_record_feed, stamped, is_duplicate, appended, publish,
  subscribe, is_replayed,
}
use record_hub.Records.Feed.Replay.{Published, replay_complete}

abbrev change : RecordChange
change = record {
  id = 0;
  tenant_id = codes "t";
  workspace_id = codes "w";
  table_id = codes "bids";
  record_id = codes "r1";
  record_version = pos 1;
  change_type = codes "upsert";
  last_event_id = [];
  occurred_at = pos 5;
  dedup_key = codes "k1";
}

abbrev other_change : RecordChange
other_change = record change { record_id = codes "r2"; dedup_key = codes "k2" }

abbrev scope : Scope
scope = record { tenant_id = codes "t"; workspace_id = codes "w"; table_id = codes "bids" }

abbrev empty : RecordFeed
empty = record {
  history = [];
  history_limit = 8;
  subscriber_buf = 4;
  next_id = 0;
  next_subscriber = 0;
  subscribers = [];
  dedup = [];
  dropped = 0;
}

abbrev one : RecordFeed
one = record empty {
  history = record change { id = 1 } ∷ [];
  next_id = 1;
  dedup = (codes "k1", 1) ∷ [];
}

abbrev two : RecordFeed
two = record empty {
  history = record change { id = 1 } ∷ record other_change { id = 2 } ∷ [];
  next_id = 2;
  dedup = (codes "k1", 1) ∷ (codes "k2", 2) ∷ [];
}

abbrev log : List RecordChange
log = record change { id = 1 } ∷ record other_change { id = 2 } ∷ []

empty_new : new_record_feed (pos 8) (pos 4) ≡ empty
unfolding new_record_feed
empty_new = refl

one_published : publish (pos 5) change empty ≡ ok one
unfolding publish record_hub.Records.Feed.validate_change record_hub.Base.Trim.is_blank
    record_hub.Base.ℕ_discrete record_hub.Base.Text-discrete record_hub.Base.Map.lookup appended
    record_hub.Base.ℤ-discrete record_hub.Base.Map.insert
one_published = refl

two_published : publish (pos 6) other_change one ≡ ok two
unfolding publish record_hub.Records.Feed.validate_change record_hub.Base.Trim.is_blank
    record_hub.Base.ℕ_discrete record_hub.Base.Text-discrete record_hub.Base.Map.lookup appended
    record_hub.Base.ℤ-discrete record_hub.Base.Map.insert
two_published = refl

one_new : is_duplicate empty change ≡ false
unfolding record_hub.Base.Map.lookup
one_new = refl

two_new : is_duplicate one other_change ≡ false
unfolding record_hub.Base.Map.lookup record_hub.Base.Text-discrete
two_new = refl

empty-Published : Published empty []
unfolding new_record_feed
empty-Published = Published.created (pos 8) (pos 4)

two-Published : Published two log
unfolding record_hub.Base.ℤ-discrete
two-Published =
    Published.accepted (pos 6) other_change two
      (Published.accepted (pos 5) change one empty-Published one_published one_new (omega arith))
      two_published two_new (omega arith)

abbrev watched : RecordFeed
watched = record two {
  next_subscriber = 1;
  subscribers = (1, record { scope = scope; events = []; capacity = 4 }) ∷ [];
}

watch : subscribe scope 1 (pos 0) two ≡ ok (record other_change { id = 2 } ∷ [], 1, watched)
unfolding subscribe record_hub.Base.Trim.is_blank record_hub.Base.ℕ_discrete
    record_hub.Base.Text-discrete record_hub.Base.Map.insert
watch = refl

replay_complete_example : record other_change { id = 2 } ∷ [] ≡ filter (is_replayed scope 1) log
replay_complete_example =
    replay_complete two log scope 1 (pos 0) (record other_change { id = 2 } ∷ []) 1 watched
      two-Published (omega arith) watch
