-- ===== src/Records/Feed/Replay.antt =====
-- A replay misses nothing: the life of a feed with all that was published.
use record_hub.Base.{
  ℕ, ◌≤◌, ◌<◌, text_eq, nat_eq, Bool, true, false, ◌||◌, List, [], ◌∷◌, ◌++◌, filter, All, Result,
  ok, reject_if, ℤ, pos, negsuc, Time, ◌≡◌, refl, sym, ap, ◌∙◌, arith, >>=-eq-ok,
}
use mathlib.Core.Path.{subst}
use record_hub.Base.Trim.{is_blank}
use record_hub.Records.Feed.{
  Error, RecordChange, Scope, RecordFeed, new_record_feed, validate_change, stamped, is_duplicate,
  appended, publish, subscribe, unsubscribe, is_expired, is_replayed, replay_of, or_default,
}
use record_hub.Records.Feed.Laws.{Ends, IsValid, appended-IsValid}

-- The feeds that can be reached from a new one, with all changes that were accepted on the way, the
-- first one first. The counter, a uint64, does not wrap.
pub data Published : RecordFeed → List RecordChange → Type 0 where
  created : (limit buffer : ℤ) → Published (new_record_feed limit buffer) []
  repeated :
      {feed : RecordFeed} {log : List RecordChange} (now : Time) (c : RecordChange)
      (feed' : RecordFeed)
      → Published feed log
      → publish now c feed ≡ ok feed'
      → is_duplicate feed c ≡ true
      → Published feed' log
  accepted :
      {feed : RecordFeed} {log : List RecordChange} (now : Time) (c : RecordChange)
      (feed' : RecordFeed)
      → Published feed log
      → publish now c feed ≡ ok feed'
      → is_duplicate feed c ≡ false
      → feed.next_id < 18446744073709551615
      → Published feed' (log ++ (stamped now feed c ∷ []))
  subscribed :
      {feed : RecordFeed} {log : List RecordChange} (s : Scope) (after : ℕ) (buffer : ℤ)
      (replay : List RecordChange) (key : ℕ) (feed' : RecordFeed)
      → Published feed log
      → subscribe s after buffer feed ≡ ok (replay, key, feed')
      → Published feed' log
  closed :
      {feed : RecordFeed} {log : List RecordChange} (key : ℕ)
      → Published feed log
      → Published (unsubscribe key feed) log

publish-duplicate :
    (now : Time) (c : RecordChange) (feed feed' : RecordFeed)
    → publish now c feed ≡ ok feed'
    → is_duplicate feed c ≡ true
    → feed ≡ feed'
unfolding publish
publish-duplicate now c feed feed' h d =
    let (u, valid, rest) = >>=-eq-ok (validate_change c) _ h in ground (arith, rest, d)

publish-appended :
    (now : Time) (c : RecordChange) (feed feed' : RecordFeed)
    → publish now c feed ≡ ok feed'
    → is_duplicate feed c ≡ false
    → appended (stamped now feed c) feed ≡ feed'
unfolding publish
publish-appended now c feed feed' h d =
    let (u, valid, rest) = >>=-eq-ok (validate_change c) _ h in
    let e : ◌≡◌ {A = Result Error RecordFeed} (ok (appended (stamped now feed c) feed)) (ok feed') =
      rw d at rest in
    cc

subscribe-IsValid :
    (s : Scope) (after : ℕ) (buffer : ℤ) (replay : List RecordChange) (key : ℕ)
    (feed feed' : RecordFeed) (log : List RecordChange)
    → subscribe s after buffer feed ≡ ok (replay, key, feed')
    → IsValid feed log
    → IsValid feed' log
      × (is_expired after feed.history ≡ false)
      × (replay ≡ replay_of s after feed.history)
unfolding subscribe
subscribe-IsValid s after buffer replay key feed feed' log h v =
    let (u, named, h1) =
      >>=-eq-ok
        (reject_if (is_blank s.tenant_id || is_blank s.workspace_id || is_blank s.table_id)
          Error.scope_required)
        _ h in
    let (u', fresh, h2) =
      >>=-eq-ok (reject_if (is_expired after feed.history) Error.cursor_expired) _ h1 in
    let history : feed.history ≡ feed'.history = cc in
    let limit : feed.history_limit ≡ feed'.history_limit = cc in
    let next : feed.next_id ≡ feed'.next_id = cc in
    let answer : replay_of s after feed.history ≡ replay = cc in
    (rw (sym history, sym limit, sym next) v, ground arith, sym answer)

at_least_one : (limit : ℤ) → 1 ≤ or_default limit 2048
at_least_one (pos n) = ground arith
at_least_one (negsuc n) = ground arith

Published-IsValid :
    (feed : RecordFeed) (log : List RecordChange) → Published feed log → IsValid feed log
unfolding new_record_feed unsubscribe
Published-IsValid feed log (created limit buffer) = record {
  start = 0;
  old = [];
  split = refl;
  old_ids = tt;
  numbered = tt;
  counter = refl;
  bounded = ground arith;
  limited = at_least_one limit;
  kept = λ h. refl;
}
Published-IsValid feed log (repeated {feed = f} now c feed' p h d) =
    subst (λ x. IsValid x log) (publish-duplicate now c f feed h d) (Published-IsValid f log p)
Published-IsValid feed log (accepted {feed = f} {log = l} now c feed' p h d small) =
    subst (λ x. IsValid x (l ++ (stamped now f c ∷ []))) (publish-appended now c f feed h d)
      (appended-IsValid f (stamped now f c) l (Published-IsValid f l p) (ground (arith, small)))
Published-IsValid feed log (subscribed {feed = f} s after buffer replay key feed' p h) =
    (subscribe-IsValid s after buffer replay key f feed log h (Published-IsValid f log p)).0
Published-IsValid feed log (closed {feed = f} key p) = Published-IsValid f log p

filter-append :
    (p : RecordChange → Bool) (xs ys : List RecordChange)
    → filter p (xs ++ ys) ≡ filter p xs ++ filter p ys
filter-append p [] ys = refl
filter-append p (x ∷ xs) ys = ground (arith, filter-append p xs ys)

filter-old :
    (s : Scope) (after start : ℕ) (old : List RecordChange)
    → start ≤ after
    → All (λ c. c.id ≤ start) old
    → filter (is_replayed s after) old ≡ []
filter-old s after start [] le ids = refl
filter-old s after start (c ∷ old) le ids =
    ground (arith, filter-old s after start old le ids.1, ids.0)

-- What is newer than a cursor that has not expired is in the history.
Ends-filter :
    (history : List RecordChange) (limit next : ℕ) (log : List RecordChange) (s : Scope) (after : ℕ)
    → Ends history limit next log
    → 0 < after
    → is_expired after history ≡ false
    → filter (is_replayed s after) history ≡ filter (is_replayed s after) log
Ends-filter [] limit next log s after v some_ h =
    let gone : v.old ≡ [] = v.kept refl in
    let nothing : log ≡ [] = v.split ∙ ap (λ x. x ++ []) gone in rw nothing refl
Ends-filter (c ∷ history) limit next log s after v some_ h =
    let le : v.start ≤ after = ground (arith, v.numbered.0) in
    let none_ = filter-old s after v.start v.old le v.old_ids in
    sym (
      ap (filter (is_replayed s after)) v.split
      ∙ filter-append (is_replayed s after) v.old (c ∷ history)
      ∙ ap (λ x. x ++ filter (is_replayed s after) (c ∷ history)) none_)

-- A subscription to a reachable feed that is granted for a cursor replays every change of its scope
-- with a later identifier that was ever accepted, in the order of acceptance, and nothing else.
pub replay_complete :
    (feed : RecordFeed) (log : List RecordChange) (s : Scope) (after : ℕ) (buffer : ℤ)
    (replay : List RecordChange) (key : ℕ) (feed' : RecordFeed)
    → Published feed log
    → 0 < after
    → subscribe s after buffer feed ≡ ok (replay, key, feed')
    → replay ≡ filter (is_replayed s after) log
replay_complete feed log s after buffer replay key feed' p some_ h =
    let v = Published-IsValid feed log p in
    let (v', fresh, e) = subscribe-IsValid s after buffer replay key feed feed' log h v in
    let all = Ends-filter feed.history feed.history_limit feed.next_id log s after v some_ fresh in
    ground (arith, e, all)
