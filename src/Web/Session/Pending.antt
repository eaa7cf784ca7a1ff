-- ===== src/Web/Session/Pending.antt =====
-- The calls that change the pending logins, of session.go: their number.
use record_hub.Base.{
  ◌+◌, ◌≤◌, Text, text_eq, Text-discrete, Bool, true, false, ◌+ℤ◌, List, [], ◌∷◌, length, filter,
  leb, Option, none, some, Result, ok, err, if◌then◌else◌, ℤ, Time, ◌≡◌, refl, arith,
}
use record_hub.Base.Map.{insert, erase}
use record_hub.Web.Session.{
  Error, PendingState, Codec, Pendings, max_pending_states, alive, sweep, Started, kept,
  begin_pending, check_cookie, consumed, consume_pending, pending_ttl,
}

-- The calls that change the pending logins.
pub data Call : Type 0 where
  begin_call : ℤ → Time → Time → Option Text → Option Text → Option Text → Call
  consume_call : Time → Time → Option Text → Text → Call

module _ {V : Type 0} where
  length-insert :
      (key : Text) (v : V) (m : List (Text × V)) → length (insert key v m) ≤ length m + 1
  unfolding insert
  length-insert key v [] = omega arith
  length-insert key v ((k, w) ∷ m) = elim (Text-discrete k key) [
    | yes same ↦ ground arith
    | no other ↦ ground (arith, length-insert key v m)
  ]

  length-erase : (key : Text) (m : List (Text × V)) → length (erase key m) ≤ length m
  unfolding erase
  length-erase key [] = omega arith
  length-erase key ((k, w) ∷ m) = ground (arith, length-erase key m)

  length-filter : (p : Text × V → Bool) (m : List (Text × V)) → length (filter p m) ≤ length m
  length-filter p [] = omega arith
  length-filter p (entry ∷ m) = ground (arith, length-filter p m)

module _ (codec : Codec) where
  abbrev pub step : Call → Pendings → Pendings
  step (begin_call ttl now later s n v) pending =
      (begin_pending codec ttl now later s n v pending).1
  step (consume_call now later cookie state) pending =
      (consume_pending codec now later cookie state pending).1

  unfoldable pub run : List Call → Pendings → Pendings
  run [] pending = pending
  run (call ∷ calls) pending = run calls (step call pending)

  kept-bounded :
      (s : Started) (p : PendingState) (json : Option Text) (pending : Pendings)
      → length pending + 1 ≤ max_pending_states
      → length (kept codec s p json pending).1 ≤ max_pending_states
  unfolding kept
  kept-bounded s p none pending fits = omega (
    arith,
    fits,
    length-insert s.state p pending,
    length-erase s.state (insert s.state p pending),
  )
  kept-bounded s p (some json) pending fits = omega (arith, fits, length-insert s.state p pending)

  begun-bounded :
      (full : Bool) (s : Started) (p : PendingState) (json : Option Text) (swept : Pendings)
      → leb max_pending_states (length swept) ≡ full
      → length swept ≤ max_pending_states
      → length (if full then (err Error.too_many_pending, swept) else kept codec s p json swept).1
        ≤ max_pending_states
  begun-bounded true s p json swept h fits = fits
  begun-bounded false s p json swept h fits = kept-bounded s p json swept (ground arith)

  begin-bounded :
      (ttl : ℤ) (now later : Time) (s n v : Option Text) (pending : Pendings)
      → length pending ≤ max_pending_states
      → length (begin_pending codec ttl now later s n v pending).1 ≤ max_pending_states
  unfolding begin_pending sweep
  begin-bounded ttl now later (some state) (some nonce) (some verifier) pending fits =
      let expires = now +ℤ pending_ttl ttl in
      let swept = sweep later pending in
      begun-bounded (leb max_pending_states (length swept))
        (record { state = state; nonce = nonce; verifier = verifier; cookie = [] })
        (record { nonce = nonce; code_verifier = verifier; expires_at = expires })
        (codec.pending_json (record { state = state; expires_at = codec.unix expires })) swept refl
        (omega (arith, fits, length-filter (λ (key, p). alive later p) pending))
  begin-bounded ttl now later (some state) (some nonce) none pending fits = fits
  begin-bounded ttl now later (some state) none v pending fits = fits
  begin-bounded ttl now later none n v pending fits = fits

  consumed-bounded :
      (later : Time) (state : Text) (pending : Pendings) (r : Result Error (Unit {0}))
      → length pending ≤ max_pending_states
      → length (consumed later state pending r).1 ≤ max_pending_states
  consumed-bounded later state pending (err e) fits = fits
  consumed-bounded later state pending (ok u) fits = omega (arith, fits, length-erase state pending)

  -- However logins begin and end, no more than 1024 are pending.
  pub pendings_bounded :
      (calls : List Call) (pending : Pendings)
      → length pending ≤ max_pending_states
      → length (run calls pending) ≤ max_pending_states
  unfolding run consume_pending
  pendings_bounded [] pending fits = fits
  pendings_bounded (begin_call ttl now later s n v ∷ calls) pending fits =
      pendings_bounded calls (begin_pending codec ttl now later s n v pending).1
        (begin-bounded ttl now later s n v pending fits)
  pendings_bounded (consume_call now later cookie state ∷ calls) pending fits =
      pendings_bounded calls (consume_pending codec now later cookie state pending).1
        (consumed-bounded later state pending (check_cookie codec now cookie state) fits)
