-- ===== src/Web/Session/UsedOnce.antt =====
-- A state of session.go completes one login.
use record_hub.Base.{
  Text, text_eq, Text-discrete, Bool, true, false, not, ◌&&◌, ◌+ℤ◌, ◌==◌, List, [], ◌∷◌, length,
  filter, all, leb, Bool-cases, Option, none, some, Result, ok, err, if◌then◌else◌, ℤ, Time, ◌≡◌,
  ◌≢◌, inl, inr, refl, arith,
}
use record_hub.Base.Map.{lookup, insert, lookup-insert, lookup-erase}
use record_hub.Web.Session.{
  Error, PendingState, Codec, Pendings, max_pending_states, alive, sweep, Started, kept,
  begin_pending, check_cookie, consumed, consume_pending, pending_ttl,
}
use record_hub.Web.Session.Pending.{Call, begin_call, consume_call, run}

head_false : (b rest : Bool) → (not b && rest) ≡ true → b ≡ false
head_false true rest h = absurd (ground arith)
head_false false rest h = refl

tail_true : (b rest : Bool) → (not b && rest) ≡ true → rest ≡ true
tail_true true rest h = absurd (ground arith)
tail_true false rest h = h

-- Whether a call begins a login with that state.
abbrev pub begins : Text → Call → Bool
begins state (begin_call ttl now later (some s) n v) = s == state
begins state _ = false

module _ {V : Type 0} where
  lookup-filter :
      (p : Text × V → Bool) (key : Text) (m : List (Text × V))
      → lookup key m ≡ none
      → lookup key (filter p m) ≡ none
  unfolding lookup
  lookup-filter p key [] h = refl
  lookup-filter p key ((k, w) ∷ m) h = elim (Text-discrete k key) [
    | yes same ↦ absurd (ground arith)
    | no other ↦ elim (Bool-cases (p (k, w))) [
      | inl stays ↦ ground (arith, lookup-filter p key m)
      | inr goes ↦ ground (arith, lookup-filter p key m)
    ]
  ]

module _ (codec : Codec) where
  kept-gone :
      (s : Started) (p : PendingState) (json : Option Text) (pending : Pendings) (state : Text)
      → s.state ≢ state
      → lookup state pending ≡ none
      → lookup state (kept codec s p json pending).1 ≡ none
  unfolding kept
  kept-gone s p none pending state other gone = ground (
    arith,
    lookup-erase s.state state (insert s.state p pending),
    lookup-insert s.state state p pending,
  )
  kept-gone s p (some json) pending state other gone =
      ground (arith, lookup-insert s.state state p pending)

  begun-gone :
      (full : Bool) (s : Started) (p : PendingState) (json : Option Text) (swept : Pendings)
      (state : Text)
      → s.state ≢ state
      → lookup state swept ≡ none
      → lookup state
          (if full then (err Error.too_many_pending, swept) else kept codec s p json swept).1
        ≡ none
  begun-gone true s p json swept state other gone = gone
  begun-gone false s p json swept state other gone = kept-gone s p json swept state other gone

  begin-gone :
      (ttl : ℤ) (now later : Time) (s n v : Option Text) (pending : Pendings) (state : Text)
      → begins state (begin_call ttl now later s n v) ≡ false
      → lookup state pending ≡ none
      → lookup state (begin_pending codec ttl now later s n v pending).1 ≡ none
  unfolding begin_pending sweep
  begin-gone ttl now later (some fresh) (some nonce) (some verifier) pending state other gone =
      let expires = now +ℤ pending_ttl ttl in
      let swept = sweep later pending in
      begun-gone (leb max_pending_states (length swept))
        (record { state = fresh; nonce = nonce; verifier = verifier; cookie = [] })
        (record { nonce = nonce; code_verifier = verifier; expires_at = expires })
        (codec.pending_json (record { state = fresh; expires_at = codec.unix expires })) swept state
        (ground arith) (lookup-filter (λ (key, p). alive later p) state pending gone)
  begin-gone ttl now later (some fresh) (some nonce) none pending state other gone = gone
  begin-gone ttl now later (some fresh) none v pending state other gone = gone
  begin-gone ttl now later none n v pending state other gone = gone

  consumed-gone :
      (later : Time) (used state : Text) (pending : Pendings) (r : Result Error (Unit {0}))
      → lookup state pending ≡ none
      → lookup state (consumed later used pending r).1 ≡ none
  consumed-gone later used state pending (err e) gone = gone
  consumed-gone later used state pending (ok u) gone =
      ground (arith, lookup-erase used state pending)

  run-gone :
      (calls : List Call) (pending : Pendings) (state : Text)
      → all (λ call. not (begins state call)) calls ≡ true
      → lookup state pending ≡ none
      → lookup state (run codec calls pending) ≡ none
  unfolding run consume_pending
  run-gone [] pending state fresh gone = gone
  run-gone (begin_call ttl now later s n v ∷ calls) pending state fresh gone =
      run-gone calls (begin_pending codec ttl now later s n v pending).1 state (rest fresh)
        (begin-gone ttl now later s n v pending state (first fresh) gone)
    where
      first :
          all (λ call. not (begins state call)) (begin_call ttl now later s n v ∷ calls) ≡ true
          → begins state (begin_call ttl now later s n v) ≡ false
      first h = head_false (begins state (begin_call ttl now later s n v)) _ h

      rest :
          all (λ call. not (begins state call)) (begin_call ttl now later s n v ∷ calls) ≡ true
          → all (λ call. not (begins state call)) calls ≡ true
      rest h = tail_true (begins state (begin_call ttl now later s n v)) _ h
  run-gone (consume_call now later cookie used ∷ calls) pending state fresh gone =
      run-gone calls (consume_pending codec now later cookie used pending).1 state
        (tail_true false _ fresh)
        (consumed-gone later used state pending (check_cookie codec now cookie used) gone)

  consumed-erased :
      (later : Time) (state : Text) (pending : Pendings) (r : Result Error (Unit {0}))
      (p : PendingState)
      → (consumed later state pending r).0 ≡ ok p
      → lookup state (consumed later state pending r).1 ≡ none
  consumed-erased later state pending (err e) p h = absurd (ground arith)
  consumed-erased later state pending (ok u) p h = ground (arith, lookup-erase state state pending)

  consumed-refused :
      (later : Time) (state : Text) (pending : Pendings) (r : Result Error (Unit {0}))
      → lookup state pending ≡ none
      → (e : Error) × ((consumed later state pending r).0 ≡ err e)
  consumed-refused later state pending (err e) gone = (e, refl)
  consumed-refused later state pending (ok u) gone = (Error.invalid_state, ground arith)

  -- A state that completed a login completes no other: whatever calls follow, unless one begins a
  -- login with the same state, consuming it again fails, with whatever cookie.
  pub state_used_once :
      (now later now' later' : Time) (cookie cookie' : Option Text) (state : Text)
      (pending : Pendings) (p : PendingState) (calls : List Call)
      → (consume_pending codec now later cookie state pending).0 ≡ ok p
      → all (λ call. not (begins state call)) calls ≡ true
      → let pending' = run codec calls (consume_pending codec now later cookie state pending).1 in
        (e : Error) × ((consume_pending codec now' later' cookie' state pending').0 ≡ err e)
  unfolding consume_pending
  state_used_once now later now' later' cookie cookie' state pending p calls used fresh =
      let pending1 = (consume_pending codec now later cookie state pending).1 in
      consumed-refused later' state (run codec calls pending1)
        (check_cookie codec now' cookie' state)
        (run-gone calls pending1 state fresh
          (consumed-erased later state pending (check_cookie codec now cookie state) p used))
