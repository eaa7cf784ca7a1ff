-- ===== src/Web/Session.antt =====
-- server/internal/web/session.go: SessionManager, its signed cookies and the pending logins, which a
-- mutex guards. Base64, the HMAC under the secret, JSON and the seconds of an instant are parameters;
-- a cookie is its value, and the attributes that it is set with are left out.
pub mod Opened
pub mod Pending
pub mod Signed
pub mod UsedOnce
mod Tests
use record_hub.Base.{
  ℕ, ◌*◌, Text, text_eq, codes, is_empty, split, Bool, true, false, not, ◌&&◌, ◌||◌, ◌==◌, ◌!=◌,
  List, [], ◌∷◌, ◌++◌, length, filter, ltb, leb, ltb_ℤ, leb_ℤ, Option, none, some, Result, ok, err,
  ◌>>=◌, ◌>>◌, reject_if, if◌then◌else◌, ℤ, pos, ◌+ℤ◌, Time,
}
use record_hub.Base.Map.{lookup, insert, erase}
use record_hub.Base.Trim.{is_blank}
use record_hub.Identity.Principal.{Principal, PrincipalKind, kind_eq}

pub data Error : Type 0 where
  invalid_session invalid_state random_failed too_many_pending encoding_failed secret_short
        ttl_invalid :
      Error

pub record PendingState : Type 0 where
  pub nonce : Text
  pub code_verifier : Text
  pub expires_at : Time

pub record PendingCookie : Type 0 where
  pub state : Text
  pub expires_at : ℤ

pub record SessionCookie : Type 0 where
  pub kind : PrincipalKind
  pub issuer : Text
  pub subject : Text
  pub audience : List Text
  pub expires_at : ℤ

-- What the manager uses of libraries, under its secret.
pub record Codec : Type 0 where
  pub encode64 : Text → Text
  pub decode64 : Text → Option Text
  pub mac : Text → Text
  pub pending_json : PendingCookie → Option Text
  pub parse_pending : Text → Option PendingCookie
  pub session_json : SessionCookie → Option Text
  pub parse_session : Text → Option SessionCookie
  pub unix : Time → ℤ

abbrev pub Pendings : Type 0
Pendings = List (Text × PendingState)

abbrev pub max_pending_states : ℕ
max_pending_states = 1024

abbrev pub seconds : ℕ → ℤ
seconds n = pos (n * 1000000000)

-- `NewSessionManager`: the checks of the secret's length and of the lifetime.
unfoldable pub check_manager : ℕ → ℤ → Result Error (Unit {0})
check_manager secret_length ttl = do
  reject_if (ltb secret_length 32) Error.secret_short
  reject_if (leb_ℤ ttl (pos 0) || ltb_ℤ (seconds (24 * 3600)) ttl) Error.ttl_invalid

-- `pendingTTL`
unfoldable pub pending_ttl : ℤ → ℤ
pending_ttl ttl = if ltb_ℤ ttl (seconds 600) then ttl else seconds 600

-- `value.expiresAt.After(now)`
abbrev pub alive : Time → PendingState → Bool
alive now p = ltb_ℤ now p.expires_at

-- The loop that deletes what has expired.
unfoldable pub sweep : Time → Pendings → Pendings
sweep now pending = filter (λ (key, p). alive now p) pending

unfoldable pub or_error {ℓ} : {A : Type ℓ} → Error → Option A → Result Error A
or_error e none = err e
or_error e (some a) = ok a

-- `hmac.Equal` of two byte strings is their equality.
abbrev signed_body : Codec → Text → Text → Text → Result Error Text
signed_body codec kind part signature = do
  body ← or_error Error.invalid_session (codec.decode64 part)
  expected ← or_error Error.invalid_session (codec.decode64 signature)
  reject_if (expected != codec.mac (kind ++ (b'.' ∷ part))) Error.invalid_session
  reject_if (ltb 4096 (length body)) Error.invalid_session
  ok body

unfoldable pub of_parts : Codec → Text → List Text → Result Error Text
unfolding or_error
of_parts codec kind (part ∷ signature ∷ []) =
    if is_empty part || is_empty signature
    then err Error.invalid_session
    else signed_body codec kind part signature
of_parts codec kind _ = err Error.invalid_session

-- `seal`, of a value in JSON.
unfoldable pub seal : Codec → Text → Text → Text
seal codec kind payload =
    let body = codec.encode64 payload in
    body ++ (b'.' ∷ codec.encode64 (codec.mac (kind ++ (b'.' ∷ body))))

-- `unseal`, to the value in JSON.
unfoldable pub unseal : Codec → Text → Text → Result Error Text
unfolding of_parts
unseal codec kind encoded = of_parts codec kind (split b'.' encoded)

-- What a login starts with.
pub record Started : Type 0 where
  pub state : Text
  pub nonce : Text
  pub verifier : Text
  pub cookie : Text

-- The end of `beginPending`: the state is kept if its cookie can be made.
unfoldable pub kept :
    Codec → Started → PendingState → Option Text → Pendings → Result Error Started × Pendings
kept codec s p none pending = (err Error.encoding_failed, erase s.state (insert s.state p pending))
kept codec s p (some json) pending =
    (ok (record s { cookie = seal codec (codes "oidc-state") json }), insert s.state p pending)

-- `beginPending`, with the three random values, if the reader gave them, and two readings of the clock.
unfoldable pub begin_pending :
    Codec
    → ℤ
    → Time
    → Time
    → Option Text
    → Option Text
    → Option Text
    → Pendings
    → Result Error Started × Pendings
unfolding kept sweep
begin_pending codec ttl now later (some state) (some nonce) (some verifier) pending =
    let expires = now +ℤ pending_ttl ttl in
    let swept = sweep later pending in
    let s : Started = record { state = state; nonce = nonce; verifier = verifier; cookie = [] } in
    if leb max_pending_states (length swept)
    then (err Error.too_many_pending, swept)
    else kept codec s (record { nonce = nonce; code_verifier = verifier; expires_at = expires })
        (codec.pending_json (record { state = state; expires_at = codec.unix expires })) swept
begin_pending codec ttl now later _ _ _ pending = (err Error.random_failed, pending)

-- The checks of the cookie against the state that the provider returned.
unfoldable pub check_cookie : Codec → Time → Option Text → Text → Result Error (Unit {0})
unfolding unseal
check_cookie codec now none state = err Error.invalid_state
check_cookie codec now (some cookie) state = elim (unseal codec (codes "oidc-state") cookie) [
  | err e ↦ err Error.invalid_state
  | ok json ↦ elim (codec.parse_pending json) [
    | none ↦ err Error.invalid_state
    | some signed ↦
        reject_if
          (is_empty signed.state
            || is_empty state
            || signed.state != state
            || leb_ℤ signed.expires_at (codec.unix now))
          Error.invalid_state
  ]
]

abbrev pub taken : Time → Option PendingState → Result Error PendingState
taken now none = err Error.invalid_state
taken now (some p) = if alive now p then ok p else err Error.invalid_state

abbrev pub consumed :
    Time → Text → Pendings → Result Error (Unit {0}) → Result Error PendingState × Pendings
consumed now state pending (err e) = (err e, pending)
consumed now state pending (ok u) = (taken now (lookup state pending), erase state pending)

-- `consumePending`, with the readings of the clock for the cookie and for the stored state.
unfoldable pub consume_pending :
    Codec → Time → Time → Option Text → Text → Pendings → Result Error PendingState × Pendings
unfolding check_cookie
consume_pending codec now later cookie state pending =
    consumed later state pending (check_cookie codec now cookie state)

-- `SetSession`: the value of the cookie.
unfoldable pub set_session : Codec → ℤ → Time → Principal → Result Error Text
set_session codec ttl now p = do
  reject_if (p.kind != PrincipalKind.user || is_blank p.issuer || is_blank p.subject)
      Error.invalid_session
  json ← or_error Error.encoding_failed (
      codec.session_json (record {
        kind = p.kind;
        issuer = p.issuer;
        subject = p.subject;
        audience = p.audience;
        expires_at = codec.unix (now +ℤ ttl);
      }))
  ok (seal codec (codes "session") json)

abbrev pub principal_of : SessionCookie → Principal
principal_of c = record {
  kind = c.kind;
  issuer = c.issuer;
  subject = c.subject;
  audience = c.audience;
  email = [];
  email_verified = false;
  name = [];
  preferred_username = [];
  groups = [];
  scopes = [];
}

abbrev pub accepted : Codec → Time → SessionCookie → Option Principal
accepted codec now c =
    if leb_ℤ c.expires_at (codec.unix now)
      || c.kind != PrincipalKind.user
      || is_empty c.issuer
      || is_empty c.subject
    then none
    else some (principal_of c)

abbrev pub parsed : Codec → Time → Option SessionCookie → Option Principal
parsed codec now none = none
parsed codec now (some c) = accepted codec now c

abbrev pub opened : Codec → Time → Result Error Text → Option Principal
opened codec now (err e) = none
opened codec now (ok json) = parsed codec now (codec.parse_session json)

-- `PrincipalFromRequest`
unfoldable pub principal_from_request : Codec → Time → Option Text → Option Principal
principal_from_request codec now none = none
principal_from_request codec now (some cookie) =
    opened codec now (unseal codec (codes "session") cookie)
