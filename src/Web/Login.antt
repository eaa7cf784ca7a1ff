-- ===== src/Web/Login.antt =====
-- server/internal/web/auth.go: Handler.callback, which ends a login. The exchange of the code for a
-- principal is an argument.
mod Tests
use record_hub.Base.{
  Text, text_eq, codes, is_empty, Bool, true, false, ◌||◌, ◌!=◌, Bool-cases, List, Option, none,
  some, Result, ok, err, Result-cases, Option-cases, if◌then◌else◌, ℤ, Time, ◌≡◌, ◌⊎◌, inl, inr,
  refl, arith,
}
use record_hub.Base.Trim.{trim_space, is_blank}
use record_hub.Identity.Principal.{Principal, PrincipalKind, kind_eq}
use record_hub.Web.Session.{Error, PendingState, Codec, Pendings, consume_pending, set_session}

pub data Status : Type 0 where
  method_not_allowed bad_request unauthorized see_other : Status

-- The response: its status, the session cookie it sets, and whether it clears the state's cookie.
pub record Response : Type 0 where
  pub status : Status
  pub session : Option Text
  pub is_cleared : Bool

-- `cfg.exchange`: a principal for the code, the verifier and the nonce.
abbrev pub Exchange : Type 0
Exchange = Text → Text → Text → Option Principal

abbrev refused : Status → Response
refused status = record { status = status; session = none; is_cleared = true }

abbrev session_response : Result Error Text → Response
session_response (err e) = refused Status.unauthorized
session_response (ok cookie) = record {
  status = Status.see_other;
  session = some cookie;
  is_cleared = true;
}

abbrev logged_in : Codec → ℤ → Time → Option Principal → Response
logged_in codec ttl now none = refused Status.unauthorized
logged_in codec ttl now (some p) =
    if p.kind != PrincipalKind.user || is_empty p.issuer || is_empty p.subject
    then refused Status.unauthorized
    else session_response (set_session codec ttl now p)

abbrev exchanged : Codec → ℤ → Time → Exchange → Text → Result Error PendingState → Response
exchanged codec ttl now exchange code (err e) = record {
  status = Status.bad_request;
  session = none;
  is_cleared = false;
}
exchanged codec ttl now exchange code (ok p) =
    if is_blank code
    then refused Status.bad_request
    else logged_in codec ttl now (exchange (trim_space code) p.code_verifier p.nonce)

-- `callback`, with three readings of the clock.
unfoldable pub callback :
    Codec
    → ℤ
    → Time
    → Time
    → Time
    → Exchange
    → Text
    → Option Text
    → Text
    → Text
    → Pendings
    → Response × Pendings
callback codec ttl now later last exchange method cookie state code pending =
    if method != codes "GET"
    then (
      record { status = Status.method_not_allowed; session = none; is_cleared = false },
      pending,
    )
    else let (found, pending') = consume_pending codec now later cookie state pending in
      (exchanged codec ttl last exchange code found, pending')

-- Why a callback sets a session.
record IsLoggedIn (codec : Codec) (ttl : ℤ) (last : Time) (exchange : Exchange)
    (code session : Text) (found : Result Error PendingState) : Type 0 where
  pub login : PendingState
  pub principal : Principal
  pub was_pending : found ≡ ok login
  pub is_exchanged : exchange (trim_space code) login.code_verifier login.nonce ≡ some principal
  pub is_user : principal.kind ≡ PrincipalKind.user
  pub is_set : set_session codec ttl last principal ≡ ok session

module _ (codec : Codec) (ttl : ℤ) (last : Time) (exchange : Exchange) where
  session_response-set :
      (r : Result Error Text) (session : Text)
      → (session_response r).session ≡ some session
      → r ≡ ok session
  session_response-set (err e) session h = absurd (ground arith)
  session_response-set (ok cookie) session h = ground arith

  logged_in-set :
      (p : Principal) (session : Text)
      → (logged_in codec ttl last (some p)).session ≡ some session
      → (p.kind ≡ PrincipalKind.user) × (set_session codec ttl last p ≡ ok session)
  logged_in-set p session h =
      elim (Bool-cases (p.kind != PrincipalKind.user || is_empty p.issuer || is_empty p.subject)) [
        | inl unfit ↦ absurd (ground arith)
        | inr fit ↦ (
          ground arith,
          session_response-set (set_session codec ttl last p) session (ground arith),
        )
      ]

  exchanged-set :
      (code session : Text) (found : Result Error PendingState)
      → (exchanged codec ttl last exchange code found).session ≡ some session
      → IsLoggedIn codec ttl last exchange code session found
  exchanged-set code session (err e) h = absurd (ground arith)
  exchanged-set code session (ok p) h = elim (Bool-cases (is_blank code)) [
    | inl blank ↦ absurd (ground arith)
    | inr given ↦ elim (Option-cases (exchange (trim_space code) p.code_verifier p.nonce)) [
      | inl none_ ↦ absurd (ground arith)
      | inr (principal, is) ↦
          let (user, set) = logged_in-set principal session (ground arith) in
          record {
            login = p;
            principal = principal;
            was_pending = refl;
            is_exchanged = is;
            is_user = user;
            is_set = set;
          }
    ]
  ]

  -- A callback sets a session only if the state was pending and is consumed by this call, and the
  -- code was exchanged, with the verifier and the nonce of that login, for the user of the session.
  callback-IsLoggedIn :
      (now later : Time) (method : Text) (cookie : Option Text) (state code session : Text)
      (pending : Pendings)
      → (callback codec ttl now later last exchange method cookie state code pending).0.session
        ≡ some session
      → IsLoggedIn codec ttl last exchange code session
          (consume_pending codec now later cookie state pending).0
  unfolding callback
  callback-IsLoggedIn now later method cookie state code session pending h =
      exchanged-set code session (consume_pending codec now later cookie state pending).0
        (ground arith)
