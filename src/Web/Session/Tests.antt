-- ===== src/Web/Session/Tests.antt =====
-- Logins and a session under a coding that is easy to compute.
use record_hub.Base.{
  ℕ, ◌+◌, ◌-◌, ◌≤◌, Text, text_eq, codes, contains, is_empty, Bool, true, false, List, [], ◌∷◌,
  length, Option, none, some, Result, ok, err, ℤ, pos, negsuc, ap, ◌≡◌, refl, arith, nat_eq,
}
use record_hub.Identity.Principal.{Principal, PrincipalKind}
use record_hub.Web.Session.{
  Error, PendingState, PendingCookie, SessionCookie, Codec, Pendings, max_pending_states,
  begin_pending, consume_pending, set_session, principal_of, principal_from_request,
}
use record_hub.Web.Session.Pending.{Call, run, pendings_bounded}
use record_hub.Web.Session.UsedOnce.{state_used_once}
use record_hub.Web.Session.Signed.{IsCodec, session_read_back}

-- A byte is written as itself and 100 more.
unfoldable shifted : Text → Text
shifted [] = []
shifted (c ∷ s) = (c + 100) ∷ shifted s

unfoldable back : Text → Text
back [] = []
back (c ∷ s) = (c - 100) ∷ back s

abbrev small_pending : PendingCookie → Option Text
small_pending c = elim c.expires_at [ pos n ↦ some (n ∷ c.state) | negsuc n ↦ none ]

abbrev read_pending : Text → Option PendingCookie
read_pending [] = none
read_pending (n ∷ state) = some (record { state = state; expires_at = pos n })

-- Only a user whose issuer and subject have one byte each is written.
unfoldable small : PrincipalKind → Text → Text → List Text → ℤ → Option Text
small PrincipalKind.user (i ∷ []) (s ∷ []) [] (pos n) = some (n ∷ i ∷ s ∷ [])
small _ _ _ _ _ = none

unfoldable read_session : Text → Option SessionCookie
read_session (n ∷ i ∷ s ∷ []) = some (record {
  kind = PrincipalKind.user;
  issuer = i ∷ [];
  subject = s ∷ [];
  audience = [];
  expires_at = pos n;
})
read_session _ = none

abbrev codec : Codec
codec = record {
  encode64 = shifted;
  decode64 = λ s. some (back s);
  mac = λ m. 1 ∷ [];
  pending_json = small_pending;
  parse_pending = read_pending;
  session_json = λ c. small c.kind c.issuer c.subject c.audience c.expires_at;
  parse_session = read_session;
  unix = λ t. t;
}

back-shifted : (s : Text) → back (shifted s) ≡ s
unfolding back shifted
back-shifted [] = refl
back-shifted (c ∷ s) = ground (arith, back-shifted s)

shifted-no_dot : (s : Text) → contains (shifted s) b'.' ≡ false
unfolding shifted
shifted-no_dot [] = refl
shifted-no_dot (c ∷ s) = ground (arith, shifted-no_dot s)

shifted-some : (s : Text) → is_empty s ≡ false → is_empty (shifted s) ≡ false
unfolding shifted
shifted-some [] h = absurd (ground arith)
shifted-some (c ∷ s) h = refl

small-read :
    (k : PrincipalKind) (i s : Text) (a : List Text) (e : ℤ) (j : Text)
    → small k i s a e ≡ some j
    → (is_empty j ≡ false)
      × (read_session j
          ≡ some (record { kind = k; issuer = i; subject = s; audience = a; expires_at = e }))
unfolding small read_session
small-read PrincipalKind.user (i ∷ []) (s ∷ []) [] (pos n) j h = ground arith
small-read PrincipalKind.user (i ∷ []) (s ∷ []) [] (negsuc n) j h = absurd (ground arith)
small-read PrincipalKind.user (i ∷ []) (s ∷ []) (b ∷ a) e j h = absurd (ground arith)
small-read PrincipalKind.user (i ∷ []) (s ∷ t ∷ u) a e j h = absurd (ground arith)
small-read PrincipalKind.user (i ∷ []) [] a e j h = absurd (ground arith)
small-read PrincipalKind.user (i ∷ t ∷ u) s a e j h = absurd (ground arith)
small-read PrincipalKind.user [] s a e j h = absurd (ground arith)
small-read PrincipalKind.service i s a e j h = absurd (ground arith)
small-read (PrincipalKind.other x) i s a e j h = absurd (ground arith)

codec-IsCodec : IsCodec codec
codec-IsCodec = record {
  decode_encode = λ s. ap some (back-shifted s);
  no_dot = shifted-no_dot;
  encode_some = shifted-some;
  mac_some = λ s. refl;
  json_some = λ c j h. (small-read c.kind c.issuer c.subject c.audience c.expires_at j h).0;
  parse_json =
      λ c j h user clean. (small-read c.kind c.issuer c.subject c.audience c.expires_at j h).1;
}

abbrev ann : Principal
ann = record {
  kind = PrincipalKind.user;
  issuer = codes "i";
  subject = codes "a";
  audience = [];
  email = codes "mail";
  email_verified = true;
  name = [];
  preferred_username = [];
  groups = [];
  scopes = [];
}

-- The base64 of five and the two letters, a dot and the base64 of the signature.
abbrev ann_cookie : Text
ann_cookie = 105 ∷ 205 ∷ 197 ∷ b'.' ∷ 101 ∷ []

ann_set : set_session codec (pos 5) (pos 0) ann ≡ ok ann_cookie
unfolding set_session record_hub.Identity.Principal.PrincipalKind-discrete
    record_hub.Base.Trim.is_blank record_hub.Base.ℕ_discrete record_hub.Web.Session.or_error small
    record_hub.Web.Session.seal shifted
ann_set = refl

session_read_back_example :
    principal_from_request codec (pos 4) (some ann_cookie)
    ≡ some (record {
      kind = ann.kind;
      issuer = ann.issuer;
      subject = ann.subject;
      audience = ann.audience;
      email = [];
      email_verified = false;
      name = [];
      preferred_username = [];
      groups = [];
      scopes = [];
    })
unfolding small record_hub.Base.utf8_valid
session_read_back_example =
    session_read_back codec codec-IsCodec (pos 5) (pos 0) (pos 4) ann ann_cookie
      (5 ∷ b'i' ∷ b'a' ∷ []) ann_set refl (ground arith) (refl, refl, refl) refl

abbrev login : PendingState
login = record { nonce = codes "n"; code_verifier = codes "v"; expires_at = pos 9 }

abbrev one_login : Pendings
one_login = (codes "s", login) ∷ []

-- The state `s` until the second 9, sealed.
abbrev login_cookie : Text
login_cookie = 109 ∷ 215 ∷ b'.' ∷ 101 ∷ []

abbrev calls : List Call
calls =
    Call.begin_call (pos 600) (pos 3) (pos 4) (some (codes "t")) (some (codes "n"))
      (some (codes "v"))
    ∷ Call.consume_call (pos 5) (pos 5) (some login_cookie) (codes "t")
    ∷ []

login_used :
    (consume_pending codec (pos 1) (pos 2) (some login_cookie) (codes "s") one_login).0 ≡ ok login
unfolding consume_pending record_hub.Base.split record_hub.Base.ℕ_discrete
    record_hub.Base.Text-discrete back record_hub.Base.Map.lookup
login_used = refl

pendings_bounded_example : length (run codec calls one_login) ≤ max_pending_states
pendings_bounded_example = pendings_bounded codec calls one_login (omega arith)

state_used_once_example :
    let pending' =
      run codec calls
        (consume_pending codec (pos 1) (pos 2) (some login_cookie) (codes "s") one_login).1 in
    (e : Error) × ((consume_pending codec
        (pos 6)
        (pos 7)
        (some login_cookie)
        (codes "s")
        pending').0
      ≡ err e)
unfolding record_hub.Base.Text-discrete
state_used_once_example =
    state_used_once codec (pos 1) (pos 2) (pos 6) (pos 7) (some login_cookie) (some login_cookie)
      (codes "s") one_login login calls login_used refl
