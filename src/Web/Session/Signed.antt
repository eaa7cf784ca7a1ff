-- ===== src/Web/Session/Signed.antt =====
-- A session that was set is read back from its cookie.
use record_hub.Base.{
  true, List, utf8_valid, all, ℕ, nat_eq, ℕ_discrete, ◌≤◌, Text, text_eq, codes, contains, is_empty,
  split, Bool, false, ◌||◌, ◌!=◌, [], ◌∷◌, ◌++◌, length, leb_ℤ, Bool-cases, some, ok, ℤ, ◌+ℤ◌, Time,
  ◌≡◌, inl, inr, refl, sym, ap, ◌∙◌, arith,
}
use mathlib.Core.Path.{subst}
use record_hub.Base.Trim.{is_blank}
use record_hub.Identity.Principal.{Principal, PrincipalKind, kind_eq}
use record_hub.Web.Session.{
  SessionCookie, Codec, or_error, of_parts, seal, unseal, set_session, principal_of, accepted,
  parsed, opened, principal_from_request,
}

-- The texts of a principal that a session keeps are UTF-8.
abbrev pub InUtf8 : Text → Text → List Text → Type 0
InUtf8 issuer subject audience =
    (utf8_valid issuer ≡ true) × (utf8_valid subject ≡ true) × (all utf8_valid audience ≡ true)

-- What the libraries document: base64 for URLs decodes what it encodes, has no dot and is empty only
-- for no bytes; an HMAC is not empty; JSON reads back the cookie that it wrote of texts in
-- UTF-8, whose other bytes it replaces.
pub record IsCodec (codec : Codec) : Type 0 where
  pub decode_encode : (s : Text) → codec.decode64 (codec.encode64 s) ≡ some s
  pub no_dot : (s : Text) → contains (codec.encode64 s) b'.' ≡ false
  pub encode_some : (s : Text) → is_empty s ≡ false → is_empty (codec.encode64 s) ≡ false
  pub mac_some : (s : Text) → is_empty (codec.mac s) ≡ false
  pub json_some :
      (c : SessionCookie) (j : Text) → codec.session_json c ≡ some j → is_empty j ≡ false
  pub parse_json :
      (c : SessionCookie) (j : Text)
      → codec.session_json c ≡ some j
      → c.kind ≡ PrincipalKind.user
      → InUtf8 c.issuer c.subject c.audience
      → codec.parse_session j ≡ some c

split-whole : (sep : ℕ) (s : Text) → contains s sep ≡ false → split sep s ≡ s ∷ []
unfolding split
split-whole sep [] h = refl
split-whole sep (c ∷ s) h = elim (ℕ_discrete c sep) [
  | yes same ↦ absurd (ground arith)
  | no other ↦ ground (arith, split-whole sep s)
]

split-append :
    (sep : ℕ) (front back : Text)
    → contains front sep ≡ false
    → split sep (front ++ (sep ∷ back)) ≡ front ∷ split sep back
unfolding split
split-append sep [] back h = ground arith
split-append sep (c ∷ front) back h = elim (ℕ_discrete c sep) [
  | yes same ↦ absurd (ground arith)
  | no other ↦ ground (arith, split-append sep front back)
]

is_blank-some : (s : Text) → is_blank s ≡ false → is_empty s ≡ false
unfolding is_blank
is_blank-some [] h = absurd (ground arith)
is_blank-some (c ∷ s) h = refl

-- What the cookie of a session says.
abbrev pub cookie_of : Codec → ℤ → Time → Principal → SessionCookie
cookie_of codec ttl now p = record {
  kind = p.kind;
  issuer = p.issuer;
  subject = p.subject;
  audience = p.audience;
  expires_at = codec.unix (now +ℤ ttl);
}

abbrev unfit : Principal → Bool
unfit p = p.kind != PrincipalKind.user || is_blank p.issuer || is_blank p.subject

module _ (codec : Codec) (laws : IsCodec codec) where
  unseal-seal :
      (kind payload : Text)
      → is_empty payload ≡ false
      → length payload ≤ 4096
      → unseal codec kind (seal codec kind payload) ≡ ok payload
  unfolding unseal seal of_parts or_error
  unseal-seal kind payload given short =
      let body = codec.encode64 payload in
      let signature = codec.encode64 (codec.mac (kind ++ (b'.' ∷ body))) in
      let cut : split b'.' (body ++ (b'.' ∷ signature)) ≡ body ∷ signature ∷ [] =
        split-append b'.' body signature (laws.no_dot payload)
        ∙ ap (λ x. body ∷ x)
            (split-whole b'.' signature (laws.no_dot (codec.mac (kind ++ (b'.' ∷ body))))) in
      rw cut (
        ground (
          arith,
          laws.encode_some payload given,
          laws.encode_some (codec.mac (kind ++ (b'.' ∷ body)))
              (laws.mac_some (kind ++ (b'.' ∷ body))),
          laws.decode_encode payload,
          laws.decode_encode (codec.mac (kind ++ (b'.' ∷ body))),
        ))

  set_session-fit :
      (ttl : ℤ) (now : Time) (p : Principal) (cookie : Text)
      → set_session codec ttl now p ≡ ok cookie
      → unfit p ≡ false
  unfolding set_session
  set_session-fit ttl now p cookie h = elim (Bool-cases (unfit p)) [
    | inl bad ↦ absurd (ground arith)
    | inr fine ↦ fine
  ]

  set_session-cookie :
      (ttl : ℤ) (now : Time) (p : Principal) (cookie json : Text)
      → set_session codec ttl now p ≡ ok cookie
      → codec.session_json (cookie_of codec ttl now p) ≡ some json
      → seal codec (codes "session") json ≡ cookie
  unfolding set_session or_error
  set_session-cookie ttl now p cookie json h written =
      let fine = set_session-fit ttl now p cookie h in ground arith

  fit-accepted :
      (ttl : ℤ) (now later : Time) (p : Principal)
      → unfit p ≡ false
      → leb_ℤ (codec.unix (now +ℤ ttl)) (codec.unix later) ≡ false
      → accepted codec later (cookie_of codec ttl now p)
        ≡ some (principal_of (cookie_of codec ttl now p))
  fit-accepted ttl now later p fine alive_ =
      let issuer_blank : is_blank p.issuer ≡ false = ground arith in
      let subject_blank : is_blank p.subject ≡ false = ground arith in
      let issuer_some = is_blank-some p.issuer issuer_blank in
      let subject_some = is_blank-some p.subject subject_blank in
      ground (arith, issuer_some, subject_some)

  user_of : (p : Principal) → unfit p ≡ false → p.kind ≡ PrincipalKind.user
  user_of p fine = ground arith

  -- A session that SetSession wrote is read back before it expires as the user with the same issuer,
  -- subject and audience, and nothing else, if these are UTF-8 and its JSON has at most 4096
  -- bytes.
  pub session_read_back :
      (ttl : ℤ) (now later : Time) (p : Principal) (cookie json : Text)
      → set_session codec ttl now p ≡ ok cookie
      → codec.session_json (cookie_of codec ttl now p) ≡ some json
      → length json ≤ 4096
      → InUtf8 p.issuer p.subject p.audience
      → leb_ℤ (codec.unix (now +ℤ ttl)) (codec.unix later) ≡ false
      → principal_from_request codec later (some cookie)
        ≡ some (record {
          kind = p.kind;
          issuer = p.issuer;
          subject = p.subject;
          audience = p.audience;
          email = [];
          email_verified = false;
          name = [];
          preferred_username = [];
          groups = [];
          scopes = [];
        })
  unfolding principal_from_request
  session_read_back ttl now later p cookie json h written short clean alive_ =
      let sealed = set_session-cookie ttl now p cookie json h written in
      let read : unseal codec (codes "session") cookie ≡ ok json =
        subst (λ x. unseal codec (codes "session") x ≡ ok json) sealed
          (unseal-seal (codes "session") json
            (laws.json_some (cookie_of codec ttl now p) json written) short) in
      let whole = cookie_of codec ttl now p in
      subst (λ r. opened codec later r ≡ some (principal_of whole)) (sym read)
        (subst (λ c. parsed codec later c ≡ some (principal_of whole))
          (sym (
            laws.parse_json whole json written (user_of p (set_session-fit ttl now p cookie h))
              clean))
          (fit-accepted ttl now later p (set_session-fit ttl now p cookie h) alive_))
