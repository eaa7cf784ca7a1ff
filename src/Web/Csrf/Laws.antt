-- ===== src/Web/Csrf/Laws.antt =====
-- What a request that the protection lets through has shown.
use record_hub.Base.{
  Text, codes, is_empty, true, false, ◌||◌, [], ◌∷◌, leb_ℤ, Bool-cases, Option, some, Option-cases,
  Result, ok, err, ℤ, Time, ◌≡◌, ◌⊎◌, ◌↔◌, inl, inr, refl, text_eq, Text-discrete, none, arith,
}
use record_hub.Identity.Principal.{Principal, PrincipalKind, kind_eq}
use mathlib.Core.Path.{subst}
use record_hub.Web.Session.{Error, Codec, unseal}
use record_hub.Web.Session.Opened.{IsSigned, unseal-IsSigned}
use record_hub.Web.Csrf.Origin.{FromHost, same_origin-FromHost, FromHost-same_origin}
use record_hub.Web.Csrf.{
  CsrfCookie, Library, Request, same_origin, read_body, live, live_cookie, matches, validate,
  is_service, is_safe, middleware,
}

-- The methods that change nothing.
abbrev pub Safe : Text → Type 0
Safe method =
    (method ≡ codes "GET")
    ⊎ (method ≡ codes "HEAD")
    ⊎ (method ≡ codes "OPTIONS")
    ⊎ (method ≡ codes "TRACE")

is_safe-Safe : (method : Text) → is_safe method ≡ true → Safe method
unfolding is_safe
is_safe-Safe method h = elim (Text-discrete method (codes "GET")) [
  | yes is ↦ inl is
  | no n1 ↦ elim (Text-discrete method (codes "HEAD")) [
    | yes is ↦ inr (inl is)
    | no n2 ↦ elim (Text-discrete method (codes "OPTIONS")) [
      | yes is ↦ inr (inr (inl is))
      | no n3 ↦ inr (inr (inr (ground arith)))
    ]
  ]
]

Safe-is_safe : (method : Text) → Safe method → is_safe method ≡ true
unfolding is_safe
Safe-is_safe method (inl is) = ground arith
Safe-is_safe method (inr (inl is)) = ground arith
Safe-is_safe method (inr (inr (inl is))) = ground arith
Safe-is_safe method (inr (inr (inr is))) = ground arith

-- The request was authenticated as a service.
abbrev pub ByService : Request → Type 0
ByService r = (p : Principal) × (r.principal ≡ some p) × (p.kind ≡ PrincipalKind.service)

is_service-ByService :
    (found : Option Principal)
    → is_service found ≡ true
    → (p : Principal) × (found ≡ some p) × (p.kind ≡ PrincipalKind.service)
is_service-ByService none h = absurd (ground arith)
is_service-ByService (some p) h = (p, refl, ground arith)

module _ (codec : Codec) (lib : Library) where
  -- The cookie carries, signed, the token that the header repeats, and is in force.
  pub record IsMatched (now : Time) (r : Request) : Type 0 where
    pub cookie : Text
    pub json : Text
    pub signed : CsrfCookie
    pub is_sent : r.csrf_cookie ≡ some cookie
    pub is_signed : IsSigned codec (codes "csrf") cookie json
    pub is_read : lib.read json ≡ some signed
    pub repeated : r.csrf_header ≡ signed.token
    pub nonempty : is_empty signed.token ≡ false
    pub unexpired : leb_ℤ signed.expires_at (codec.unix now) ≡ false
    pub from_host : FromHost lib r

  live-Matched :
      (now : Time) (r : Request) (cookie : Text) (read : Result Error Text)
      → r.csrf_cookie ≡ some cookie
      → unseal codec (codes "csrf") cookie ≡ read
      → same_origin lib r.host (r.origin ∷ r.referer ∷ []) ≡ true
      → matches r.csrf_header (live codec now (read_body lib read)) ≡ true
      → IsMatched now r
  live-Matched now r cookie (err e) sent signed from h = absurd (ground arith)
  live-Matched now r cookie (ok json) sent signed from h = elim (Option-cases (lib.read json)) [
    | inl none_ ↦ absurd (ground (arith, none_))
    | inr (c, is) ↦
        let (alive, same) =
          matched c (subst (λ x. matches r.csrf_header (live codec now x) ≡ true) is h) in
        record {
          cookie = cookie;
          json = json;
          signed = c;
          is_sent = sent;
          is_signed = (unseal-IsSigned codec (codes "csrf") cookie json).0 signed;
          is_read = is;
          repeated = same;
          nonempty = ground arith;
          unexpired = ground arith;
          from_host = same_origin-FromHost lib r from;
        }
  ]
    where
      matched :
          (c : CsrfCookie)
          → matches r.csrf_header (live codec now (some c)) ≡ true
          → ((is_empty c.token || leb_ℤ c.expires_at (codec.unix now)) ≡ false)
            × (r.csrf_header ≡ c.token)
      matched c g = ground arith

  validate-Matched :
      (now : Time) (r : Request) → (validate codec lib now r ≡ true) ↔ IsMatched now r
  unfolding validate live_cookie
  validate-Matched now r = (forward, backward)
    where
      forward : validate codec lib now r ≡ true → IsMatched now r
      forward h = elim (Bool-cases (same_origin lib r.host (r.origin ∷ r.referer ∷ []))) [
        | inr foreign ↦ absurd (ground arith)
        | inl from ↦ elim (Option-cases r.csrf_cookie) [
          | inl none_ ↦ absurd (ground arith)
          | inr (cookie, sent) ↦
              live-Matched now r cookie (unseal codec (codes "csrf") cookie) sent refl from
                (ground arith)
        ]
      ]

      backward : IsMatched now r → validate codec lib now r ≡ true
      backward m =
          let opened = (unseal-IsSigned codec (codes "csrf") m.cookie m.json).1 m.is_signed in
          let from = FromHost-same_origin lib r m.from_host in
          ground (arith, m.is_sent, opened, m.is_read, m.repeated, m.nonempty, m.unexpired, from)

  -- A request reaches the handler exactly if it was authenticated as a service, has one of the methods
  -- GET, HEAD, OPTIONS and TRACE, or repeats in its header the token of a cookie that is signed under
  -- the secret and in force, and its Origin, or else its Referer, if it gives one of them, is an HTTP(S)
  -- URL of the host that the request names.
  pub served_exact :
      (ttl : ℤ) (now later last : Time) (token : Option Text) (r : Request)
      → ((middleware codec lib ttl now later last token r).1 ≡ true)
        ↔ (ByService r ⊎ Safe r.method ⊎ IsMatched last r)
  unfolding middleware
  served_exact ttl now later last token r = (forward, backward)
    where
      forward :
          (middleware codec lib ttl now later last token r).1 ≡ true
          → ByService r ⊎ Safe r.method ⊎ IsMatched last r
      forward h = elim (Bool-cases (is_service r.principal)) [
        | inl service ↦ inl (is_service-ByService r.principal service)
        | inr browser ↦ elim (Bool-cases (is_safe r.method)) [
          | inl safe ↦ inr (inl (is_safe-Safe r.method safe))
          | inr changing ↦ inr (inr ((validate-Matched last r).0 (ground arith)))
        ]
      ]

      backward :
          ByService r ⊎ Safe r.method ⊎ IsMatched last r
          → (middleware codec lib ttl now later last token r).1 ≡ true
      backward (inl (p, is, service)) = rw is (ground arith)
      backward (inr (inl safe)) = let known = Safe-is_safe r.method safe in ground arith
      backward (inr (inr m)) = let valid = (validate-Matched last r).1 m in ground arith
