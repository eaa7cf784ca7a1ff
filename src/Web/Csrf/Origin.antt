-- ===== src/Web/Csrf/Origin.antt =====
-- What `sameOrigin` of web/auth.go accepts.
use record_hub.Base.{
  Text, codes, is_empty, true, false, ◌||◌, [], ◌∷◌, Bool-cases, Option, some, ◌≡◌, ◌⊎◌, inl, inr,
  refl, sym, text_eq, Text-discrete, none, arith,
}
use record_hub.Base.Trim.{trim_space}
use record_hub.Identity.Principal.{kind_eq}
use record_hub.Web.Csrf.{Url, names_host, Library, Request, same_origin}

-- The header, trimmed, is an HTTP(S) URL of the host.
abbrev pub Names : Library → Text → Text → Type 0
Names lib host header =
    (u : Url) × (lib.parse_url (trim_space header) ≡ some u)
    × (is_empty host ≡ false)
    × (u.host ≡ host)
    × ((u.scheme ≡ codes "https") ⊎ (u.scheme ≡ codes "http"))

-- Origin names the host; or it is blank, and Referer names the host or is blank too.
abbrev pub FromHost : Library → Request → Type 0
FromHost lib r =
    ((is_empty (trim_space r.origin) ≡ false) × Names lib r.host r.origin)
    ⊎ ((is_empty (trim_space r.origin) ≡ true)
        × (((is_empty (trim_space r.referer) ≡ false) × Names lib r.host r.referer)
            ⊎ (is_empty (trim_space r.referer) ≡ true)))

names_host-Names :
    (host : Text) (found : Option Url)
    → names_host host found ≡ true
    → (u : Url) × (found ≡ some u)
      × (is_empty host ≡ false)
      × (u.host ≡ host)
      × ((u.scheme ≡ codes "https") ⊎ (u.scheme ≡ codes "http"))
names_host-Names host none h = absurd (ground arith)
names_host-Names host (some u) h =
    let given : (is_empty u.host || is_empty u.scheme) ≡ false = ground arith in
    let same : u.host ≡ host = ground arith in
    (
      u,
      refl,
      rw (sym same) (ground arith),
      same,
      elim (Text-discrete u.scheme (codes "https")) [
        | yes secure ↦ inl secure
        | no other ↦ inr (ground arith)
      ],
    )

Names-names_host :
    (lib : Library) (host header : Text)
    → Names lib host header
    → names_host host (lib.parse_url (trim_space header)) ≡ true
Names-names_host lib host header (u, parsed, given, same, inl secure) =
    rw parsed (rw (same, secure) (ground arith))
Names-names_host lib host header (u, parsed, given, same, inr plain) =
    rw parsed (rw (same, plain) (ground arith))

pub same_origin-FromHost :
    (lib : Library) (r : Request)
    → same_origin lib r.host (r.origin ∷ r.referer ∷ []) ≡ true
    → FromHost lib r
unfolding same_origin
same_origin-FromHost lib r h = elim (Bool-cases (is_empty (trim_space r.origin))) [
  | inr given ↦
      inl (
        given,
        names_host-Names r.host (lib.parse_url (trim_space r.origin)) (ground (arith, given)),
      )
  | inl blank ↦ inr (
    blank,
    elim (Bool-cases (is_empty (trim_space r.referer))) [
      | inr given ↦ inl (
        given,
        names_host-Names r.host (lib.parse_url (trim_space r.referer))
            (ground (arith, given, blank)),
      )
      | inl missing ↦ inr missing
    ],
  )
]

pub FromHost-same_origin :
    (lib : Library) (r : Request)
    → FromHost lib r
    → same_origin lib r.host (r.origin ∷ r.referer ∷ []) ≡ true
unfolding same_origin
FromHost-same_origin lib r (inl (given, names)) =
    rw given (Names-names_host lib r.host r.origin names)
FromHost-same_origin lib r (inr (blank, inl (given, names))) =
    rw blank (rw given (Names-names_host lib r.host r.referer names))
FromHost-same_origin lib r (inr (blank, inr missing)) = rw blank (rw missing refl)
