-- ===== src/Web/Csrf.antt =====
-- server/internal/web/auth.go: CSRFProtection, the signed double-submit token of the browser. The JSON
-- of its cookie and url.Parse are parameters, and a handler is what it lets through.
pub mod Laws
pub mod Origin
mod Tests
use record_hub.Base.{
  Text, text_eq, codes, is_empty, Bool, true, false, not, ◌&&◌, ◌||◌, ◌==◌, ◌!=◌, List, [], ◌∷◌,
  any, leb_ℤ, ltb_ℤ, Option, none, some, Result, ok, err, if◌then◌else◌, ℤ, ◌+ℤ◌, Time,
}
use record_hub.Base.Trim.{trim_space}
use record_hub.Identity.Principal.{Principal, PrincipalKind, kind_eq}
use record_hub.Web.Session.{Error, Codec, seal, unseal}

pub record CsrfCookie : Type 0 where
  pub token : Text
  pub expires_at : ℤ

pub record Url : Type 0 where
  pub scheme : Text
  pub host : Text

-- What the protection uses of libraries besides the sessions' part.
pub record Library : Type 0 where
  pub write : CsrfCookie → Option Text
  pub read : Text → Option CsrfCookie
  pub parse_url : Text → Option Url

-- What it reads of a request.
pub record Request : Type 0 where
  pub method : Text
  pub host : Text
  pub origin : Text
  pub referer : Text
  pub csrf_cookie : Option Text
  pub csrf_header : Text
  pub principal : Option Principal

abbrev pub names_host : Text → Option Url → Bool
names_host host none = false
names_host host (some u) =
    if is_empty u.host || is_empty u.scheme
    then false
    else if u.host != host
    then false
    else (u.scheme == codes "https" || u.scheme == codes "http")

-- `sameOrigin`: the loop ends with the first header that is given.
unfoldable pub same_origin : Library → Text → List Text → Bool
same_origin lib host [] = true
same_origin lib host (header ∷ headers) =
    if is_empty (trim_space header)
    then same_origin lib host headers
    else names_host host (lib.parse_url (trim_space header))

abbrev pub read_body : Library → Result Error Text → Option CsrfCookie
read_body lib (err e) = none
read_body lib (ok json) = lib.read json

abbrev pub live : Codec → Time → Option CsrfCookie → Option CsrfCookie
live codec now none = none
live codec now (some c) =
    if is_empty c.token || leb_ℤ c.expires_at (codec.unix now) then none else some c

-- The cookie of a request, if it is signed, has a token and has not expired.
unfoldable pub live_cookie : Codec → Library → Time → Option Text → Option CsrfCookie
live_cookie codec lib now none = none
live_cookie codec lib now (some cookie) =
    live codec now (read_body lib (unseal codec (codes "csrf") cookie))

abbrev sealed : Codec → Option Text → Option Text
sealed codec none = none
sealed codec (some json) = some (seal codec (codes "csrf") json)

abbrev fresh : Codec → Library → ℤ → Time → Option Text → Option Text
fresh codec lib ttl now none = none
fresh codec lib ttl now (some token) =
    sealed codec (lib.write (record { token = token; expires_at = codec.unix (now +ℤ ttl) }))

abbrev ensured : Option CsrfCookie → Option Text → Option Text
ensured none cookie = cookie
ensured (some c) cookie = none

-- `Ensure`: the cookie that it sets, with the random token, if the reader gave one, and two readings of
-- the clock.
unfoldable pub ensure : Codec → Library → ℤ → Time → Time → Option Text → Option Text → Option Text
ensure codec lib ttl now later token cookie =
    ensured (live_cookie codec lib now cookie) (fresh codec lib ttl later token)

abbrev pub matches : Text → Option CsrfCookie → Bool
matches header none = false
matches header (some c) = if is_empty header then false else (header == c.token)

-- `Validate`: whether it finds no error.
unfoldable pub validate : Codec → Library → Time → Request → Bool
validate codec lib now r =
    if same_origin lib r.host (r.origin ∷ r.referer ∷ [])
    then matches r.csrf_header (live_cookie codec lib now r.csrf_cookie)
    else false

abbrev pub is_service : Option Principal → Bool
is_service none = false
is_service (some p) = (p.kind == PrincipalKind.service)

unfoldable pub is_safe : Text → Bool
is_safe method =
    method == codes "GET"
    || method == codes "HEAD"
    || method == codes "OPTIONS"
    || method == codes "TRACE"

-- `Middleware`: the cookie that is set, and whether the next handler is called.
unfoldable pub middleware :
    Codec → Library → ℤ → Time → Time → Time → Option Text → Request → Option Text × Bool
middleware codec lib ttl now later last token r = (
  ensure codec lib ttl now later token r.csrf_cookie,
  if is_service r.principal
      then true
      else if is_safe r.method
      then true
      else validate codec lib last r,
)
