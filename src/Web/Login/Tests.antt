-- ===== src/Web/Login/Tests.antt =====
-- A login that ends.
use record_hub.Base.{
  Text, codes, Bool, true, false, List, [], ◌∷◌, Option, none, some, Result, ok, err, ℤ, pos, Time,
  ◌≡◌, refl, ap,
}
use record_hub.Identity.Principal.{Principal, PrincipalKind}
use record_hub.Web.Session.{Codec, Pendings, consume_pending}
use record_hub.Web.Login.{Status, Exchange, callback}

-- Texts stand for themselves, and everything has the signature `m`.
abbrev codec : Codec
codec = record {
  encode64 = λ s. s;
  decode64 = λ s. some s;
  mac = λ s. codes "m";
  pending_json = λ c. none;
  parse_pending = λ s. some (record { state = s; expires_at = pos 9 });
  session_json = λ c. some c.subject;
  parse_session = λ s. none;
  unix = λ t. t;
}

abbrev ann : Principal
ann = record {
  kind = PrincipalKind.user;
  issuer = codes "i";
  subject = codes "a";
  audience = [];
  email = [];
  email_verified = false;
  name = [];
  preferred_username = [];
  groups = [];
  scopes = [];
}

abbrev exchange : Exchange
exchange code verifier nonce = some ann

abbrev pending : Pendings
pending =
    (codes "s", record { nonce = codes "n"; code_verifier = codes "v"; expires_at = pos 9 }) ∷ []

ended :
    callback codec
      (pos 5)
      (pos 1)
      (pos 2)
      (pos 3)
      exchange
      (codes "GET")
      (some (codes "s.m"))
      (codes "s")
      (codes "c")
      pending
    ≡ (record { status = Status.see_other; session = some (codes "a.m"); is_cleared = true }, [])
unfolding callback record_hub.Base.Text-discrete consume_pending record_hub.Base.split
    record_hub.Base.Map.lookup record_hub.Base.Map.erase record_hub.Base.Trim.is_blank
    record_hub.Identity.Principal.PrincipalKind-discrete record_hub.Web.Session.set_session
    record_hub.Web.Session.seal
ended = refl

ended_again :
    callback codec
      (pos 5)
      (pos 1)
      (pos 2)
      (pos 3)
      exchange
      (codes "GET")
      (some (codes "s.m"))
      (codes "s")
      (codes "c")
      []
    ≡ (record { status = Status.bad_request; session = none; is_cleared = false }, [])
unfolding callback record_hub.Base.Text-discrete consume_pending record_hub.Base.split
    record_hub.Base.Map.lookup record_hub.Base.Map.erase
ended_again = refl
