-- ===== src/Web/Csrf/Tests.antt =====
-- A form that a browser sends.
use record_hub.Base.{
  Text, codes, Bool, true, false, List, [], ◌∷◌, Option, none, some, ok, ℤ, pos, ◌≡◌, ◌⊎◌, ◌↔◌,
  refl,
}
use record_hub.Web.Session.{Codec}
use record_hub.Web.Csrf.{CsrfCookie, Url, Library, Request, is_service, is_safe, middleware}
use record_hub.Web.Csrf.Laws.{ByService, Safe, IsMatched, served_exact}

-- Texts stand for themselves, and everything has the signature `m`.
abbrev codec : Codec
codec = record {
  encode64 = λ s. s;
  decode64 = λ s. some s;
  mac = λ s. codes "m";
  pending_json = λ c. none;
  parse_pending = λ s. none;
  session_json = λ c. none;
  parse_session = λ s. none;
  unix = λ t. t;
}

abbrev lib : Library
lib = record {
  write = λ c. some c.token;
  read = λ s. some (record { token = s; expires_at = pos 9 });
  parse_url = λ s. some (record { scheme = codes "https"; host = codes "hub" });
}

abbrev form : Request
form = record {
  method = codes "POST";
  host = codes "hub";
  origin = codes "https://hub";
  referer = [];
  csrf_cookie = some (codes "t.m");
  csrf_header = codes "t";
  principal = none;
}

form_served : middleware codec lib (pos 5) (pos 1) (pos 2) (pos 3) none form ≡ (none, true)
unfolding middleware record_hub.Web.Csrf.ensure is_safe record_hub.Web.Csrf.live_cookie
    record_hub.Base.Text-discrete record_hub.Web.Session.unseal record_hub.Web.Csrf.validate
    record_hub.Base.split record_hub.Web.Csrf.same_origin record_hub.Base.Trim.trim_space
form_served = refl

forged_refused :
    middleware codec lib
      (pos 5)
      (pos 1)
      (pos 2)
      (pos 3)
      none
      (record form { csrf_cookie = some (codes "t.x") })
    ≡ (none, false)
unfolding middleware record_hub.Web.Csrf.ensure is_safe record_hub.Web.Csrf.live_cookie
    record_hub.Base.Text-discrete record_hub.Web.Session.unseal record_hub.Web.Csrf.validate
    record_hub.Base.split record_hub.Web.Csrf.same_origin record_hub.Base.Trim.trim_space
forged_refused = refl

served_exact_example :
    ((middleware codec lib (pos 5) (pos 1) (pos 2) (pos 3) none form).1 ≡ true)
    ↔ (ByService form ⊎ Safe form.method ⊎ IsMatched codec lib (pos 3) form)
served_exact_example = served_exact codec lib (pos 5) (pos 1) (pos 2) (pos 3) none form
