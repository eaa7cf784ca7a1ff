-- ===== src/Identity/Principal.antt =====
-- server/internal/modules/identity/principal.go.
use record_hub.Base.{Text, text_eq, List, Bool, Eq, Text-discrete}

-- The kind is a Go string, so a value may be neither of the two constants.
pub data PrincipalKind : Type 0 where
  user service : PrincipalKind
  other : Text → PrincipalKind

unfoldable pub PrincipalKind-discrete : Discrete PrincipalKind
PrincipalKind-discrete = hlevel Text-discrete

instance abbrev pub kind_eq : Eq PrincipalKind
kind_eq = record { dec = PrincipalKind-discrete }

pub record IdentityKey : Type 0 where
  pub issuer : Text
  pub subject : Text

unfoldable pub IdentityKey-discrete : Discrete IdentityKey
IdentityKey-discrete = hlevel Text-discrete

instance abbrev pub identity_eq : Eq IdentityKey
identity_eq = record { dec = IdentityKey-discrete }

pub record Principal : Type 0 where
  pub kind : PrincipalKind
  pub issuer : Text
  pub subject : Text
  pub audience : List Text
  pub email : Text
  pub email_verified : Bool
  pub name : Text
  pub preferred_username : Text
  pub groups : List Text
  pub scopes : List Text

abbrev pub identity_key : Principal → IdentityKey
identity_key p = record { issuer = p.issuer; subject = p.subject }
