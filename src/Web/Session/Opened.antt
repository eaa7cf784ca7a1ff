-- ===== src/Web/Session/Opened.antt =====
-- What a cookie that `unseal` of session.go accepts looks like.
use record_hub.Base.{
  Text, text_eq, is_empty, false, ◌||◌, ◌!=◌, List, [], ◌∷◌, ◌++◌, length, ltb, ◌≤◌, split,
  Bool-cases, Option, none, some, ok, reject_if, ◌≡◌, ◌↔◌, inl, inr, refl, sym, arith, >>=-eq-ok,
}
use record_hub.Web.Session.{Error, Codec, or_error, of_parts, unseal}

-- The cookie has two parts, neither of them empty: the first is the coding of the value, of at most
-- 4096 bytes, and the second that of the signature of the kind and the first part under the secret.
pub record IsSigned (codec : Codec) (kind cookie value : Text) : Type 0 where
  pub part : Text
  pub signature : Text
  pub parts : split b'.' cookie ≡ part ∷ signature ∷ []
  pub part_given : is_empty part ≡ false
  pub signature_given : is_empty signature ≡ false
  pub decoded : codec.decode64 part ≡ some value
  pub signed : codec.decode64 signature ≡ some (codec.mac (kind ++ (b'.' ∷ part)))
  pub short : length value ≤ 4096

or_error-ok : {A : Type 0} (e : Error) (x : Option A) (a : A) → or_error e x ≡ ok a → x ≡ some a
unfolding or_error
or_error-ok e none a h = absurd (ground arith)
or_error-ok e (some b) a h = ground arith

module _ (codec : Codec) (kind cookie value : Text) where
  of_parts-IsSigned :
      (parts : List Text)
      → split b'.' cookie ≡ parts
      → of_parts codec kind parts ≡ ok value
      → IsSigned codec kind cookie value
  unfolding of_parts
  of_parts-IsSigned [] cut h = absurd (ground arith)
  of_parts-IsSigned (part ∷ []) cut h = absurd (ground arith)
  of_parts-IsSigned (part ∷ signature ∷ more ∷ rest) cut h = absurd (ground arith)
  of_parts-IsSigned (part ∷ signature ∷ []) cut h =
      elim (Bool-cases (is_empty part || is_empty signature)) [
        | inl empty ↦ absurd (ground (arith, empty))
        | inr given ↦
            let opened = rw given at h in
            let (body, decoded, h1) =
              >>=-eq-ok (or_error Error.invalid_session (codec.decode64 part)) _ opened in
            let (expected, signed, h2) =
              >>=-eq-ok (or_error Error.invalid_session (codec.decode64 signature)) _ h1 in
            let (u, same, h3) =
              >>=-eq-ok
                (reject_if (expected != codec.mac (kind ++ (b'.' ∷ part))) Error.invalid_session) _
                h2 in
            let (u', short, h4) =
              >>=-eq-ok (reject_if (ltb 4096 (length body)) Error.invalid_session) _ h3 in
            let whole : body ≡ value = ground arith in
            let mac : expected ≡ codec.mac (kind ++ (b'.' ∷ part)) = ground arith in
            let fits : length body ≤ 4096 = ground arith in
            record {
              part = part;
              signature = signature;
              parts = cut;
              part_given = ground arith;
              signature_given = ground arith;
              decoded = rw (sym whole) (or_error-ok _ (codec.decode64 part) body decoded);
              signed = rw (sym mac) (or_error-ok _ (codec.decode64 signature) expected signed);
              short = rw (sym whole) fits;
            }
      ]

  pub unseal-IsSigned : (unseal codec kind cookie ≡ ok value) ↔ IsSigned codec kind cookie value
  unfolding unseal of_parts or_error
  unseal-IsSigned = (λ h. of_parts-IsSigned (split b'.' cookie) refl h, backward)
    where
      backward : IsSigned codec kind cookie value → unseal codec kind cookie ≡ ok value
      backward s =
          rw s.parts (ground (arith, s.part_given, s.signature_given, s.decoded, s.signed, s.short))
