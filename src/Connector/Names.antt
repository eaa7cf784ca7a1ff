-- ===== src/Connector/Names.antt =====
-- server/internal/modules/connector/registry.go and onboarding.go: the patterns, the errors and the
-- SDK versions. The Unicode tables of strings.ToLower are a parameter, `lower_unicode`.
use record_hub.Base.{
  ℕ, ◌+◌, ◌*◌, ◌-◌, Text, text_eq, nat_eq, Bool, false, not, ◌&&◌, ◌||◌, ◌==◌, ◌!=◌, ltb, leb, List,
  [], ◌∷◌, all, map, length, is_empty, split, Option, none, some, if◌then◌else◌, max_int64, Result,
  ok, err, take, drop, codes,
}
use record_hub.Base.Trim.{trim_space}

pub data Error : Type 0 where
  invalid_manifest exists not_found unavailable revision_conflict sdk_incompatible : Error
  onboarding_not_found onboarding_exists onboarding_state onboarding_evidence : Error
  unauthenticated forbidden audit_failed : Error

abbrev pub is_lower_letter : ℕ → Bool
is_lower_letter c = leb 97 c && leb c 122

abbrev pub is_digit : ℕ → Bool
is_digit c = leb 48 c && leb c 57

abbrev is_name_byte : ℕ → Bool
is_name_byte c = is_lower_letter c || is_digit c || c == 46 || c == 45

abbrev is_hex : ℕ → Bool
is_hex c = is_digit c || (leb 97 c && leb c 102)

-- `^[a-z][a-z0-9.-]{0,63}$`
unfoldable pub name_pattern : Text → Bool
name_pattern [] = false
name_pattern (c ∷ s) = is_lower_letter c && all is_name_byte s && leb (length s) 63

-- `^sha256:[a-f0-9]{64}$`
unfoldable pub hash_pattern : Text → Bool
hash_pattern s = take 7 s == codes "sha256:" && all is_hex (drop 7 s) && length (drop 7 s) == 64

-- `^[a-f0-9]{7,64}$`
unfoldable pub source_commit_pattern : Text → Bool
source_commit_pattern s = all is_hex s && leb 7 (length s) && leb (length s) 64

-- strings.ToLower: the bytes of an ASCII text one by one, any other text by the Unicode tables.
abbrev lower_byte : ℕ → ℕ
lower_byte c = if leb 65 c && leb c 90 then c + 32 else c

unfoldable pub to_lower : (Text → Text) → Text → Text
to_lower lower_unicode s = if all (λ c. ltb c 128) s then map lower_byte s else lower_unicode s

pub record Version : Type 0 where
  pub major : ℕ
  pub minor : ℕ
  pub patch : ℕ

-- strconv.Atoi of digits: an error past the greatest int64.
unfoldable pub digits_value : ℕ → Text → ℕ
digits_value acc [] = acc
digits_value acc (c ∷ s) = digits_value (acc * 10 + (c - 48)) s

unfoldable pub atoi : Text → Option ℕ
unfolding digits_value
atoi s = let n = digits_value 0 s in if leb n max_int64 then some n else none

-- One of the three parts of `^[0-9]+\.[0-9]+\.[0-9]+$`.
abbrev is_number : Text → Bool
is_number s = not (is_empty s) && all is_digit s

version_of : Option ℕ → Option ℕ → Option ℕ → Result Error Version
version_of (some a) (some b) (some c) = ok (record { major = a; minor = b; patch = c })
version_of _ _ _ = err Error.invalid_manifest

version_parts : List Text → Result Error Version
unfolding version_of atoi
version_parts (a ∷ b ∷ c ∷ []) =
    if is_number a && is_number b && is_number c
    then version_of (atoi a) (atoi b) (atoi c)
    else err Error.invalid_manifest
version_parts _ = err Error.invalid_manifest

-- `ParseVersion`
unfoldable pub parse_version : Text → Result Error Version
unfolding version_parts
parse_version raw = version_parts (split 46 (trim_space raw))

-- `version.compare(other) < 0`, the other order is the same with the arguments swapped.
unfoldable pub version_before : Version → Version → Bool
version_before v w =
    if v.major != w.major
    then ltb v.major w.major
    else if v.minor != w.minor
    then ltb v.minor w.minor
    else ltb v.patch w.patch
