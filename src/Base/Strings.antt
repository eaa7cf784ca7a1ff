-- ===== src/Base/Strings.antt =====
-- Go strings as lists of bytes: length, equality, ContainsAny.
use Prim.Native.Nat.{ℕ, zero, suc}
use Prim.Native.String.{String}
use Prim.Native.Char.{code}
use mathlib.Core.Bool.{Bool, true, false, ◌&&◌}
use mathlib.Core.Option.{Option, none, some}
use mathlib.Core.List.{List, [], ◌∷◌}
use native.Mathlib.Decide.{ℕ_discrete}
use record_hub.Base.Tests.{Eq, nat_eq, leb, ◌==◌, if◌then◌else◌}
use record_hub.Base.Lists.{any, contains}

abbrev pub Text : Type 0
Text = List ℕ

-- The bytes of an ASCII literal. `String` has its own `[]` and `∷`.
abbrev pub codes : String → Text
codes String.[] = []
codes (String.◌∷◌ c s) = code c ∷ codes s

unfoldable pub Text-discrete : Discrete Text
unfolding ℕ_discrete
Text-discrete = hlevel ℕ_discrete

instance abbrev pub text_eq : Eq Text
text_eq = record { dec = Text-discrete }

-- `s == ""`
abbrev pub is_empty : Text → Bool
is_empty [] = true
is_empty (c ∷ s) = false

-- strings.ContainsAny(s, chars) for ASCII `chars`.
abbrev pub contains_any : Text → Text → Bool
contains_any s chars = any (λ c. contains chars c) s

-- strings.Split by a separator of one byte.
abbrev cons_head : ℕ → List Text → List Text
cons_head c [] = (c ∷ []) ∷ []
cons_head c (part ∷ parts) = (c ∷ part) ∷ parts

unfoldable pub split : ℕ → Text → List Text
split sep [] = [] ∷ []
split sep (c ∷ s) = let rest = split sep s in if c == sep then [] ∷ rest else cons_head c rest

-- What a leading byte of UTF-8 asks for: how many bytes follow, and the range of the first of them.
lead : ℕ → Option (ℕ × ℕ × ℕ)
lead c =
    if leb c 0x7F
    then some (0, 0x80, 0xBF)
    else if leb 0xC2 c && leb c 0xDF
    then some (1, 0x80, 0xBF)
    else if c == 0xE0
    then some (2, 0xA0, 0xBF)
    else if c == 0xED
    then some (2, 0x80, 0x9F)
    else if leb 0xE1 c && leb c 0xEF
    then some (2, 0x80, 0xBF)
    else if c == 0xF0
    then some (3, 0x90, 0xBF)
    else if leb 0xF1 c && leb c 0xF3
    then some (3, 0x80, 0xBF)
    else if c == 0xF4
    then some (3, 0x80, 0x8F)
    else none

-- The first number counts the bytes that are due of a rune, the next two bound the coming one.
utf8_from : ℕ → ℕ → ℕ → Text → Bool
utf8_from zero low high [] = true
utf8_from (suc due) low high [] = false
utf8_from zero low high (c ∷ s) = elim (lead c) [
  | none ↦ false
  | some (due, low', high') ↦ utf8_from due low' high' s
]
utf8_from (suc due) low high (c ∷ s) = leb low c && leb c high && utf8_from due 0x80 0xBF s

-- utf8.Valid
unfoldable pub utf8_valid : Text → Bool
unfolding lead utf8_from
utf8_valid s = utf8_from 0 0 0 s
