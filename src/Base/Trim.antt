-- ===== src/Base/Trim.antt =====
-- strings.TrimSpace over the bytes of a string. A space is one of the runes that unicode.IsSpace
-- accepts, in its UTF-8 form; a byte of another form ends the trimming, as it does in Go.
use Prim.Native.Nat.{ℕ, zero, suc}
use mathlib.Core.Bool.{Bool, true, false, ◌&&◌, ◌||◌}
use mathlib.Core.List.{[], ◌∷◌, reverse}
use record_hub.Base.Tests.{if◌then◌else◌, leb, nat_eq, ◌==◌}
use record_hub.Base.Strings.{Text}

-- Tab, line feed, vertical tab, form feed, carriage return, blank.
pub space1 : ℕ → Bool
space1 a = (leb 9 a && leb a 13) || a == 32

-- U+0085 and U+00A0.
pub space2 : ℕ → ℕ → Bool
space2 a b = a == 0xC2 && (b == 0x85 || b == 0xA0)

-- U+1680, U+2000 to U+200A, U+2028, U+2029, U+202F, U+205F, U+3000.
pub space3 : ℕ → ℕ → ℕ → Bool
space3 a b c =
    (a == 0xE1 && b == 0x9A && c == 0x80)
    || (a == 0xE2
        && ((b == 0x80 && ((leb 0x80 c && leb c 0x8A) || c == 0xA8 || c == 0xA9 || c == 0xAF))
            || (b == 0x81 && c == 0x9F)))
    || (a == 0xE3 && b == 0x80 && c == 0x80)

-- How many bytes the space takes that the text begins with; 0 if it begins with none.
pub space_width : Text → ℕ
unfolding space1 space2 space3
space_width [] = 0
space_width (a ∷ []) = if space1 a then 1 else 0
space_width (a ∷ b ∷ []) = if space1 a then 1 else if space2 a b then 2 else 0
space_width (a ∷ b ∷ c ∷ r) =
    if space1 a then 1 else if space2 a b then 2 else if space3 a b c then 3 else 0

-- The same of the space that a text ends with, read on the reversed text.
pub space_width_rev : Text → ℕ
unfolding space1 space2 space3
space_width_rev [] = 0
space_width_rev (a ∷ []) = if space1 a then 1 else 0
space_width_rev (b ∷ a ∷ []) = if space1 b then 1 else if space2 a b then 2 else 0
space_width_rev (c ∷ b ∷ a ∷ r) =
    if space1 c then 1 else if space2 b c then 2 else if space3 a b c then 3 else 0

-- Drops spaces from the front; the first number counts the bytes that are left of a space.
pub strip : (Text → ℕ) → ℕ → Text → Text
strip width zero [] = []
strip width zero (a ∷ r) = elim (width (a ∷ r)) [ zero ↦ a ∷ r | suc k ↦ strip width k r ]
strip width (suc k) [] = []
strip width (suc k) (a ∷ r) = strip width k r

unfoldable pub trim_space : Text → Text
unfolding strip space_width space_width_rev
trim_space s = reverse (strip space_width_rev 0 (reverse (strip space_width 0 s)))

-- `strings.TrimSpace(s) == ""`
unfoldable pub is_blank : Text → Bool
unfolding trim_space
is_blank s = elim (trim_space s) [ [] ↦ true | _ ↦ false ]
