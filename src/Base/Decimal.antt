-- ===== src/Base/Decimal.antt =====
-- Decimal numerals, as fmt prints an int64 and a uint64.
use record_hub.Base.{ℕ, zero, suc, ◌+◌, ◌/◌, ◌%◌, Text, [], ◌∷◌, ltb, if◌then◌else◌, ℤ, pos, negsuc}

-- The digits of `n` before `acc`, with fuel for each digit.
pub digits_from : ℕ → ℕ → Text → Text
digits_from zero n acc = acc
digits_from (suc fuel) n acc =
    let rest = digits_from fuel (n / 10) ((48 + n % 10) ∷ acc) in
    if ltb n 10 then (48 + n) ∷ acc else rest

-- Twenty digits are enough for 64 bits.
unfoldable pub decimal : ℕ → Text
unfolding digits_from
decimal n = digits_from 20 n []

unfoldable pub decimal_ℤ : ℤ → Text
unfolding decimal
decimal_ℤ (pos n) = decimal n
decimal_ℤ (negsuc n) = b'-' ∷ decimal (n + 1)
