-- ===== src/Word/Defs.antt =====
-- The operations on `w`-bit signed integers.
use beemel.Prelude.{
  ℕ, zero, suc, ◌-◌, ◌*◌, ◌/◌, ◌%◌, ◌^◌, Bool, Option, none, some, bit_and, bit_or, bit_xor, ltb,
  ◌&&◌, if◌then◌else◌,
}
use beemel.Prelude.Int.{ℤ, pos, negsuc, sub_ℕ, ◌+ℤ◌, ◌-ℤ◌, ◌*ℤ◌, neg_ℤ}

-- -2 ^ (w - 1) ≤ z < 2 ^ (w - 1)
unfoldable pub fits : ℕ → ℤ → Bool
fits w (pos n) = ltb n (2 ^ (w - 1))
fits w (negsuc n) = ltb n (2 ^ (w - 1))

unfoldable pub checked : ℕ → ℤ → Option ℤ
unfolding fits
checked w z = if fits w z then some z else none

unfoldable pub checked_add : ℕ → ℤ → ℤ → Option ℤ
unfolding checked ◌+ℤ◌
checked_add w a b = checked w (a +ℤ b)

unfoldable pub checked_sub : ℕ → ℤ → ℤ → Option ℤ
unfolding checked ◌-ℤ◌
checked_sub w a b = checked w (a -ℤ b)

unfoldable pub checked_mul : ℕ → ℤ → ℤ → Option ℤ
unfolding checked ◌*ℤ◌
checked_mul w a b = checked w (a *ℤ b)

unfoldable pub checked_neg : ℕ → ℤ → Option ℤ
unfolding checked neg_ℤ
checked_neg w a = checked w (neg_ℤ a)

-- Division truncates toward zero; the remainder has the sign of the dividend.
unfoldable pub quotient : ℤ → ℤ → ℤ
quotient (pos a) (pos b) = pos (a / b)
quotient (pos a) (negsuc b) = sub_ℕ 0 (a / suc b)
quotient (negsuc a) (pos b) = sub_ℕ 0 (suc a / b)
quotient (negsuc a) (negsuc b) = pos (suc a / suc b)

unfoldable pub remainder : ℤ → ℤ → ℤ
remainder (pos a) (pos b) = pos (a % b)
remainder (pos a) (negsuc b) = pos (a % suc b)
remainder (negsuc a) (pos b) = sub_ℕ 0 (suc a % b)
remainder (negsuc a) (negsuc b) = sub_ℕ 0 (suc a % suc b)

-- A zero divisor has no quotient, and the least integer divided by -1 overflows.
unfoldable pub checked_div : ℕ → ℤ → ℤ → Option ℤ
unfolding checked quotient
checked_div w a (pos zero) = none
checked_div w a b = checked w (quotient a b)

unfoldable pub checked_rem : ℕ → ℤ → ℤ → Option ℤ
unfolding fits quotient remainder
checked_rem w a (pos zero) = none
checked_rem w a b = if fits w (quotient a b) then some (remainder a b) else none

-- The bit pattern of an integer, and the integer that a pattern stands for.
unfoldable pub pattern_of : ℕ → ℤ → ℕ
pattern_of w (pos n) = n % 2 ^ w
pattern_of w (negsuc n) = 2 ^ w - 1 - n % 2 ^ w

unfoldable pub of_pattern : ℕ → ℕ → ℤ
of_pattern w m = if ltb m (2 ^ (w - 1)) then pos m else negsuc (2 ^ w - 1 - m)

unfoldable pub and_word : ℕ → ℤ → ℤ → ℤ
unfolding pattern_of of_pattern
and_word w a b = of_pattern w (bit_and (pattern_of w a) (pattern_of w b))

unfoldable pub or_word : ℕ → ℤ → ℤ → ℤ
unfolding pattern_of of_pattern
or_word w a b = of_pattern w (bit_or (pattern_of w a) (pattern_of w b))

unfoldable pub xor_word : ℕ → ℤ → ℤ → ℤ
unfolding pattern_of of_pattern
xor_word w a b = of_pattern w (bit_xor (pattern_of w a) (pattern_of w b))

-- `!v` is -(v + 1).
unfoldable pub not_word : ℤ → ℤ
not_word (pos n) = negsuc n
not_word (negsuc n) = pos n

-- `u32::try_from(b).ok().and_then(|s| a.checked_shl(s))`: the shift amount is checked, the bits
-- shifted out are lost.
unfoldable pub checked_shl : ℕ → ℤ → ℤ → Option ℤ
unfolding pattern_of of_pattern
checked_shl w a (negsuc s) = none
checked_shl w a (pos s) =
    if ltb s (2 ^ 32) && ltb s w
    then some (of_pattern w ((pattern_of w a * 2 ^ s) % 2 ^ w))
    else none

unfoldable pub shift_right : ℤ → ℕ → ℤ
shift_right (pos n) s = pos (n / 2 ^ s)
shift_right (negsuc n) s = negsuc (n / 2 ^ s)

unfoldable pub checked_shr : ℕ → ℤ → ℤ → Option ℤ
unfolding shift_right
checked_shr w a (negsuc s) = none
checked_shr w a (pos s) = if ltb s (2 ^ 32) && ltb s w then some (shift_right a s) else none
