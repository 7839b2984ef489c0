-- ===== src/Word/Laws.antt =====
-- Every result of a checked or a bitwise operation is a `w`-bit integer.
use beemel.Prelude.{ℕ, zero, suc, ◌-◌, ◌*◌, ◌%◌, ◌^◌, ◌<◌, ◌≡◌, ap, true, Option, none, some, arith}
use native.Mathlib.Nat.{pow-suc, one-le-pow}
use beemel.Prelude.Int.{ℤ, pos, negsuc}
use beemel.Prelude.Bits.{bit_and_lt, bit_or_lt, bit_xor_lt}
use beemel.Word.Defs.{
  fits, checked, checked_add, checked_sub, checked_mul, checked_neg, remainder, checked_div,
  checked_rem, pattern_of, of_pattern, and_word, or_word, xor_word, not_word, shift_right,
  checked_shl, checked_shr,
}

-- `z` is a `w`-bit integer.
abbrev pub IsWord : ℕ → ℤ → Type 0
IsWord w z = fits w z ≡ true

-- The result, if there is one, is a `w`-bit integer.
abbrev pub MaybeWord : ℕ → Option ℤ → Type 0
MaybeWord w none = Unit
MaybeWord w (some z) = IsWord w z

pub checked-MaybeWord : (w : ℕ) (z : ℤ) → MaybeWord w (checked w z)
unfolding checked
checked-MaybeWord w z = ground arith

pow_pos : (k : ℕ) → 0 < 2 ^ k
pow_pos k = one-le-pow k 2 (omega arith)

module _ (w : ℕ) where
  pub pattern_of-lt : (z : ℤ) → pattern_of w z < 2 ^ w
  unfolding pattern_of
  pattern_of-lt (pos n) = ground (arith, pow_pos w)
  pattern_of-lt (negsuc n) = ground (arith, pow_pos w)

  mod_pow_lt : (n : ℕ) → n % 2 ^ w < 2 ^ w
  mod_pow_lt n = ground (arith, pow_pos w)

  module _ (positive : 0 < w) where
    pow_pred : 2 ^ w ≡ 2 ^ suc (w - 1)
    pow_pred = ap (λ (k : ℕ). 2 ^ k) (omega arith)

    pub pow_halves : 2 ^ w ≡ 2 * 2 ^ (w - 1)
    pow_halves = omega (arith, pow-suc 2 (w - 1), pow_pred)

    pub of_pattern-IsWord : (m : ℕ) → m < 2 ^ w → IsWord w (of_pattern w m)
    unfolding of_pattern fits
    of_pattern-IsWord m h = ground (arith, pow_halves)

    pub and_word-IsWord : (a b : ℤ) → IsWord w (and_word w a b)
    unfolding and_word
    and_word-IsWord a b = of_pattern-IsWord _ (bit_and_lt w _ _ (pattern_of-lt a) (pattern_of-lt b))

    pub or_word-IsWord : (a b : ℤ) → IsWord w (or_word w a b)
    unfolding or_word
    or_word-IsWord a b = of_pattern-IsWord _ (bit_or_lt w _ _ (pattern_of-lt a) (pattern_of-lt b))

    pub xor_word-IsWord : (a b : ℤ) → IsWord w (xor_word w a b)
    unfolding xor_word
    xor_word-IsWord a b = of_pattern-IsWord _ (bit_xor_lt w _ _ (pattern_of-lt a) (pattern_of-lt b))

    pub checked_shl-MaybeWord : (a b : ℤ) → MaybeWord w (checked_shl w a b)
    unfolding checked_shl
    checked_shl-MaybeWord a (negsuc s) = tt
    checked_shl-MaybeWord a (pos s) =
        ground (arith, of_pattern-IsWord ((pattern_of w a * 2 ^ s) % 2 ^ w) (mod_pow_lt _))

  pub checked_add-MaybeWord : (a b : ℤ) → MaybeWord w (checked_add w a b)
  unfolding checked_add
  checked_add-MaybeWord a b = checked-MaybeWord w _

  pub checked_sub-MaybeWord : (a b : ℤ) → MaybeWord w (checked_sub w a b)
  unfolding checked_sub
  checked_sub-MaybeWord a b = checked-MaybeWord w _

  pub checked_mul-MaybeWord : (a b : ℤ) → MaybeWord w (checked_mul w a b)
  unfolding checked_mul
  checked_mul-MaybeWord a b = checked-MaybeWord w _

  pub checked_neg-MaybeWord : (a : ℤ) → MaybeWord w (checked_neg w a)
  unfolding checked_neg
  checked_neg-MaybeWord a = checked-MaybeWord w _

  pub checked_div-MaybeWord : (a b : ℤ) → MaybeWord w (checked_div w a b)
  unfolding checked_div
  checked_div-MaybeWord a (pos zero) = tt
  checked_div-MaybeWord a (pos (suc b)) = checked-MaybeWord w _
  checked_div-MaybeWord a (negsuc b) = checked-MaybeWord w _

  -- A remainder is no larger than the dividend.
  remainder-IsWord : (a b : ℤ) → IsWord w a → IsWord w (remainder a b)
  unfolding remainder fits
  remainder-IsWord (pos a) (pos b) h = ground arith
  remainder-IsWord (pos a) (negsuc b) h = ground arith
  remainder-IsWord (negsuc a) (pos b) h = ground arith
  remainder-IsWord (negsuc a) (negsuc b) h = ground arith

  pub checked_rem-MaybeWord : (a b : ℤ) → IsWord w a → MaybeWord w (checked_rem w a b)
  unfolding checked_rem
  checked_rem-MaybeWord a (pos zero) h = tt
  checked_rem-MaybeWord a (pos (suc b)) h = ground (arith, remainder-IsWord a (pos (suc b)) h)
  checked_rem-MaybeWord a (negsuc b) h = ground (arith, remainder-IsWord a (negsuc b) h)

  shift_right-IsWord : (a : ℤ) (s : ℕ) → IsWord w a → IsWord w (shift_right a s)
  unfolding shift_right fits
  shift_right-IsWord (pos n) s h = ground arith
  shift_right-IsWord (negsuc n) s h = ground arith

  pub checked_shr-MaybeWord : (a b : ℤ) → IsWord w a → MaybeWord w (checked_shr w a b)
  unfolding checked_shr
  checked_shr-MaybeWord a (negsuc s) h = tt
  checked_shr-MaybeWord a (pos s) h = ground (arith, shift_right-IsWord a s h)

  pub not_word-IsWord : (a : ℤ) → IsWord w a → IsWord w (not_word a)
  unfolding not_word fits
  not_word-IsWord (pos n) h = h
  not_word-IsWord (negsuc n) h = h
