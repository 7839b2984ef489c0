-- ===== src/ConstEval/Cast.antt =====
-- `truncate_int` of bml-core/src/consteval.rs: the masks and shifts against residues.
use beemel.Prelude.{
  ℕ, zero, suc, ◌-◌, ◌*◌, ◌/◌, ◌%◌, ◌^◌, ◌≤◌, ◌<◌, ◌≡◌, refl, ap, Bool, true, false, ◌&&◌, Option,
  none, some, Text, Bool-cases, inl, inr, ◌||◌, ◌is◌, if◌then◌else◌, not, arith, bit_and, ltb,
}
use native.Mathlib.Nat.{pow-suc}
use beemel.Prelude.Int.{ℤ, pos, negsuc, ◌-ℤ◌, eqb_ℤ}
use beemel.Prelude.Bits.{bit_and_low, bit_and-zero, pow_pos}
use beemel.Word.{and_word, shift_right, pattern_of, of_pattern, pattern_of-lt, pow_halves}
use beemel.ConstEval.Value.{
  ConstVal, int_val, truncate_int, named_bits, int_type_bits, as_int, cast_to, apply_cast,
}
use beemel.Ast.Syntax.{TypeExpr, named}

halved : (m p : ℕ) → 0 < p → (m % (2 * p) / 2 ≡ m / 2 % p) × (m % (2 * p) % 2 ≡ m % 2)
halved m p h = grind arith

bit_and-mask : (k m : ℕ) → bit_and m (2 ^ k - 1) ≡ m % 2 ^ k
bit_and-mask zero m = omega (arith, bit_and-zero m)
bit_and-mask (suc k) m =
    let p = 2 ^ k in
    let double : 2 ^ suc k ≡ 2 * p = omega (arith, pow-suc 2 k) in
    let positive = pow_pos k in
    let mask : ((2 * p - 1) / 2 ≡ p - 1) × ((2 * p - 1) % 2 ≡ 1) = omega arith in
    let above : bit_and (m / 2) ((2 * p - 1) / 2) ≡ m / 2 % p =
      rw mask.0 (bit_and-mask k (m / 2)) in
    rw double (omega (arith, bit_and_low m (2 * p - 1), halved m p positive, above, mask))

-- The widths of the integer types, and the one bit of the sign.
pub data Width : ℕ → Type 0 where
  bit : Width 1
  byte : Width 8
  half : Width 16
  word : Width 32
  double_word : Width 64

pattern_of-mod : {k : ℕ} → Width k → (z : ℤ) → pattern_of 128 z % 2 ^ k ≡ pattern_of k z
unfolding pattern_of
pattern_of-mod bit (pos n) = omega arith
pattern_of-mod bit (negsuc n) = omega arith
pattern_of-mod byte (pos n) = omega arith
pattern_of-mod byte (negsuc n) = omega arith
pattern_of-mod half (pos n) = omega arith
pattern_of-mod half (negsuc n) = omega arith
pattern_of-mod word (pos n) = omega arith
pattern_of-mod word (negsuc n) = omega arith
pattern_of-mod double_word (pos n) = omega arith
pattern_of-mod double_word (negsuc n) = omega arith

pub Width-le : {k : ℕ} → Width k → 2 ^ k ≤ 2 ^ 64
Width-le bit = omega arith
Width-le byte = omega arith
Width-le half = omega arith
Width-le word = omega arith
Width-le double_word = omega arith

small_pattern : (m : ℕ) → m < 2 ^ 64 → (m % 2 ^ 128 ≡ m) × (of_pattern 128 m ≡ pos m)
unfolding of_pattern
small_pattern m h = ground arith

-- The mask keeps the residue of the integer.
and_word-mask :
    {k : ℕ} → Width k → (z : ℤ) → and_word 128 z (pos (2 ^ k - 1)) ≡ pos (pattern_of k z)
unfolding and_word
and_word-mask {k} w z =
    let below = Width-le w in
    let positive = pow_pos k in
    let m = 2 ^ k - 1 in
    let mask : pattern_of 128 (pos m) ≡ m =
      unfold pattern_of in (small_pattern m (omega arith)).0 in
    let small = pattern_of-lt k z in
    rw (mask, bit_and-mask k (pattern_of 128 z), pattern_of-mod w z)
      ((small_pattern (pattern_of k z) (omega arith)).1)

-- The integer of `k` bits, signed or not, with the low bits of `z`.
unfoldable pub wrapped : ℕ → Bool → ℤ → ℤ
unfolding pattern_of of_pattern
wrapped k signed z = if signed then of_pattern k (pattern_of k z) else pos (pattern_of k z)

low_quotient : (m p : ℕ) → m < p → m / p ≡ 0
low_quotient m p h = grind arith

high_quotient : (m p : ℕ) → m < 2 * p → p ≤ m → m / p ≡ 1
high_quotient m p h k = grind arith

sign_bit : (m p : ℕ) → m < 2 * p → 0 < p → eqb_ℤ (pos (m / p % 2)) (pos 1) ≡ not (ltb m p)
sign_bit m p h q = ground (arith, low_quotient m p, high_quotient m p)

sign_extend :
    (b : Bool) (m p : ℕ)
    → m < 2 * p
    → 0 < p
    → (if b && eqb_ℤ (pos (m / p % 2)) (pos 1) then pos m -ℤ pos (2 * p) else pos m)
      ≡ (if b then (if ltb m p then pos m else negsuc (2 * p - 1 - m)) else pos m)
unfolding ◌-ℤ◌
sign_extend b m p h q = rw (sign_bit m p h q) (ground arith)

pub truncate_int-wrapped :
    {k : ℕ}
    → Width k
    → 0 < k - 1
    → (signed : Bool) (z : ℤ) → truncate_int z k signed ≡ wrapped k signed z
unfolding truncate_int wrapped of_pattern
truncate_int-wrapped {k} w h signed z =
    let m = pattern_of k z in
    let double : 2 ^ k ≡ 2 * 2 ^ (k - 1) = pow_halves k (omega arith) in
    let lt = pattern_of-lt k z in
    let sign : and_word 128 (shift_right (pos m) (k - 1)) (pos 1) ≡ pos (m / 2 ^ (k - 1) % 2) =
      unfold shift_right pattern_of in and_word-mask bit (pos (m / 2 ^ (k - 1))) in
    rw (and_word-mask w z, sign, double)
      (sign_extend signed m (2 ^ (k - 1)) (omega arith) (pow_pos (k - 1)))

-- One test of a chain: its width, or the rest of the chain.
first :
    (b s : Bool) {w k : ℕ} {signed : Bool} {rest : Option (ℕ × Bool)}
    → Width w
    → 0 < w - 1
    → (rest ≡ some (k, signed) → Width k × (0 < k - 1))
    → (if b then some (w, s) else rest) ≡ some (k, signed)
    → Width k × (0 < k - 1)
first true s {w} {k} width wide later h = let e : w ≡ k = cc in rw (← e) (width, wide)
first false s width wide later h = later h

-- A type that names an integer has one of the widths.
named_bits-Width :
    (t : Text) {k : ℕ} {signed : Bool} → named_bits t ≡ some (k, signed) → Width k × (0 < k - 1)
unfolding named_bits
named_bits-Width t h =
    first (t is "i8") true byte (omega arith)
      (first (t is "i16") true half (omega arith) (
        first (t is "i32") true word (omega arith) (
          first (t is "i64") true double_word (omega arith) (
            first ((t is "u8") || (t is "b8")) false byte (omega arith) (
              first (t is "u16") false half (omega arith) (
                first (t is "u32") false word (omega arith)
                  (first (t is "u64") false double_word (omega arith) λ e. cc)))))))
      h

mod_small : (m p : ℕ) → m < p → m % p ≡ m
mod_small m p h = grind arith

pattern_of-of_pattern : (k m : ℕ) → m < 2 ^ k → pattern_of k (of_pattern k m) ≡ m
unfolding pattern_of of_pattern
pattern_of-of_pattern k m h =
    let flipped = 2 ^ k - 1 - m in
    elim (Bool-cases (ltb m (2 ^ (k - 1)))) [
      | inl e ↦ rw e (mod_small m (2 ^ k) h)
      | inr e ↦ rw e (omega (arith, mod_small flipped (2 ^ k) (omega arith)))
    ]

-- What a cast promises: a residue at the width of an integer type, and any other value unchanged.
abbrev pub wrap_to : Option (ℕ × Bool) → ConstVal → ConstVal
wrap_to none v = v
wrap_to (some (k, signed)) v = int_val (wrapped k signed (as_int v))

pub int_type_bits-Width :
    (t : TypeExpr) (k : ℕ) (signed : Bool)
    → int_type_bits t ≡ some (k, signed)
    → Width k × (0 < k - 1)
unfolding int_type_bits
int_type_bits-Width (named x) k signed h = named_bits-Width x.name h
int_type_bits-Width _ k signed h = cc

cast_to-wrapped :
    (o : Option (ℕ × Bool)) (v : ConstVal)
    → ((k : ℕ) (signed : Bool) → o ≡ some (k, signed) → Width k × (0 < k - 1))
    → cast_to o v ≡ wrap_to o v
cast_to-wrapped none v h = refl
cast_to-wrapped (some (k, signed)) v h =
    let (width, wide) = h k signed refl in
    ap int_val (truncate_int-wrapped width wide signed (as_int v))

-- A cast to an integer type takes the value modulo 2 ^ bits, into the range of the type; a cast to
-- another type leaves it.
pub apply_cast-wrapped :
    (v : ConstVal) (t : TypeExpr) → apply_cast v t ≡ wrap_to (int_type_bits t) v
unfolding apply_cast
apply_cast-wrapped v t = cast_to-wrapped (int_type_bits t) v (int_type_bits-Width t)
