-- ===== src/Pio/SideSet/Layout.antt =====
-- Bits 12..8 of an instruction, read back: the delay, and the side-set value.
use beemel.Prelude.{
  ℕ, zero, suc, ◌+◌, ◌-◌, ◌*◌, ◌/◌, ◌%◌, ◌^◌, ◌≤◌, ◌<◌, ◌≡◌, ◌∙◌, ap, sym, Bool-cases, inl, inr,
  refl, true, false, Option, none, some, arith, bit_and, bit_or, ◌==◌, if◌then◌else◌,
}
use native.Mathlib.Numerals.{towards_suc}
use native.Mathlib.Nat.{pow-suc}
use beemel.Prelude.Int.{ℤ, pos, negsuc}
use beemel.Prelude.Bits.{bit_and-31, bit_or_fields, zero-bit_or, pow_pos}
use beemel.Pio.Error.{ok, ◌>>=◌}
use beemel.Pio.Ensures.{bind-eq-ok}
use beemel.Pio.SideSet.{SideSet, total_bits, delay_bits, side_field, delay_sideset_field}

-- What `.side_set` accepts: the data bits and the enable bit fit the five bits of the field.
abbrev pub IsSideSet : SideSet → Type 0
IsSideSet s = total_bits s ≤ 5

-- The low bits of the field of a word hold the delay.
unfoldable pub delay_of : SideSet → ℕ → ℕ
delay_of s w = w / 256 % 32 % 2 ^ delay_bits s

-- The side-set value that the high bits stand for: below an enable bit if it is optional.
unfoldable pub side_value : SideSet → ℕ → Option ℤ
side_value s bits =
    if total_bits s == 0
    then none
    else if s.opt
    then (if bits / 2 ^ s.count == 1 then some (pos (bits % 2 ^ s.count)) else none)
    else some (pos bits)

unfoldable pub side_of : SideSet → ℕ → Option ℤ
unfolding side_value
side_of s w = side_value s (w / 256 % 32 / 2 ^ delay_bits s)

-- `high` above `low`, in `k` values of `low`.
pack_lt : (a k high low : ℕ) → high < a → low < k → a * k ≡ 32 → high * k + low < 32
pack_lt a k high low p q e = grind arith

pack-div : (k high low : ℕ) → low < k → (high * k + low) / k ≡ high
pack-div k high low q = grind arith

pack-mod : (k high low : ℕ) → low < k → (high * k + low) % k ≡ low
pack-mod k high low q = grind arith

powers : (a : ℕ) → a ≤ 5 → 2 ^ a * 2 ^ (5 - a) ≡ 32
powers zero h = refl
powers (suc zero) h = refl
powers (suc (suc zero)) h = refl
powers (suc (suc (suc zero))) h = refl
powers (suc (suc (suc (suc zero)))) h = refl
powers (suc (suc (suc (suc (suc zero))))) h = refl
powers (suc (suc (suc (suc (suc (suc a)))))) h = absurd (omega arith)

-- The field `n` shifted to bits 12..8.
shifted :
    (n : ℕ) → n < 32 → (n * 2 ^ 8 / 256 % 32 ≡ n) × (n * 2 ^ 8 % 256 ≡ 0) × (n * 2 ^ 8 < 2 ^ 13)
shifted n h = omega arith

-- What the encoder writes for the side bits `high` and the delay `low`.
packed :
    (k high low : ℕ)
    → low < 2 ^ k
    → high * 2 ^ k + low < 32
    → bit_and (bit_or (high * 2 ^ k) low) 0x1F ≡ high * 2 ^ k + low
packed k high low p q =
    bit_and-31 (bit_or (high * 2 ^ k) low) ∙ omega (arith, bit_or_fields k high low p)

abbrev pub Fields : SideSet → Option ℤ → ℤ → ℕ → Type 0
Fields s side delay w =
    (delay ≡ pos (delay_of s w)) × (side ≡ side_of s w) × (w % 256 ≡ 0) × (w < 2 ^ 13)

module _ (s : SideSet) where
  total-pow : 2 ^ total_bits s ≡ (if s.opt then 2 * 2 ^ s.count else 2 ^ s.count)
  unfolding total_bits
  total-pow = elim (Bool-cases s.opt) [
    | inl e ↦ rw e (simp towards_suc (omega (arith, pow-suc 2 s.count)))
    | inr e ↦ rw e (ap (λ (n : ℕ). 2 ^ n) (omega arith))
  ]

  total_zero : total_bits s ≡ 0 → s.opt ≡ false
  unfolding total_bits
  total_zero h = ground arith

  -- The side bits that are written, the room they need, and the value they stand for.
  side_field-value :
      (side : Option ℤ) {high : ℕ}
      → (total_bits s == 0) ≡ false
      → side_field s side ≡ ok high
      → (high < 2 ^ total_bits s) × (side ≡ side_value s high)
  unfolding side_field side_value
  side_field-value none h e = ground (arith, pow_pos (total_bits s), pow_pos s.count)
  side_field-value (some (negsuc v)) h e = ground arith
  side_field-value (some (pos v)) h e = ground (
    arith,
    total-pow,
    pow_pos s.count,
    bit_or_fields s.count 1 v,
    pack-div (2 ^ s.count) 1 v,
    pack-mod (2 ^ s.count) 1 v,
  )

ok-injective : {a b : ℕ} → ok a ≡ ok b → a ≡ b
ok-injective h = cc

module _ (s : SideSet) (fits : IsSideSet s) where
  delay-pow : 2 ^ total_bits s * 2 ^ delay_bits s ≡ 32
  unfolding delay_bits
  delay-pow = powers (total_bits s) fits

  -- A field of `high` above `low` is read back as these two.
  read_back :
      (high low w : ℕ)
      → low < 2 ^ delay_bits s
      → high < 2 ^ total_bits s
      → bit_and (bit_or (high * 2 ^ delay_bits s) low) 0x1F * 2 ^ 8 ≡ w
      → Fields s (side_value s high) (pos low) w
  unfolding delay_of side_of
  read_back high low w p q e =
      let k = 2 ^ delay_bits s in
      let lt = pack_lt (2 ^ total_bits s) k high low q p delay-pow in
      let e' : (high * k + low) * 2 ^ 8 ≡ w = rw (← packed (delay_bits s) high low p lt) e in
      let (middle, low_clear, small) = shifted (high * k + low) lt in
      rw (← e') (
        rw middle (
          ap pos (sym (pack-mod k high low p)),
          ap (side_value s) (sym (pack-div k high low p)),
          low_clear,
          small,
        ))

  module _ (side : Option ℤ) (d : ℕ) {w : ℕ} (h : delay_sideset_field s side (pos d) ≡ ok w) where
    delay_fits : d < 2 ^ delay_bits s
    unfolding delay_sideset_field
    delay_fits = ground (arith, pow_pos (delay_bits s))

    no_side_bits : (total_bits s == 0) ≡ true → (side ≡ none) × (bit_and d 0x1F * 2 ^ 8 ≡ w)
    unfolding delay_sideset_field
    no_side_bits e = ground arith

    side_bits_first :
        (total_bits s == 0) ≡ false
        → (side_field s side >>= λ side_bits.
            ok (bit_and (bit_or (side_bits * 2 ^ delay_bits s) d) 0x1F * 2 ^ 8))
          ≡ ok w
    unfolding delay_sideset_field
    side_bits_first e = ground arith

    alone : (total_bits s == 0) ≡ true → Fields s side (pos d) w
    alone e =
        let (no_side, written) = no_side_bits e in
        let k = 2 ^ delay_bits s in
        let nothing : bit_or (0 * k) d ≡ d =
          ap (λ (z : ℕ). bit_or z d) (omega arith) ∙ zero-bit_or d in
        let back = read_back 0 d w delay_fits (pow_pos (total_bits s)) (rw nothing written) in
        (back.0, no_side ∙ sym (no_value e) ∙ back.1, back.2, back.3)
      where
        no_value : (total_bits s == 0) ≡ true → side_value s 0 ≡ none
        no_value e = unfold side_value in rw e

    together : (total_bits s == 0) ≡ false → Fields s side (pos d) w
    together e =
        let (high, found, written) = bind-eq-ok (side_field s side) _ (side_bits_first e) in
        let (room, value) = side_field-value s side e found in
        let back = read_back high d w delay_fits room (ok-injective written) in
        (back.0, value ∙ back.1, back.2, back.3)

  -- For a side-set shape that fits the field, an accepted pair of modifiers can be read back from the bits that encode it, and the bits lie
  -- in 12..8.
  pub delay_sideset_field-Fields :
      (side : Option ℤ) (delay : ℤ) {w : ℕ}
      → delay_sideset_field s side delay ≡ ok w
      → Fields s side delay w
  delay_sideset_field-Fields side (negsuc d) h = absurd (unfold delay_sideset_field in ground arith)
  delay_sideset_field-Fields side (pos d) h = elim (Bool-cases (total_bits s == 0)) [
    | inl e ↦ alone side d h e
    | inr e ↦ together side d h e
  ]
