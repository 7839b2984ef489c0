-- ===== src/Pio/SideSet.antt =====
-- `SideSet` of pio-encode/src/lib.rs, and the field of bits 12..8 that it shares with the delay.
pub mod Layout
use beemel.Prelude.{
  ℕ, ◌+◌, ◌-◌, ◌*◌, ◌^◌, Bool, true, false, Option, none, some, bit_and, bit_or, ◌==◌,
  if◌then◌else◌,
}
use beemel.Prelude.Int.{ℤ, pos_part, within}
use beemel.Pio.Error.{
  Outcome, ok, err, delay_out_of_range, side_without_side_set, side_value_out_of_range,
  side_required, ◌>>=◌,
}

pub record SideSet : Type 0 where
  pub count : ℕ
  pub opt : Bool
  pub pindirs : Bool

-- `SideSet::default()`.
abbrev pub no_side_set : SideSet
no_side_set = record { count = 0; opt = false; pindirs = false }

-- `u8::from(b)`.
abbrev pub from_bool : Bool → ℕ
from_bool true = 1
from_bool false = 0

unfoldable pub total_bits : SideSet → ℕ
total_bits s = s.count + from_bool s.opt

-- No underflow: an accepted `.side_set` has at most 5 bits.
unfoldable pub delay_bits : SideSet → ℕ
delay_bits s = 5 - total_bits s

-- The side-set bits of the field. The least value of `side` in range is 0.
unfoldable pub side_field : SideSet → Option ℤ → Outcome ℕ
side_field s (some v) =
    let data_max = 2 ^ s.count - 1 in
    if within 0 data_max v
    then ok (if s.opt then bit_or (1 * 2 ^ s.count) (pos_part v) else pos_part v)
    else err (side_value_out_of_range v data_max)
side_field s none = if s.opt then ok 0 else err side_required

abbrev pub is_some {ℓ} : {A : Type ℓ} → Option A → Bool
is_some none = false
is_some (some a) = true

unfoldable pub delay_sideset_field : SideSet → Option ℤ → ℤ → Outcome ℕ
unfolding side_field
delay_sideset_field s side delay =
    let delay_max = 2 ^ delay_bits s - 1 in
    let d = pos_part delay in
    let shared : Outcome ℕ = (do
      side_bits ← side_field s side
      ok (bit_and (bit_or (side_bits * 2 ^ delay_bits s) d) 0x1F * 2 ^ 8)) in
    if within 0 delay_max delay
    then (if total_bits s == 0
        then (if is_some side then err side_without_side_set else ok (bit_and d 0x1F * 2 ^ 8))
        else shared)
    else err (delay_out_of_range delay delay_max)
