-- ===== src/Pio/Decode/Refines.antt =====
-- An encoder refines a description: the same errors, and a word that decodes to the instruction.
use beemel.Prelude.{
  ℕ, ◌+◌, ◌*◌, ◌/◌, ◌%◌, ◌<◌, ◌^◌, ◌≡◌, refl, Bool, true, false, some, arith, if◌then◌else◌, bit_or,
}
use beemel.Prelude.Bits.{bit_or_fields, bit_or_clear}
use beemel.Pio.Error.{Outcome, ok, err, panic, out_of_fuel, ◌>>=◌}
use beemel.Pio.Ensures.{Ensures}
use beemel.Pio.Decode.{Instr, decode, decode_fields}

-- A base word leaves bits 12..8 to the delay and the side-set.
abbrev pub IsBase : ℕ → Type 0
IsBase w = (w / 256 % 32 ≡ 0) × (w < 2 ^ 16)

abbrev pub Refines : Outcome ℕ → Outcome Instr → Type 0
Refines (ok w) (ok i) = (decode w ≡ some i) × IsBase w
Refines (err e) (err e') = e ≡ e'
Refines panic panic = Unit
Refines _ _ = ⊥

pub Refines-bind {ℓ} :
    {A : Type ℓ} (P : A → Type 0) (m : Outcome A) (f : A → Outcome ℕ) (g : A → Outcome Instr)
    → Ensures P m
    → ((a : A) → P a → Refines (f a) (g a))
    → Refines (m >>= f) (m >>= g)
Refines-bind P (ok a) f g h k = k a h
Refines-bind P (err e) f g h k = refl
Refines-bind P panic f g h k = tt
Refines-bind P out_of_fuel f g h k = absurd h

pub Refines-if :
    (b : Bool) (m m' : Outcome ℕ) (n n' : Outcome Instr)
    → Refines m n
    → Refines m' n'
    → Refines (if b then m else m') (if b then n else n')
Refines-if true m m' n n' h h' = h
Refines-if false m m' n n' h h' = h'

-- The three fields of a base word.
pub fields :
    (opcode high low : ℕ)
    → high < 8
    → low < 32
    → bit_or (bit_or (opcode * 2 ^ 13) (high * 2 ^ 5)) low ≡ opcode * 2 ^ 13 + high * 2 ^ 5 + low
fields opcode high low p q =
    rw (bit_or_fields 13 opcode (high * 2 ^ 5) (omega arith))
      (bit_or_clear 5 (opcode * 2 ^ 13 + high * 2 ^ 5) low (omega arith) q)

pub decode-fields :
    (opcode high low : ℕ)
    → opcode < 8
    → high < 8
    → low < 32
    → (decode (opcode * 2 ^ 13 + high * 2 ^ 5 + low) ≡ decode_fields opcode high low)
      × IsBase (opcode * 2 ^ 13 + high * 2 ^ 5 + low)
unfolding decode
decode-fields opcode high low o p q =
    let w = opcode * 2 ^ 13 + high * 2 ^ 5 + low in
    let top : w / 2 ^ 13 ≡ opcode = omega arith in
    let middle : w / 32 % 8 ≡ high = omega arith in
    let bottom : w % 32 ≡ low = omega arith in (rw (top, middle, bottom), omega arith)
