-- ===== src/Pio/Decode/Whole.antt =====
-- A whole instruction: the mnemonic's word and the modifiers' field, each readable from the word.
use beemel.Prelude.{
  ℕ, ◌+◌, ◌*◌, ◌/◌, ◌%◌, ◌^◌, ◌<◌, ◌≡◌, refl, ap, ◌∙◌, Text, Option, some, List, ◌∷◌, arith, bit_or,
  lower, ◌is◌,
}
use beemel.Prelude.Int.{ℤ, pos}
use beemel.Prelude.Bits.{bit_or_split, bit_or_clear, bit_or-zero}
use beemel.Pio.Error.{Outcome, ok, err, panic, out_of_fuel}
use beemel.Pio.Ensures.{bind-eq-ok}
use beemel.Pio.Chars.{Unicode}
use beemel.Pio.Expr.Parser.{Symbols}
use beemel.Pio.SideSet.{SideSet, delay_sideset_field}
use beemel.Pio.SideSet.Layout.{IsSideSet, delay_of, side_of, delay_sideset_field-Fields}
use beemel.Pio.Line.{encode_base, encode_words}
use beemel.Pio.Decode.{Instr, decode, describe}
use beemel.Pio.Decode.Refines.{IsBase, Refines, Refines-if}
use beemel.Pio.Decode.Encoders.{
  enc_nop-Refines, enc_set-Refines, enc_jmp-Refines, enc_mov-Refines, enc_out-Refines,
  enc_in-Refines, enc_wait-Refines,
}
use beemel.Pio.Decode.Flags.{enc_push-Refines, enc_pull-Refines, enc_irq-Refines}

-- Disjoint fields, so the disjunction is a sum.
base_or_field : (b f : ℕ) → IsBase b → f % 256 ≡ 0 → f < 2 ^ 13 → bit_or b f ≡ b + f
base_or_field b f h e lt =
    let upper : bit_or (b / 256) (f / 256) ≡ b / 256 + f / 256 =
      bit_or_clear 5 (b / 256) (f / 256) h.0 (omega arith) in
    let b' : b ≡ b / 256 * 2 ^ 8 + b % 256 = omega arith in
    let f' : f ≡ f / 256 * 2 ^ 8 + 0 = omega arith in
    ap (λ (x : ℕ). bit_or x f) b'
    ∙ ap (λ (x : ℕ). bit_or (b / 256 * 2 ^ 8 + b % 256) x) f'
    ∙ bit_or_split 8 (b / 256) (b % 256) (f / 256) 0 (omega arith) (omega arith)
    ∙ rw (bit_or-zero (b % 256), upper) (omega arith)

-- The field does not disturb the instruction.
decode-add_field : (b f : ℕ) → IsBase b → f % 256 ≡ 0 → f < 2 ^ 13 → decode (b + f) ≡ decode b
unfolding decode
decode-add_field b f h e lt =
    let top : (b + f) / 2 ^ 13 ≡ b / 2 ^ 13 = omega arith in
    let middle : (b + f) / 32 % 8 ≡ b / 32 % 8 = omega arith in
    let bottom : (b + f) % 32 ≡ b % 32 = omega arith in rw (top, middle, bottom)

-- The instruction does not disturb the field.
field-add_base : (b f : ℕ) → IsBase b → f % 256 ≡ 0 → f < 2 ^ 13 → (b + f) / 256 % 32 ≡ f / 256 % 32
field-add_base b f h clear lt = omega arith

Refines-inversion :
    (m : Outcome ℕ) (n : Outcome Instr) {w : ℕ}
    → Refines m n
    → m ≡ ok w
    → (i : Instr) × (n ≡ ok i) × (decode w ≡ some i) × IsBase w
Refines-inversion (ok v) (ok i) {w} h e =
    let v' : v ≡ w = cc in (i, refl, rw (← v') h.0, rw (← v') h.1)
Refines-inversion (ok v) (err d) h e = absurd h
Refines-inversion (ok v) panic h e = absurd h
Refines-inversion (ok v) out_of_fuel h e = absurd h
Refines-inversion (err d) n h e = cc
Refines-inversion panic n h e = cc
Refines-inversion out_of_fuel n h e = cc

module _ (u : Unicode) (m : Symbols) where
  -- For every mnemonic and operand list, the encoder reports the description's error, or makes a
  -- word that decodes to the described instruction and leaves bits 12..8 clear.
  pub encode_base-Refines :
      (mnemonic : Text) (toks : List Text)
      → Refines (encode_base u m mnemonic toks) (describe u m mnemonic toks)
  unfolding encode_base describe
  encode_base-Refines t toks = Refines-if (t is "nop") _ _ _ _ (enc_nop-Refines toks) (
      Refines-if (t is "set") _ _ _ _ (enc_set-Refines u m toks) (
        Refines-if (t is "jmp") _ _ _ _ (enc_jmp-Refines u m toks) (
          Refines-if (t is "mov") _ _ _ _ (enc_mov-Refines toks) (
            Refines-if (t is "out") _ _ _ _ (enc_out-Refines u m toks) (
              Refines-if (t is "in") _ _ _ _ (enc_in-Refines u m toks) (
                Refines-if (t is "push") _ _ _ _ (enc_push-Refines toks) (
                  Refines-if (t is "pull") _ _ _ _ (enc_pull-Refines toks) (
                    Refines-if (t is "wait") _ _ _ _ (enc_wait-Refines u m toks)
                      (Refines-if (t is "irq") _ _ _ _ (enc_irq-Refines u m toks) refl)))))))))

  -- What a word says: the instruction, the delay and the side-set value, in 16 bits.
  abbrev pub Says : SideSet → Text → List Text → Option ℤ → ℤ → ℕ → Type 0
  Says s mnemonic toks side delay w =
      ((i : Instr) × (describe u m mnemonic toks ≡ ok i) × (decode w ≡ some i))
      × (delay ≡ pos (delay_of s w))
      × (side ≡ side_of s w)
      × (w < 2 ^ 16)

  -- With a side-set shape that fits the field, an instruction that is encoded can be read back from its word: the instruction that the
  -- operands describe, the delay, and the side-set value;
  -- the word has 16 bits.
  pub encode_words-Says :
      (s : SideSet) (mnemonic : Text) (toks : List Text) (side : Option ℤ) (delay : ℤ) {w : ℕ}
      → IsSideSet s
      → encode_words u m s (mnemonic ∷ toks) side delay ≡ ok w
      → Says s (lower mnemonic) toks side delay w
  unfolding encode_words delay_of side_of
  encode_words-Says s mnemonic toks side delay {w} fits h =
      let (base, encoded, rest) = bind-eq-ok (encode_base u m (lower mnemonic) toks) _ h in
      let (field, made, joined) = bind-eq-ok (delay_sideset_field s side delay) _ rest in
      let (i, described, decoded, is_base) =
        Refines-inversion _ _ (encode_base-Refines (lower mnemonic) toks) encoded in
      let fields = delay_sideset_field-Fields s fits side delay made in
      let sum : w ≡ base + field = cc (base_or_field base field is_base fields.2 fields.3) in
      let read = field-add_base base field is_base fields.2 fields.3 in
      rw sum (
        (i, described, decode-add_field base field is_base fields.2 fields.3 ∙ decoded),
        rw read fields.0,
        rw read fields.1,
        omega arith,
      )
