-- ===== src/Pio/Decode/Flags.antt =====
-- The encoders whose operands set single bits, `push`, `pull` and `irq`, and all of them together.
use beemel.Prelude.{
  ℕ, ◌+◌, ◌*◌, ◌/◌, ◌%◌, ◌^◌, ◌≤◌, ◌<◌, ◌≡◌, refl, ◌∙◌, Text, Bool, true, false, ◌&&◌, ◌||◌, some,
  List, [], ◌∷◌, arith, bit_or, codes, lower, ◌is◌, text_eq, ◌==◌, if◌then◌else◌,
}
use beemel.Prelude.Bits.{bit_or_clear}
use beemel.Prelude.Int.{pos}
use beemel.Pio.Error.{Outcome, ok, ◌>>=◌}
use beemel.Pio.Ensures.{Ensures, bind_assoc}
use beemel.Pio.Chars.{Unicode}
use beemel.Pio.Expr.Parser.{Symbols}
use beemel.Pio.Encode.{
  as_u16, block_operands, enc_push, enc_pull, irq_mode, irq_rel, irq_num, enc_irq,
}
use beemel.Pio.Decode.{
  Instr, decode, decode_fields, describe_block, describe_push, describe_pull, describe_mode,
  describe_irq,
}
use beemel.Pio.Decode.Refines.{Refines, Refines-bind}
use beemel.Pio.Decode.Operands.{Anything, irq_num-ends}
use beemel.Pio.Decode.Encoders.{as_u16-pos, word-Refines, number-Refines}

-- The word with or without the bit of `iffull` and `ifempty`.
abbrev with_flag : ℕ → Bool → ℕ
with_flag w conditional = if conditional then bit_or w (1 * 2 ^ 6) else w

with_flag-or :
    (w : ℕ) (c : Bool)
    → bit_or (bit_or w (1 * 2 ^ 6)) (1 * 2 ^ 6) ≡ bit_or w (1 * 2 ^ 6)
    → bit_or (with_flag w c) (1 * 2 ^ 6) ≡ with_flag w true
with_flag-or w true idem = idem
with_flag-or w false idem = refl

-- A branch whose two sides continue alike.
if-bind {ℓ κ} :
    {A : Type ℓ} {B : Type κ} (b : Bool) (f : A → Outcome B) (x y : Outcome A) (x' y' : Outcome B)
    → x' ≡ (x >>= f)
    → y' ≡ (y >>= f)
    → (if b then x' else y') ≡ ((if b then x else y) >>= f)
if-bind true f x y x' y' p q = p
if-bind false f x y x' y' p q = q

-- The loop over the operands carries the bit that the description carries as a flag.
block_operands-describe :
    (w : ℕ) (what if_flag : Text) (conditional block : Bool) (toks : List Text)
    → bit_or (bit_or w (1 * 2 ^ 6)) (1 * 2 ^ 6) ≡ bit_or w (1 * 2 ^ 6)
    → block_operands what if_flag (with_flag w conditional) block toks
      ≡ (describe_block what if_flag conditional block toks >>= λ (c, b). ok (with_flag w c, b))
unfolding block_operands describe_block
block_operands-describe w what if_flag conditional block [] idem = refl
block_operands-describe w what if_flag conditional block (t ∷ ts) idem =
    if-bind (text_eq (lower t) if_flag) _ _ _ _ _
      (rw (with_flag-or w conditional idem)
        (block_operands-describe w what if_flag true block ts idem))
      (if-bind (lower t is "block") _ _ _ _ _
        (block_operands-describe w what if_flag conditional true ts idem)
        (if-bind (lower t is "noblock") _ _ _ _ _
          (block_operands-describe w what if_flag conditional false ts idem) refl))

describe_block-ends :
    (what if_flag : Text) (conditional block : Bool) (toks : List Text)
    → Ensures Anything (describe_block what if_flag conditional block toks)
unfolding describe_block
describe_block-ends what if_flag conditional block [] = tt
describe_block-ends what if_flag conditional block (t ∷ ts) = ground (
  arith,
  describe_block-ends what if_flag true block ts,
  describe_block-ends what if_flag conditional true ts,
  describe_block-ends what if_flag conditional false ts,
)

push-Refines :
    (c b : Bool)
    → Refines
        (ok (if b then bit_or (with_flag 0x8000 c) (1 * 2 ^ 5) else with_flag 0x8000 c))
        (ok (Instr.push c b))
unfolding decode
push-Refines true true = (refl, omega arith)
push-Refines true false = (refl, omega arith)
push-Refines false true = (refl, omega arith)
push-Refines false false = (refl, omega arith)

pull-Refines :
    (c b : Bool)
    → Refines
        (ok (if b then bit_or (with_flag 0x8080 c) (1 * 2 ^ 5) else with_flag 0x8080 c))
        (ok (Instr.pull c b))
unfolding decode
pull-Refines true true = (refl, omega arith)
pull-Refines true false = (refl, omega arith)
pull-Refines false true = (refl, omega arith)
pull-Refines false false = (refl, omega arith)

pub enc_push-Refines : (toks : List Text) → Refines (enc_push toks) (describe_push toks)
unfolding enc_push describe_push
enc_push-Refines toks =
    let described = describe_block (codes "push") (codes "iffull") false true toks in
    rw
      (
        block_operands-describe 0x8000 (codes "push") (codes "iffull") false true toks refl,
        bind_assoc described,
      )
      (Refines-bind Anything described _ _ (describe_block-ends _ _ false true toks)
        λ (c, b) _. push-Refines c b)

pub enc_pull-Refines : (toks : List Text) → Refines (enc_pull toks) (describe_pull toks)
unfolding enc_pull describe_pull
enc_pull-Refines toks =
    let described = describe_block (codes "pull") (codes "ifempty") false true toks in
    rw
      (
        block_operands-describe 0x8080 (codes "pull") (codes "ifempty") false true toks refl,
        bind_assoc described,
      )
      (Refines-bind Anything described _ _ (describe_block-ends _ _ false true toks)
        λ (c, b) _. pull-Refines c b)

-- The bits of a mode of `irq`.
abbrev mode_word : Bool → Bool → ℕ
mode_word clear waits =
    if waits then bit_or 0x0000 (1 * 2 ^ 5) else if clear then bit_or 0x0000 (1 * 2 ^ 6) else 0x0000

irq_decoded :
    (high rel n : ℕ)
    → n ≤ 7
    → decode_fields 6 high (rel * 16 + n)
      ≡ some (Instr.irq (high / 2 % 2 == 1) (high % 2 == 1) (rel == 1) n)
unfolding decode_fields
irq_decoded high rel n h =
    let top : (rel * 16 + n) / 16 ≡ rel = omega arith in
    let bottom : (rel * 16 + n) % 8 ≡ n = omega arith in rw (top, bottom)

-- The word of an `irq`, from the bits above its index.
irq_word :
    (high rel n bits : ℕ)
    → high < 4
    → rel ≤ 1
    → n ≤ 7
    → bits ≡ 6 * 2 ^ 13 + high * 2 ^ 5 + rel * 16
    → Refines
        (ok (bit_or bits (as_u16 (pos n))))
        (ok (Instr.irq (high / 2 % 2 == 1) (high % 2 == 1) (rel == 1) n))
irq_word high rel n bits hh hr h e =
    word-Refines 6 high (rel * 16 + n) _ (omega arith) (omega arith) (omega arith)
      (rw (as_u16-pos n (omega arith))
        (bit_or_clear 4 bits n (omega arith) (omega arith) ∙ omega arith))
      (irq_decoded high rel n h)

-- The two readings of the first operand of `irq`, from the tests on it.
abbrev mode_of : Bool → Bool → Bool → Bool → List Text → List Text → ℕ × List Text
mode_of p q a b ts all =
    if p
    then (bit_or 0x0000 (1 * 2 ^ 5), ts)
    else if q
    then (bit_or 0x0000 (1 * 2 ^ 6), ts)
    else if a || b
    then (0x0000, ts)
    else (0x0000, all)

abbrev described_of : Bool → Bool → Bool → Bool → List Text → List Text → Bool × Bool × List Text
described_of p q a b ts all =
    if p
    then (false, true, ts)
    else if q
    then (true, false, ts)
    else if a
    then (false, false, ts)
    else if b
    then (false, false, ts)
    else (false, false, all)

abbrev SameMode : ℕ × List Text → Bool × Bool × List Text → Type 0
SameMode r d = (r ≡ (mode_word d.0 d.1, d.2)) × (d.0 && d.1 ≡ false)

mode_cases :
    (p q a b : Bool) (ts all : List Text)
    → SameMode (mode_of p q a b ts all) (described_of p q a b ts all)
mode_cases true q a b ts all = (refl, refl)
mode_cases false true a b ts all = (refl, refl)
mode_cases false false true b ts all = (refl, refl)
mode_cases false false false true ts all = (refl, refl)
mode_cases false false false false ts all = (refl, refl)

module _ (u : Unicode) (m : Symbols) where
  irq-Refines :
      (c w r : Bool) (n : ℕ)
      → c && w ≡ false
      → n ≤ 7
      → Refines
          (ok (
            bit_or
              (bit_or 0xC000 (if r then bit_or (mode_word c w) (1 * 2 ^ 4) else mode_word c w))
              (as_u16 (pos n))))
          (ok (Instr.irq c w r n))
  irq-Refines true true r n e h = cc
  irq-Refines true false true n e h = irq_word 2 1 n 0xC050 (omega arith) (omega arith) h refl
  irq-Refines true false false n e h = irq_word 2 0 n 0xC040 (omega arith) (omega arith) h refl
  irq-Refines false true true n e h = irq_word 1 1 n 0xC030 (omega arith) (omega arith) h refl
  irq-Refines false true false n e h = irq_word 1 0 n 0xC020 (omega arith) (omega arith) h refl
  irq-Refines false false true n e h = irq_word 0 1 n 0xC010 (omega arith) (omega arith) h refl
  irq-Refines false false false n e h = irq_word 0 0 n 0xC000 (omega arith) (omega arith) h refl

  -- At most one mode is chosen, and the encoder takes its bits.
  irq_mode-describe : (toks : List Text) → SameMode (irq_mode toks) (describe_mode u m toks)
  unfolding irq_mode describe_mode
  irq_mode-describe [] = (refl, refl)
  irq_mode-describe (t ∷ ts) =
      mode_cases (lower t is "wait") (lower t is "clear") (lower t is "set") (lower t is "nowait")
        ts (t ∷ ts)

  pub enc_irq-Refines : (toks : List Text) → Refines (enc_irq u m toks) (describe_irq u m toks)
  unfolding enc_irq describe_irq
  enc_irq-Refines toks =
      let (c, w, operands) = describe_mode u m toks in
      let (rel, rest) = irq_rel operands in
      rw (irq_mode-describe toks).0 (
        Refines-bind Anything (irq_num rest) _ _ (irq_num-ends rest) λ num _.
          number-Refines u m 0 7 _ num _ _
            λ n _ le. irq-Refines c w rel n (irq_mode-describe toks).1 le)
