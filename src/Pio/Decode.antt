-- ===== src/Pio/Decode.antt =====
-- PIO instructions as the RP2040 datasheet describes them: an abstract instruction for each
-- mnemonic, the decoder of the 16-bit format, and what the operands of a source line say. No
-- encoder is used here; the tables of operand names and the ranges of operands are the code's.
pub mod Refines
pub mod Operands
pub mod Encoders
pub mod Flags
pub mod Whole
use beemel.Prelude.{
  ℕ, ◌/◌, ◌%◌, ◌^◌, Text, Bool, true, false, Option, none, some, List, [], ◌∷◌, codes, lower, ◌is◌,
  text_eq, ◌==◌, if◌then◌else◌,
}
use beemel.Prelude.Int.{ℤ, pos_part, within}
use beemel.Pio.Error.{
  Outcome, ok, err, usage, bad_operand, unknown_instruction, wait_polarity, ◌>>=◌, ◌>>◌,
}
use beemel.Pio.Chars.{Unicode}
use beemel.Pio.Expr.Parser.{Symbols, eval}
use beemel.Pio.Operands.{
  set_dest, jmp_cond, mov_dest, mov_src, out_dest, in_src, wait_source, two, three,
}
use beemel.Pio.Encode.{eval_within, jmp_operands, irq_rel, irq_num}

pub data Instr : Type 0 where
  jmp : ℕ → ℕ → Instr
  wait : ℕ → ℕ → ℕ → Instr
  input : ℕ → ℕ → Instr
  output : ℕ → ℕ → Instr
  push : Bool → Bool → Instr
  pull : Bool → Bool → Instr
  mov : ℕ → ℕ → ℕ → Instr
  irq : Bool → Bool → Bool → ℕ → Instr
  set : ℕ → ℕ → Instr

-- Bit `1` is set.
abbrev flag : ℕ → Bool
flag b = b == 1

-- A count of 32 is written as 0.
abbrev pub count_of : ℕ → ℕ
count_of n = if n == 0 then 32 else n

-- `high` is bits 7..5, `low` bits 4..0.
unfoldable pub decode_fields : ℕ → ℕ → ℕ → Option Instr
decode_fields opcode high low =
    if opcode == 0
    then some (jmp high low)
    else if opcode == 1
    then some (wait (high / 4) (high % 4) low)
    else if opcode == 2
    then some (input high (count_of low))
    else if opcode == 3
    then some (output high (count_of low))
    else if opcode == 4
    then (if high / 4 == 0
        then some (push (flag (high / 2 % 2)) (flag (high % 2)))
        else some (pull (flag (high / 2 % 2)) (flag (high % 2))))
    else if opcode == 5
    then some (mov high (low / 8) (low % 8))
    else if opcode == 6
    then some (irq (flag (high / 2 % 2)) (flag (high % 2)) (flag (low / 16)) (low % 8))
    else if opcode == 7
    then some (set high low)
    else none

-- Bits 12..8, the delay and the side-set, belong to no instruction.
unfoldable pub decode : ℕ → Option Instr
unfolding decode_fields
decode w = decode_fields (w / 2 ^ 13) (w / 32 % 8) (w % 32)

-- The flag operands of `push` and `pull`: the last of `block` and `noblock` counts.
unfoldable pub describe_block : Text → Text → Bool → Bool → List Text → Outcome (Bool × Bool)
describe_block what if_flag conditional block [] = ok (conditional, block)
describe_block what if_flag conditional block (t ∷ ts) =
    if text_eq (lower t) if_flag
    then describe_block what if_flag true block ts
    else if lower t is "block"
    then describe_block what if_flag conditional true ts
    else if lower t is "noblock"
    then describe_block what if_flag conditional false ts
    else err (bad_operand what (lower t))

unfoldable pub describe_push : List Text → Outcome Instr
unfolding describe_block
describe_push toks = do
  (conditional, block) ← describe_block (codes "push") (codes "iffull") false true toks
  ok (push conditional block)

unfoldable pub describe_pull : List Text → Outcome Instr
unfolding describe_block
describe_pull toks = do
  (conditional, block) ← describe_block (codes "pull") (codes "ifempty") false true toks
  ok (pull conditional block)

-- `nop` is `mov y, y`.
unfoldable pub describe_nop : List Text → Outcome Instr
describe_nop [] = ok (mov 2 0 2)
describe_nop (t ∷ ts) = err (usage (codes "`nop` takes no operands"))

unfoldable pub describe_mov : List Text → Outcome Instr
describe_mov toks = do
  (dest, src) ← two toks (codes "mov DEST, [op]SRC")
  d ← mov_dest dest
  (op, s) ← mov_src src
  ok (mov d op s)

module _ (u : Unicode) (symbols : Symbols) where
  unfoldable pub describe_set : List Text → Outcome Instr
  describe_set toks = do
    (dest, val) ← two toks (codes "set DEST, VALUE")
    d ← set_dest dest
    v ← eval_within u symbols 0 31 (codes "set value") val
    ok (set d (pos_part v))

  unfoldable pub describe_jmp : List Text → Outcome Instr
  describe_jmp toks = do
    (cond, target) ← jmp_operands toks
    addr ← eval_within u symbols 0 31 (codes "jmp target") target
    ok (jmp cond (pos_part addr))

  unfoldable pub describe_out : List Text → Outcome Instr
  describe_out toks = do
    (dest, cnt) ← two toks (codes "out DEST, COUNT")
    d ← out_dest dest
    c ← eval_within u symbols 1 32 (codes "bit count") cnt
    ok (output d (pos_part c))

  unfoldable pub describe_in : List Text → Outcome Instr
  describe_in toks = do
    (src, cnt) ← two toks (codes "in SRC, COUNT")
    s ← in_src src
    c ← eval_within u symbols 1 32 (codes "bit count") cnt
    ok (input s (pos_part c))

  unfoldable pub describe_wait : List Text → Outcome Instr
  describe_wait toks = do
    (pol, src, idx) ← three toks (codes "wait POLARITY SOURCE INDEX")
    p ← eval u symbols pol
    (if within 0 1 p then ok tt else err wait_polarity)
    s ← wait_source src
    i ← eval_within u symbols 0 31 (codes "wait index") idx
    ok (wait (pos_part p) s (pos_part i))

  -- The mode of `irq`: whether it clears, whether it waits, and the operands behind the mode.
  unfoldable pub describe_mode : List Text → Bool × Bool × List Text
  describe_mode [] = (false, false, [])
  describe_mode (m ∷ rest) =
      if lower m is "wait"
      then (false, true, rest)
      else if lower m is "clear"
      then (true, false, rest)
      else if lower m is "set"
      then (false, false, rest)
      else if lower m is "nowait"
      then (false, false, rest)
      else (false, false, m ∷ rest)

  unfoldable pub describe_irq : List Text → Outcome Instr
  unfolding describe_mode
  describe_irq toks = do
    let (clear, waits, operands) = describe_mode toks
    let (rel, rest) = irq_rel operands
    num ← irq_num rest
    n ← eval_within u symbols 0 7 (codes "irq index") num
    ok (irq clear waits rel (pos_part n))

  -- The instruction that a mnemonic and its operands name.
  unfoldable pub describe : Text → List Text → Outcome Instr
  describe mnemonic toks =
      if mnemonic is "nop"
      then describe_nop toks
      else if mnemonic is "set"
      then describe_set toks
      else if mnemonic is "jmp"
      then describe_jmp toks
      else if mnemonic is "mov"
      then describe_mov toks
      else if mnemonic is "out"
      then describe_out toks
      else if mnemonic is "in"
      then describe_in toks
      else if mnemonic is "push"
      then describe_push toks
      else if mnemonic is "pull"
      then describe_pull toks
      else if mnemonic is "wait"
      then describe_wait toks
      else if mnemonic is "irq"
      then describe_irq toks
      else err (unknown_instruction mnemonic)
