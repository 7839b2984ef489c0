-- ===== src/Pio/Encode.antt =====
-- The instruction encoders of pio-encode/src/lib.rs. A word is a number below 2 ^ 16.
use beemel.Prelude.{
  ℕ, ◌*◌, ◌^◌, Text, Bool, true, false, List, [], ◌∷◌, bit_or, bit_and, codes, lower, ◌is◌, ◌||◌,
  if◌then◌else◌, text_eq,
}
use beemel.Prelude.Int.{ℤ, within}
use beemel.Word.{pattern_of}
use beemel.Pio.Error.{
  Outcome, ok, err, usage, value_out_of_range, wait_polarity, bad_operand, ◌>>=◌, ◌>>◌,
}
use beemel.Pio.Chars.{Unicode}
use beemel.Pio.Expr.Parser.{Symbols, eval}
use beemel.Pio.Operands.{
  set_dest, jmp_cond, mov_dest, mov_src, out_dest, in_src, wait_source, two, three,
}

-- `v as u16`.
abbrev pub as_u16 : ℤ → ℕ
as_u16 v = pattern_of 16 v

unfoldable pub enc_nop : List Text → Outcome ℕ
enc_nop [] = ok 0xA042
enc_nop (t ∷ ts) = err (usage (codes "`nop` takes no operands"))

unfoldable pub enc_mov : List Text → Outcome ℕ
enc_mov toks = do
  (dest, src) ← two toks (codes "mov DEST, [op]SRC")
  d ← mov_dest dest
  (op, s) ← mov_src src
  ok (bit_or (bit_or (bit_or 0xA000 (d * 2 ^ 5)) (op * 2 ^ 3)) s)

-- The loop over the operands of `push` and `pull`; `flag` is `iffull` or `ifempty`.
unfoldable pub block_operands : Text → Text → ℕ → Bool → List Text → Outcome (ℕ × Bool)
block_operands what flag word block [] = ok (word, block)
block_operands what flag word block (t ∷ ts) =
    if text_eq (lower t) flag
    then block_operands what flag (bit_or word (1 * 2 ^ 6)) block ts
    else if lower t is "block"
    then block_operands what flag word true ts
    else if lower t is "noblock"
    then block_operands what flag word false ts
    else err (bad_operand what (lower t))

unfoldable pub enc_push : List Text → Outcome ℕ
unfolding block_operands
enc_push toks = do
  (word, block) ← block_operands (codes "push") (codes "iffull") 0x8000 true toks
  ok (if block then bit_or word (1 * 2 ^ 5) else word)

unfoldable pub enc_pull : List Text → Outcome ℕ
unfolding block_operands
enc_pull toks = do
  (word, block) ← block_operands (codes "pull") (codes "ifempty") 0x8080 true toks
  ok (if block then bit_or word (1 * 2 ^ 5) else word)

unfoldable pub jmp_operands : List Text → Outcome (ℕ × Text)
jmp_operands (t ∷ []) = ok (0, t)
jmp_operands (c ∷ t ∷ []) = do cond ← jmp_cond c; ok (cond, t)
jmp_operands _ = err (usage (codes "jmp [COND,] TARGET"))

-- The mode bits that the first operand selects, and the operands behind it.
unfoldable pub irq_mode : List Text → ℕ × List Text
irq_mode [] = (0x0000, [])
irq_mode (m ∷ rest) =
    if lower m is "wait"
    then (bit_or 0x0000 (1 * 2 ^ 5), rest)
    else if lower m is "clear"
    then (bit_or 0x0000 (1 * 2 ^ 6), rest)
    else if (lower m is "set") || (lower m is "nowait")
    then (0x0000, rest)
    else (0x0000, m ∷ rest)

-- Whether the last operand is `rel`, and the operands without it.
unfoldable pub irq_rel : List Text → Bool × List Text
irq_rel [] = (false, [])
irq_rel (t ∷ []) = if lower t is "rel" then (true, []) else (false, t ∷ [])
irq_rel (t ∷ v ∷ ts) = let (rel, kept) = irq_rel (v ∷ ts) in (rel, t ∷ kept)

unfoldable pub irq_num : List Text → Outcome Text
irq_num (num ∷ []) = ok num
irq_num _ = err (usage (codes "irq [MODE] NUM [rel]"))

module _ (u : Unicode) (symbols : Symbols) where
  -- `eval`, then the range check that each encoder makes before its cast.
  unfoldable pub eval_within : ℕ → ℕ → Text → Text → Outcome ℤ
  eval_within lo hi what t = do
    v ← eval u symbols t
    if within lo hi v then ok v else err (value_out_of_range what v)

  unfoldable pub bitcount : Text → Outcome ℕ
  unfolding eval_within
  bitcount tok = do c ← eval_within 1 32 (codes "bit count") tok; ok (bit_and (as_u16 c) 0x1F)

  unfoldable pub enc_set : List Text → Outcome ℕ
  unfolding eval_within
  enc_set toks = do
    (dest, val) ← two toks (codes "set DEST, VALUE")
    d ← set_dest dest
    v ← eval_within 0 31 (codes "set value") val
    ok (bit_or (bit_or 0xE000 (d * 2 ^ 5)) (as_u16 v))

  unfoldable pub enc_jmp : List Text → Outcome ℕ
  unfolding eval_within jmp_operands
  enc_jmp toks = do
    (cond, target) ← jmp_operands toks
    addr ← eval_within 0 31 (codes "jmp target") target
    ok (bit_or (cond * 2 ^ 5) (as_u16 addr))

  unfoldable pub enc_out : List Text → Outcome ℕ
  unfolding bitcount
  enc_out toks = do
    (dest, cnt) ← two toks (codes "out DEST, COUNT")
    d ← out_dest dest
    c ← bitcount cnt
    ok (bit_or (bit_or 0x6000 (d * 2 ^ 5)) c)

  unfoldable pub enc_in : List Text → Outcome ℕ
  unfolding bitcount
  enc_in toks = do
    (src, cnt) ← two toks (codes "in SRC, COUNT")
    s ← in_src src
    c ← bitcount cnt
    ok (bit_or (bit_or 0x4000 (s * 2 ^ 5)) c)

  unfoldable pub enc_wait : List Text → Outcome ℕ
  unfolding eval_within
  enc_wait toks = do
    (pol, src, idx) ← three toks (codes "wait POLARITY SOURCE INDEX")
    p ← eval u symbols pol
    (if within 0 1 p then ok tt else err wait_polarity)
    s ← wait_source src
    i ← eval_within 0 31 (codes "wait index") idx
    ok (bit_or (bit_or (bit_or 0x2000 (as_u16 p * 2 ^ 7)) (s * 2 ^ 5)) (as_u16 i))

  unfoldable pub enc_irq : List Text → Outcome ℕ
  unfolding eval_within irq_mode irq_rel irq_num
  enc_irq toks = do
    let (mode, operands) = irq_mode toks
    let (rel, rest) = irq_rel operands
    num ← irq_num rest
    n ← eval_within 0 7 (codes "irq index") num
    let word = (if rel then bit_or mode (1 * 2 ^ 4) else mode)
    ok (bit_or (bit_or 0xC000 word) (as_u16 n))
