-- ===== src/Pio/Decode/Encoders.antt =====
-- Each encoder refines the description of its operands.
use beemel.Prelude.{
  ℕ, ◌+◌, ◌*◌, ◌/◌, ◌%◌, ◌^◌, ◌≤◌, ◌<◌, ◌≡◌, refl, ap, ◌∙◌, Text, some, List, [], ◌∷◌, arith,
  bit_or, bit_and, codes, if◌then◌else◌,
}
use beemel.Prelude.Int.{ℤ, pos, negsuc, pos_part, within}
use beemel.Prelude.Bits.{bit_and-31, bit_or_clear, bit_or_fields}
use beemel.Word.{pattern_of}
use beemel.Pio.Error.{Outcome, ok, err, wait_polarity, ◌>>=◌}
use beemel.Pio.Ensures.{Ensures, bind_assoc}
use beemel.Pio.Chars.{Unicode}
use beemel.Pio.Expr.Parser.{Symbols, eval}
use beemel.Pio.Expr.Bounds.{eval-ends}
use beemel.Pio.Operands.{set_dest, mov_dest, mov_src, out_dest, in_src, wait_source, two, three}
use beemel.Pio.Encode.{
  as_u16, eval_within, bitcount, enc_nop, enc_mov, enc_set, enc_jmp, jmp_operands, enc_out, enc_in,
  enc_wait,
}
use beemel.Pio.Decode.{
  Instr, decode, decode_fields, count_of, describe_nop, describe_mov, describe_set, describe_jmp,
  describe_out, describe_in, describe_wait,
}
use beemel.Pio.Decode.Refines.{Refines, Refines-bind, fields, decode-fields}
use beemel.Pio.Decode.Operands.{
  Below8, Within, Anything, set_dest-lt, mov_dest-lt, mov_src-lt, out_dest-lt, in_src-lt,
  wait_source-lt, two-ends, three-ends, jmp_operands-lt, eval_within-Within,
}

pub as_u16-pos : (n : ℕ) → n < 2 ^ 16 → as_u16 (pos n) ≡ n
unfolding pattern_of
as_u16-pos n h = omega arith

-- A word made of its three fields decodes to what the fields say.
pub word-Refines :
    (opcode high low : ℕ) (i : Instr) {w : ℕ}
    → opcode < 8
    → high < 8
    → low < 32
    → w ≡ opcode * 2 ^ 13 + high * 2 ^ 5 + low
    → decode_fields opcode high low ≡ some i
    → Refines (ok w) (ok i)
word-Refines opcode high low i o p q e d =
    let (reads, base) = decode-fields opcode high low o p q in rw e (rw d at reads, base)

mov_word :
    (d op s : ℕ)
    → d < 8
    → op < 4
    → s < 8
    → bit_or (bit_or (bit_or 0xA000 (d * 2 ^ 5)) (op * 2 ^ 3)) s
      ≡ 5 * 2 ^ 13 + d * 2 ^ 5 + (op * 8 + s)
mov_word d op s p q r =
    rw (fields 5 d (op * 8) p (omega arith))
      (bit_or_clear 3 (5 * 2 ^ 13 + d * 2 ^ 5 + op * 8) s (omega arith) r ∙ omega arith)

mov_decoded : (d op s : ℕ) → s < 8 → decode_fields 5 d (op * 8 + s) ≡ some (Instr.mov d op s)
unfolding decode_fields
mov_decoded d op s r =
    let top : (op * 8 + s) / 8 ≡ op = omega arith in
    let bottom : (op * 8 + s) % 8 ≡ s = omega arith in rw (top, bottom)

-- A number behind an operand: the three fields, the last one cast from `i64`.
number_word :
    (opcode high n : ℕ)
    → high < 8
    → n < 32
    → bit_or (bit_or (opcode * 2 ^ 13) (high * 2 ^ 5)) (as_u16 (pos n))
      ≡ opcode * 2 ^ 13 + high * 2 ^ 5 + n
number_word opcode high n p q = rw (as_u16-pos n (omega arith)) (fields opcode high n p q)

-- A count from 1 to 32, of which the word holds the five low bits.
count_cast : (n : ℕ) → n ≤ 32 → bit_and (as_u16 (pos n)) 0x1F ≡ n % 32
count_cast n h = bit_and-31 _ ∙ rw (as_u16-pos n (omega arith))

count_decoded : (n : ℕ) → 1 ≤ n → n ≤ 32 → count_of (n % 32) ≡ n
count_decoded n h k = ground arith

wait_word :
    (p s n : ℕ)
    → p ≤ 1
    → s < 4
    → n < 32
    → bit_or (bit_or (bit_or 0x2000 (as_u16 (pos p) * 2 ^ 7)) (s * 2 ^ 5)) (as_u16 (pos n))
      ≡ 1 * 2 ^ 13 + (p * 4 + s) * 2 ^ 5 + n
wait_word p s n hp hs hn =
    rw
      (
        as_u16-pos p (omega arith),
        as_u16-pos n (omega arith),
        bit_or_fields 13 1 (p * 2 ^ 7) (omega arith),
        bit_or_clear 7 (1 * 2 ^ 13 + p * 2 ^ 7) (s * 2 ^ 5) (omega arith) (omega arith),
        bit_or_clear 5 (1 * 2 ^ 13 + p * 2 ^ 7 + s * 2 ^ 5) n (omega arith) hn,
      )
      (omega arith)

wait_decoded : (p s n : ℕ) → s < 4 → decode_fields 1 (p * 4 + s) n ≡ some (Instr.wait p s n)
unfolding decode_fields
wait_decoded p s n h =
    let top : (p * 4 + s) / 4 ≡ p = omega arith in
    let bottom : (p * 4 + s) % 4 ≡ s = omega arith in rw (top, bottom)

pub enc_nop-Refines : (toks : List Text) → Refines (enc_nop toks) (describe_nop toks)
unfolding enc_nop describe_nop decode
enc_nop-Refines [] = (refl, omega arith)
enc_nop-Refines (t ∷ ts) = refl

pub enc_mov-Refines : (toks : List Text) → Refines (enc_mov toks) (describe_mov toks)
unfolding enc_mov describe_mov
enc_mov-Refines toks = Refines-bind Anything (two toks _) _ _ (two-ends toks _) λ (dest, src) _.
    Refines-bind Below8 (mov_dest dest) _ _ (mov_dest-lt dest) λ d dlt.
      Refines-bind (λ r. (r.0 < 4) × (r.1 < 8)) (mov_src src) _ _ (mov_src-lt src)
        λ (op, s) r.
          word-Refines 5 d (op * 8 + s) (Instr.mov d op s) (omega arith) dlt (omega arith)
            (mov_word d op s dlt r.0 r.1) (mov_decoded d op s r.1)

module _ (u : Unicode) (m : Symbols) where
  -- The last operand, an evaluated number, in the low bits.
  pub number-Refines :
      (lo hi : ℕ) (what t : Text) (f : ℤ → ℕ) (g : ℤ → Instr)
      → ((n : ℕ) → lo ≤ n → n ≤ hi → Refines (ok (f (pos n))) (ok (g (pos n))))
      → Refines
          (eval_within u m lo hi what t >>= λ v. ok (f v))
          (eval_within u m lo hi what t >>= λ v. ok (g v))
  number-Refines lo hi what t f g h =
      Refines-bind (Within lo hi) (eval_within u m lo hi what t) _ _
        (eval_within-Within u m lo hi what t) checked
    where
      checked : (v : ℤ) → Within lo hi v → Refines (ok (f v)) (ok (g v))
      checked (pos n) k = h n k.0 k.1
      checked (negsuc n) k = absurd k

  pub enc_set-Refines : (toks : List Text) → Refines (enc_set u m toks) (describe_set u m toks)
  unfolding enc_set describe_set
  enc_set-Refines toks = Refines-bind Anything (two toks _) _ _ (two-ends toks _) λ (dest, val) _.
      Refines-bind Below8 (set_dest dest) _ _ (set_dest-lt dest) λ d dlt.
        number-Refines 0 31 _ val _ _ λ n _ le.
          word-Refines 7 d n (Instr.set d n) (omega arith) dlt (omega arith)
            (number_word 7 d n dlt (omega arith)) (unfold decode_fields in refl)

  pub enc_jmp-Refines : (toks : List Text) → Refines (enc_jmp u m toks) (describe_jmp u m toks)
  unfolding enc_jmp describe_jmp
  enc_jmp-Refines toks =
      Refines-bind (λ r. r.0 < 8) (jmp_operands toks) _ _ (jmp_operands-lt toks)
        λ (cond, target) clt. number-Refines 0 31 _ target _ _ λ n _ le.
          word-Refines 0 cond n (Instr.jmp cond n) (omega arith) clt (omega arith)
            (rw (as_u16-pos n (omega arith)) (bit_or_fields 5 cond n (omega arith) ∙ omega arith))
            (unfold decode_fields in refl)

  counted-Refines :
      (opcode high : ℕ) (t : Text) (g : ℕ → Instr)
      → opcode < 8
      → high < 8
      → ((low : ℕ) → decode_fields opcode high low ≡ some (g (count_of low)))
      → Refines
          (bitcount u m t >>= λ c. ok (bit_or (bit_or (opcode * 2 ^ 13) (high * 2 ^ 5)) c))
          (eval_within u m 1 32 (codes "bit count") t >>= λ c. ok (g (pos_part c)))
  unfolding bitcount
  counted-Refines opcode high t g o h d =
      rw (bind_assoc (eval_within u m 1 32 (codes "bit count") t) _ _) (
        number-Refines 1 32 _ t _ _ λ n ge le.
          word-Refines opcode high (n % 32) (g n) o h (omega arith)
            (rw (count_cast n le) (fields opcode high (n % 32) h (omega arith)))
            (d (n % 32) ∙ ap (λ (c : ℕ). some (g c)) (count_decoded n ge le)))

  pub enc_out-Refines : (toks : List Text) → Refines (enc_out u m toks) (describe_out u m toks)
  unfolding enc_out describe_out
  enc_out-Refines toks = Refines-bind Anything (two toks _) _ _ (two-ends toks _) λ (dest, cnt) _.
      Refines-bind Below8 (out_dest dest) _ _ (out_dest-lt dest) λ d dlt.
        counted-Refines 3 d cnt (Instr.output d) (omega arith) dlt
          (unfold decode_fields in λ _. refl)

  pub enc_in-Refines : (toks : List Text) → Refines (enc_in u m toks) (describe_in u m toks)
  unfolding enc_in describe_in
  enc_in-Refines toks = Refines-bind Anything (two toks _) _ _ (two-ends toks _) λ (src, cnt) _.
      Refines-bind Below8 (in_src src) _ _ (in_src-lt src) λ d dlt.
        counted-Refines 2 d cnt (Instr.input d) (omega arith) dlt
          (unfold decode_fields in λ _. refl)

  polarity-Refines :
      (p : ℤ) (f : Unit {0} → Outcome ℕ) (g : Unit {0} → Outcome Instr)
      → (Within 0 1 p → Refines (f tt) (g tt))
      → Refines
          ((if within 0 1 p then ok tt else err wait_polarity) >>= f)
          ((if within 0 1 p then ok tt else err wait_polarity) >>= g)
  polarity-Refines p f g h =
      Refines-bind (λ _. Within 0 1 p) (if within 0 1 p then ok tt else err wait_polarity) f g
        (checked p) λ _. h
    where
      checked :
          (v : ℤ)
          → Ensures {0} (λ _. Within 0 1 v) (if within 0 1 v then ok tt else err wait_polarity)
      checked (pos n) = ground arith
      checked (negsuc n) = tt

  wait-Refines :
      (p : ℤ) (s n : ℕ)
      → Within 0 1 p
      → s < 4
      → n ≤ 31
      → Refines
          (ok (bit_or (bit_or (bit_or 0x2000 (as_u16 p * 2 ^ 7)) (s * 2 ^ 5)) (as_u16 (pos n))))
          (ok (Instr.wait (pos_part p) s n))
  wait-Refines (pos p) s n h slt le =
      word-Refines 1 (p * 4 + s) n (Instr.wait p s n) (omega arith) (omega arith) (omega arith)
        (wait_word p s n h.1 slt (omega arith)) (wait_decoded p s n slt)
  wait-Refines (negsuc p) s n h slt le = absurd h

  pub enc_wait-Refines : (toks : List Text) → Refines (enc_wait u m toks) (describe_wait u m toks)
  unfolding enc_wait describe_wait
  enc_wait-Refines toks =
      Refines-bind Anything (three toks _) _ _ (three-ends toks _) λ (pol, src, idx) _.
        Refines-bind Anything (eval u m pol) _ _ (eval-ends u m pol) λ p _.
          polarity-Refines p _ _ λ bit.
            Refines-bind (λ s. s < 4) (wait_source src) _ _ (wait_source-lt src)
              λ s slt. number-Refines 0 31 _ idx _ _ λ n _ le. wait-Refines p s n bit slt le
