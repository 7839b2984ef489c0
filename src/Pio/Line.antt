-- ===== src/Pio/Line.antt =====
-- One source line of pio-encode/src/lib.rs: comments, labels, and the modifiers of an instruction.
use beemel.Prelude.{
  ℕ, zero, suc, ◌+◌, Text, Bool, false, Option, none, some, List, [], ◌∷◌, ◌++◌, min, leb, ◌==◌,
  if◌then◌else◌, codes, strip_prefix, lower, ◌is◌, length, bit_or, map, map_or,
}
use beemel.Prelude.Int.{ℤ, pos, negsuc}
use beemel.Word.{and_word}
use beemel.Pio.Error.{
  Outcome, ok, err, word_out_of_range, empty_instruction, unknown_instruction, unterminated_delay,
  side_needs_value, ◌>>=◌,
}
use beemel.Pio.Chars.{
  Unicode, take_while, drop_while, trim_start, trim, split_whitespace, join_words, break_at,
}
use beemel.Pio.Expr.Lex.{is_symbol_char}
use beemel.Pio.Expr.Parser.{Symbols, eval}
use beemel.Pio.SideSet.{SideSet, delay_sideset_field}
use beemel.Pio.Encode.{
  as_u16, enc_nop, enc_set, enc_jmp, enc_mov, enc_out, enc_in, enc_push, enc_pull, enc_wait,
  enc_irq,
}

-- `str::find` of a text, as the number of characters before it.
unfoldable pub find_text : Text → Text → Option ℕ
find_text p [] = elim (strip_prefix p []) [ none ↦ none | some _ ↦ some 0 ]
find_text p (c ∷ t) =
    let later : Option ℕ = elim (find_text p t) [ none ↦ none | some i ↦ some (suc i) ] in
    elim (strip_prefix p (c ∷ t)) [ none ↦ later | some _ ↦ some 0 ]

abbrev pub take : ℕ → Text → Text
take zero t = []
take (suc n) [] = []
take (suc n) (c ∷ t) = c ∷ take n t

cut_at : ℕ → Option ℕ → ℕ
cut_at cut none = cut
cut_at cut (some i) = min cut i

unfoldable pub strip_comment : Text → Text
unfolding find_text cut_at
strip_comment line =
    let cut = cut_at (length line) (find_text (codes ";") line) in
    let cut' = cut_at cut (find_text (codes "//") line) in
    take (cut_at cut' (find_text (codes "#") line)) line

abbrev starts_with_colon : Text → Bool
starts_with_colon [] = false
starts_with_colon (c ∷ t) = c == b':'

-- `.word EXPR`: -0x8000 ≤ v ≤ 0xFFFF.
unfoldable pub raw_word : ℤ → Outcome ℕ
raw_word (pos n) =
    if leb n 0xFFFF
    then ok (as_u16 (and_word 64 (pos n) (pos 0xFFFF)))
    else err (word_out_of_range (pos n))
raw_word (negsuc n) =
    if leb (n + 1) 0x8000
    then ok (as_u16 (and_word 64 (negsuc n) (pos 0xFFFF)))
    else err (word_out_of_range (negsuc n))

-- `replace(',', " ")`.
unfoldable pub commas_to_spaces : Text → Text
commas_to_spaces t = map (λ c. if c == b',' then 32 else c) t

module _ (u : Unicode) where
  -- `label:` at the front of a line: the label and what follows the colon.
  unfoldable pub take_label : Text → Option (Text × Text)
  unfolding is_symbol_char take_while drop_while trim_start
  take_label text =
      let label = take_while (is_symbol_char u) text in
      elim (drop_while (is_symbol_char u) text) [
        | [] ↦ none
        | c ∷ tail ↦ elim label [
          | [] ↦ none
          | l ∷ ls ↦ elim (strip_prefix (codes ":") (trim_start u (c ∷ tail))) [
            | none ↦ none
            | some rest ↦ if starts_with_colon rest then none else some (l ∷ ls, rest)
          ]
        ]
      ]

  -- The words before the first `side`, and those behind it.
  unfoldable pub find_side : List Text → Option (List Text × List Text)
  find_side [] = none
  find_side (t ∷ ts) =
      let later : Option (List Text × List Text) = elim (find_side ts) [
        | none ↦ none
        | some (before, after) ↦ some (t ∷ before, after)
      ] in
      if lower t is "side" then some ([], ts) else later

  module _ (symbols : Symbols) where
    -- The delay, and the text with ` ` in the place of its brackets.
    unfoldable pub split_delay : Text → Outcome (Text × ℤ)
    unfolding break_at trim
    split_delay text = map_or (break_at b'[' text) (ok (text, pos 0)) λ (before, tail).
        map_or (break_at b']' tail) (err unterminated_delay) λ (inner, after). (do
          delay ← eval u symbols (trim u inner)
          ok (before ++ 32 ∷ after, delay))

    -- The value is the word behind `side`; the rest is the words around the two.
    unfoldable pub side_behind : List Text → List Text → Outcome (Text × Option ℤ)
    unfolding join_words
    side_behind before [] = err side_needs_value
    side_behind before (val ∷ after) = do
      v ← eval u symbols val
      ok (join_words (before ++ after), some v)

    unfoldable pub split_side : Text → Outcome (Text × Option ℤ)
    unfolding find_side split_whitespace side_behind
    split_side rest =
        map_or (find_side (split_whitespace u rest)) (ok (rest, none))
          λ (before, after). side_behind before after

    unfoldable pub split_modifiers : Text → Outcome (Text × Option ℤ × ℤ)
    unfolding split_delay split_side
    split_modifiers text = do
      (rest, delay) ← split_delay text
      (core, side) ← split_side rest
      ok (core, side, delay)

    -- The encoder that a mnemonic selects.
    unfoldable pub encode_base : Text → List Text → Outcome ℕ
    encode_base mnemonic toks =
        if mnemonic is "nop"
        then enc_nop toks
        else if mnemonic is "set"
        then enc_set u symbols toks
        else if mnemonic is "jmp"
        then enc_jmp u symbols toks
        else if mnemonic is "mov"
        then enc_mov toks
        else if mnemonic is "out"
        then enc_out u symbols toks
        else if mnemonic is "in"
        then enc_in u symbols toks
        else if mnemonic is "push"
        then enc_push toks
        else if mnemonic is "pull"
        then enc_pull toks
        else if mnemonic is "wait"
        then enc_wait u symbols toks
        else if mnemonic is "irq"
        then enc_irq u symbols toks
        else err (unknown_instruction mnemonic)

    unfoldable pub encode_words : SideSet → List Text → Option ℤ → ℤ → Outcome ℕ
    unfolding encode_base
    encode_words s [] side delay = err empty_instruction
    encode_words s (mnemonic ∷ toks) side delay = do
      base ← encode_base (lower mnemonic) toks
      field ← delay_sideset_field s side delay
      ok (bit_or base field)

    unfoldable pub encode_line : SideSet → Text → Outcome ℕ
    unfolding raw_word split_modifiers encode_words commas_to_spaces split_whitespace trim
    encode_line s text =
        map_or (strip_prefix (codes ".word") text)
          (do
            (core, side, delay) ← split_modifiers text
            encode_words s (split_whitespace u (commas_to_spaces core)) side delay)
          λ rest. (do v ← eval u symbols (trim u rest); raw_word v)
