-- ===== src/Pio/Assembler.antt =====
-- The two passes of `Assembler` in pio-encode/src/lib.rs, and `assemble`.
pub mod Invariant
pub mod Lines
pub mod Words
pub mod Accepted
use beemel.Prelude.{
  ℕ, zero, suc, ◌+◌, ◌-◌, Text, Option, none, some, List, [], ◌∷◌, ◌++◌, ltb, ◌==◌, if◌then◌else◌,
  ◌is◌, length, last?, map_or,
}
use beemel.Prelude.Int.{pos}
use beemel.Pio.Error.{Error, Outcome, ok, err, panic, out_of_fuel, ◌>>=◌}
use beemel.Pio.Chars.{Unicode, trim, split_whitespace, lines}
use beemel.Pio.SideSet.{total_bits}
use beemel.Pio.Line.{strip_comment, take_label, encode_line}
use beemel.Pio.State.{
  InstrLine, AsmError, Assembler, Report, assembled, failed, as_u8, new_assembler, add_error,
  insert_symbol,
}
use beemel.Pio.Directive.{first_word, directive}

-- Pass 2: the words so far, in order; a line that fails gives an error and the word 0.
abbrev pub match_word : Outcome ℕ → ℕ → List ℕ → Assembler → Outcome (List ℕ × Assembler)
match_word (ok w) line words a = ok (words ++ w ∷ [], a)
match_word (err e) line words a = ok (words ++ 0 ∷ [], add_error line e a)
match_word panic line words a = panic
match_word out_of_fuel line words a = out_of_fuel

abbrev pub last_line : List InstrLine → ℕ
last_line instrs = elim (last? instrs) [ none ↦ 1 | some i ↦ i.line ]

-- The checks on the number of instructions, between the passes.
unfoldable pub check_count : List InstrLine → Assembler → Assembler
unfolding add_error
check_count instrs a =
    let count = length instrs in
    let a' = if count == 0 then add_error 1 Error.program_empty a else a in
    if ltb 32 count then add_error (last_line instrs) (Error.program_too_long count) a' else a'

abbrev pub unwrap_or : Option ℕ → ℕ → ℕ
unwrap_or none d = d
unwrap_or (some n) d = n

-- The end of `run`: the errors, or the program.
unfoldable pub finish : List AsmError → ℕ → List ℕ → Assembler → Report
unfolding total_bits
finish (e ∷ es) count words a = failed (e ∷ es)
finish [] count words a = assembled (record {
  name = a.name;
  words = words;
  origin = a.origin;
  wrap_target = unwrap_or a.wrap_target 0;
  wrap = unwrap_or a.wrap (as_u8 (count - 1));
  side_set_count = total_bits a.side_set;
  side_set_opt = a.side_set.opt;
  side_set_pindirs = a.side_set.pindirs;
  defines = a.public_defines;
})

module _ (u : Unicode) where
  -- The `while let` loop over the labels at the front of a line. A label takes characters away, so
  -- the length of the text is enough fuel.
  unfoldable pub take_labels : ℕ → Text → ℕ → ℕ → Assembler → Text × Assembler
  unfolding take_label insert_symbol trim
  take_labels zero text addr line a = (text, a)
  take_labels (suc f) text addr line a =
      map_or (take_label u text) (text, a)
        λ (label, remainder).
          take_labels f (trim u remainder) addr line
            (insert_symbol label (pos addr) line (Error.duplicate_label label) a)

  -- What a line without its labels does: nothing, a directive, or one more instruction.
  unfoldable pub statement :
      Text → ℕ → List InstrLine → Assembler → Outcome (List InstrLine × Assembler)
  unfolding directive split_whitespace
  statement [] line instrs a = ok (instrs, a)
  statement (c ∷ t) line instrs a =
      let push = instrs ++ record { text = c ∷ t; line = line } ∷ [] in
      if c == b'.'
      then (if first_word (split_whitespace u t) is "word"
          then ok (push, a)
          else (do a' ← directive u t (length instrs) line a; ok (instrs, a')))
      else ok (push, a)

  unfoldable pub pass1_line :
      Text → ℕ → List InstrLine → Assembler → Outcome (List InstrLine × Assembler)
  unfolding strip_comment trim take_labels statement
  pass1_line raw line instrs a =
      let text = trim u (strip_comment raw) in
      let (text', a') = take_labels (length text) text (length instrs) line a in
      statement text' line instrs a'

  unfoldable pub pass1_from :
      List Text → ℕ → List InstrLine → Assembler → Outcome (List InstrLine × Assembler)
  unfolding pass1_line
  pass1_from [] line instrs a = ok (instrs, a)
  pass1_from (raw ∷ raws) line instrs a = do
    (instrs', a') ← pass1_line raw line instrs a
    pass1_from raws (line + 1) instrs' a'

  unfoldable pub pass1 : Text → Assembler → Outcome (List InstrLine × Assembler)
  unfolding lines pass1_from
  pass1 src a = pass1_from (lines src) 1 [] a

  unfoldable pub pass2 : List InstrLine → List ℕ → Assembler → Outcome (List ℕ × Assembler)
  unfolding encode_line
  pass2 [] words a = ok (words, a)
  pass2 (i ∷ instrs) words a = do
    (words', a') ← match_word (encode_line u a.symbols a.side_set i.text) i.line words a
    pass2 instrs words' a'

  unfoldable pub run : Text → Assembler → Outcome Report
  unfolding pass1 check_count pass2 finish
  run src a = do
    (instrs, a') ← pass1 src a
    (words, a'') ← pass2 instrs [] (check_count instrs a')
    ok (finish a''.errors (length instrs) words a'')

  unfoldable pub assemble : Text → Text → Outcome Report
  unfolding run new_assembler
  assemble name src = run src (new_assembler name)
