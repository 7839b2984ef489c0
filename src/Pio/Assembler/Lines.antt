-- ===== src/Pio/Assembler/Lines.antt =====
-- The first pass of pio-encode/src/lib.rs on all lines of a program.
use beemel.Prelude.{
  map_or_holds, ℕ, zero, suc, ◌+◌, Text, List, [], ◌∷◌, ◌++◌, arith, ◌==◌, ◌is◌, length,
  length-append,
}
use beemel.Prelude.Int.{pos}
use beemel.Pio.Error.{Error, ok}
use beemel.Pio.Chars.{Unicode, trim, split_whitespace}
use beemel.Pio.Line.{strip_comment, take_label}
use beemel.Pio.State.{InstrLine, Assembler, insert_symbol}
use beemel.Pio.Directive.{first_word, directive}
use beemel.Pio.Assembler.{take_labels, statement, pass1_line, pass1_from}
use beemel.Pio.Ensures.{Ensures, Ensures-bind, Ensures-if}
use beemel.Pio.Assembler.Invariant.{InRange, InRange-mono, insert_symbol-InRange, directive-InRange}

-- After a part of the first pass: the settings fit the instructions collected so far.
abbrev pub Collected : List InstrLine × Assembler → Type 0
Collected r = InRange (length r.0) r.1

pushed-Collected :
    (i : InstrLine) (instrs : List InstrLine) (a : Assembler)
    → InRange (length instrs) a
    → Collected (instrs ++ i ∷ [], a)
pushed-Collected i instrs a h =
    InRange-mono (length instrs) (length (instrs ++ i ∷ [])) a
      (omega (arith, length-append instrs (i ∷ []))) h

module _ (u : Unicode) where
  take_labels-InRange :
      (n f : ℕ) (t : Text) (addr l : ℕ) (a : Assembler)
      → InRange n a
      → InRange n (take_labels u f t addr l a).1
  unfolding take_labels
  take_labels-InRange n zero t addr l a h = h
  take_labels-InRange n (suc f) t addr l a h =
      map_or_holds (λ (r : Text × Assembler). InRange n r.1) (take_label u t) (t, a) _ h
        λ (label, remainder).
          take_labels-InRange n f (trim u remainder) addr l
            (insert_symbol label (pos addr) l (Error.duplicate_label label) a)
            (insert_symbol-InRange n label (pos addr) l (Error.duplicate_label label) a h)

  statement-Collected :
      (t : Text) (l : ℕ) (instrs : List InstrLine) (a : Assembler)
      → InRange (length instrs) a
      → Ensures Collected (statement u t l instrs a)
  unfolding statement
  statement-Collected [] l instrs a h = h
  statement-Collected (c ∷ t) l instrs a h =
      let i : InstrLine = record { text = c ∷ t; line = l } in
      let pushed = pushed-Collected i instrs a h in
      let stripped = first_word (split_whitespace u t) in
      Ensures-if Collected (c == b'.') _ _
        (Ensures-if Collected (stripped is "word") _ _ pushed (
          Ensures-bind (InRange (length instrs)) Collected (directive u t (length instrs) l a)
            (λ a'. ok (instrs, a')) (directive-InRange (length instrs) u t l a h) λ a' k. k))
        pushed

  pass1_line-Collected :
      (raw : Text) (l : ℕ) (instrs : List InstrLine) (a : Assembler)
      → InRange (length instrs) a
      → Ensures Collected (pass1_line u raw l instrs a)
  unfolding pass1_line
  pass1_line-Collected raw l instrs a h =
      let text = trim u (strip_comment raw) in
      let taken = take_labels u (length text) text (length instrs) l a in
      statement-Collected taken.0 l instrs taken.1
        (take_labels-InRange (length instrs) (length text) text (length instrs) l a h)

  pub pass1_from-Collected :
      (raws : List Text) (l : ℕ) (instrs : List InstrLine) (a : Assembler)
      → InRange (length instrs) a
      → Ensures Collected (pass1_from u raws l instrs a)
  unfolding pass1_from
  pass1_from-Collected [] l instrs a h = h
  pass1_from-Collected (raw ∷ raws) l instrs a h =
      Ensures-bind Collected Collected (pass1_line u raw l instrs a) _
        (pass1_line-Collected raw l instrs a h)
        λ (instrs', a') k. pass1_from-Collected raws (l + 1) instrs' a' k
