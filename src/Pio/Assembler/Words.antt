-- ===== src/Pio/Assembler/Words.antt =====
-- The second pass of pio-encode/src/lib.rs: how many words it makes, and their size.
use mathlib.Core.Path.{subst}
use beemel.Prelude.{
  if_holds, map_or_holds, ◌≢◌, none, some, lower, ◌-◌, ℕ, suc, ◌+◌, ◌^◌, ◌≤◌, ◌<◌, ◌≡◌, refl, Text,
  Bool, true, false, Option, List, [], ◌∷◌, ◌++◌, arith, ltb, leb, ◌==◌, if◌then◌else◌, length,
  length-append, All, All-append, codes, strip_prefix,
}
use beemel.Prelude.Int.{ℤ, pos, negsuc, within}
use beemel.Pio.Error.{Error, Outcome, ok, err, panic, out_of_fuel}
use beemel.Pio.Chars.{Unicode, trim, split_whitespace, break_at}
use beemel.Pio.SideSet.{SideSet, total_bits, delay_bits, side_field, is_some, delay_sideset_field}
use beemel.Pio.SideSet.Layout.{IsSideSet}
use beemel.Pio.Line.{
  raw_word, encode_base, encode_words, encode_line, commas_to_spaces, find_side, split_delay,
  side_behind, split_side, split_modifiers,
}
use beemel.Word.{and_word, pattern_of-lt}
use beemel.Pio.Encode.{as_u16}
use beemel.Pio.Expr.Parser.{Symbols, eval}
use beemel.Pio.Decode.Whole.{encode_base-Refines, encode_words-Says}
use beemel.Pio.Decode.{Instr}
use beemel.Pio.Decode.Refines.{Refines}
use beemel.Pio.Expr.Bounds.{Anything, eval-ends}
use beemel.Pio.State.{InstrLine, AsmError, Assembler, add_error}
use beemel.Pio.Assembler.{match_word, check_count, last_line, pass2}
use beemel.Pio.Ensures.{Ensures, Ensures-bind, Ensures-if, Ensures-map_or}
use beemel.Pio.Assembler.Invariant.{InRange}

as_u16-lt : (z : ℤ) → as_u16 z < 2 ^ 16
as_u16-lt z = pattern_of-lt 16 z

raw_word-lt : (v : ℤ) → Ensures (λ w. w < 2 ^ 16) (raw_word v)
unfolding raw_word
raw_word-lt (pos n) =
    Ensures-if _ (leb n 0xFFFF) _ _ (as_u16-lt (and_word 64 (pos n) (pos 0xFFFF))) tt
raw_word-lt (negsuc n) =
    Ensures-if _ (leb (n + 1) 0x8000) _ _ (as_u16-lt (and_word 64 (negsuc n) (pos 0xFFFF))) tt

Ensures-intro {ℓ} :
    {A : Type ℓ} (P Q : A → Type 0) (m : Outcome A)
    → Ensures Q m
    → ((a : A) → m ≡ ok a → P a)
    → Ensures P m
Ensures-intro P Q (ok a) e h = h a refl
Ensures-intro P Q (err d) e h = tt
Ensures-intro P Q panic e h = tt
Ensures-intro P Q out_of_fuel e h = absurd e

-- A part of an instruction whose only fuel is that of an expression.
abbrev Ends {ℓ} : {A : Type ℓ} → Outcome A → Type 0
Ends m = Ensures (λ a. Unit) m

Refines-Ends : (m : Outcome ℕ) (n : Outcome Instr) → Refines m n → Ends m
Refines-Ends (ok w) n h = tt
Refines-Ends (err e) n h = tt
Refines-Ends panic n h = tt
Refines-Ends out_of_fuel n h = absurd h

side_field-Ends : (s : SideSet) (side : Option ℤ) → Ends (side_field s side)
unfolding side_field
side_field-Ends s none = Ensures-if _ s.opt _ _ tt tt
side_field-Ends s (some v) = Ensures-if _ (within 0 (2 ^ s.count - 1) v) _ _ tt tt

delay_sideset_field-Ends :
    (s : SideSet) (side : Option ℤ) (delay : ℤ) → Ends (delay_sideset_field s side delay)
unfolding delay_sideset_field
delay_sideset_field-Ends s side delay =
    Ensures-if _ (within 0 (2 ^ delay_bits s - 1) delay) _ _
      (Ensures-if _ (total_bits s == 0) _ _ (Ensures-if _ (is_some side) _ _ tt tt)
        (Ensures-bind (λ b. Unit) _ (side_field s side) _ (side_field-Ends s side) λ b _. tt))
      tt

module _ (u : Unicode) (m : Symbols) (s : SideSet) (fits : IsSideSet s) where
  split_delay-Ends : (t : Text) → Ends (split_delay u m t)
  unfolding split_delay
  split_delay-Ends t = Ensures-map_or _ (break_at b'[' t) _ _ tt λ (before, tail).
      Ensures-map_or _ (break_at b']' tail) _ _ tt λ (inner, after).
        Ensures-bind Anything _ (eval u m (trim u inner)) _ (eval-ends u m (trim u inner)) λ v _. tt

  side_behind-Ends : (before after : List Text) → Ends (side_behind u m before after)
  unfolding side_behind
  side_behind-Ends before [] = tt
  side_behind-Ends before (val ∷ after) =
      Ensures-bind Anything _ (eval u m val) _ (eval-ends u m val) λ v _. tt

  split_side-Ends : (t : Text) → Ends (split_side u m t)
  unfolding split_side
  split_side-Ends t =
      Ensures-map_or _ (find_side u (split_whitespace u t)) _ _ tt
        λ (before, after). side_behind-Ends before after

  split_modifiers-Ends : (t : Text) → Ends (split_modifiers u m t)
  unfolding split_modifiers
  split_modifiers-Ends t =
      Ensures-bind (λ r. Unit) _ (split_delay u m t) _ (split_delay-Ends t)
        λ (rest, delay) _.
          Ensures-bind (λ r. Unit) _ (split_side u m rest) _ (split_side-Ends rest)
            λ (core, side) _. tt

  encode_words-Ends :
      (t : Text) (toks : List Text) (side : Option ℤ) (delay : ℤ)
      → Ends (encode_words u m s (t ∷ toks) side delay)
  unfolding encode_words
  encode_words-Ends t toks side delay =
      Ensures-bind (λ b. Unit) _ (encode_base u m (lower t) toks) _
        (Refines-Ends _ _ (encode_base-Refines u m (lower t) toks))
        λ base _.
          Ensures-bind (λ f. Unit) _ (delay_sideset_field s side delay) _
            (delay_sideset_field-Ends s side delay) λ field _. tt

  encode_words-lt :
      (toks : List Text) (side : Option ℤ) (delay : ℤ)
      → Ensures (λ w. w < 2 ^ 16) (encode_words u m s toks side delay)
  encode_words-lt [] side delay = unfold encode_words in tt
  encode_words-lt (t ∷ toks) side delay =
      Ensures-intro (λ (w : ℕ). w < 2 ^ 16) (λ w. Unit) (encode_words u m s (t ∷ toks) side delay)
        (encode_words-Ends t toks side delay)
        λ w h. (encode_words-Says u m s t toks side delay fits h).3

  encode_line-lt : (t : Text) → Ensures (λ w. w < 2 ^ 16) (encode_line u m s t)
  unfolding encode_line
  encode_line-lt t =
      map_or_holds (Ensures (λ w. w < 2 ^ 16)) (strip_prefix (codes ".word") t) _ _
        (Ensures-bind (λ r. Unit) _ (split_modifiers u m t) _ (split_modifiers-Ends t)
          λ (core, side, delay) _.
            encode_words-lt (split_whitespace u (commas_to_spaces core)) side delay)
        λ rest.
          Ensures-bind Anything _ (eval u m (trim u rest)) _ (eval-ends u m (trim u rest))
            λ v _. raw_word-lt v

-- After a part of the second pass over an assembler with errors `es`: `k` words of 16 bits, and the
-- errors are still reported.
abbrev pub Encoded : ℕ → ℕ → List AsmError → List ℕ × Assembler → Type 0
Encoded n k es r =
    (length r.0 ≡ k) × All (λ w. w < 2 ^ 16) r.0 × InRange n r.1 × (r.1.errors ≡ [] → es ≡ [])

append_not_empty : (es : List AsmError) (e : AsmError) → es ++ e ∷ [] ≢ []
append_not_empty [] e = cc
append_not_empty (f ∷ es) e = cc

module _ (n : ℕ) (es : List AsmError) where
  match_word-Encoded :
      (m : Outcome ℕ) (line k : ℕ) (words : List ℕ) (a : Assembler)
      → Ensures (λ w. w < 2 ^ 16) m
      → Encoded n k es (words, a)
      → Ensures (Encoded n (suc k) es) (match_word m line words a)
  unfolding add_error
  match_word-Encoded (ok w) line k words a h (long, small, range, kept) = (
    omega (arith, length-append words (w ∷ [])),
    All-append (λ v. v < 2 ^ 16) words (w ∷ []) small (h, tt),
    range,
    kept,
  )
  match_word-Encoded (err e) line k words a h (long, small, range, kept) = (
    omega (arith, length-append words (0 ∷ [])),
    All-append (λ v. v < 2 ^ 16) words (0 ∷ []) small (omega arith, tt),
    range,
    λ none_left. absurd (append_not_empty a.errors _ none_left),
  )
  match_word-Encoded panic line k words a h before = tt
  match_word-Encoded out_of_fuel line k words a h before = absurd h

  module _ (u : Unicode) where
    pub pass2-Encoded :
        (instrs : List InstrLine) (k : ℕ) (words : List ℕ) (a : Assembler)
        → Encoded n k es (words, a)
        → Ensures (Encoded n (length instrs + k) es) (pass2 u instrs words a)
    unfolding pass2
    pass2-Encoded [] k words a (long, small, range, kept) = (omega arith, small, range, kept)
    pass2-Encoded (i ∷ instrs) k words a h =
        Ensures-bind (Encoded n (suc k) es) (Encoded n (length (i ∷ instrs) + k) es)
          (match_word (encode_line u a.symbols a.side_set i.text) i.line words a) _
          (match_word-Encoded (encode_line u a.symbols a.side_set i.text) i.line k words a
            (encode_line-lt u a.symbols a.side_set h.2.0 i.text) h)
          λ (words', a') step.
            let e : length instrs + suc k ≡ suc (length instrs) + k = omega arith in
            subst (λ (j : ℕ). Ensures (Encoded n j es) (pass2 u instrs words' a')) e
              (pass2-Encoded instrs (suc k) words' a' step)

-- Two reports on conditions, and no error.
no_reports :
    (b c : Bool) (k l : ℕ) (d e : Error) (a : Assembler)
    → (let a' = if b then add_error k d a else a in if c then add_error l e a' else a').errors ≡ []
    → (b ≡ false) × (c ≡ false)
unfolding add_error
no_reports true true k l d e a h = absurd (append_not_empty _ _ h)
no_reports true false k l d e a h = absurd (append_not_empty _ _ h)
no_reports false true k l d e a h = absurd (append_not_empty _ _ h)
no_reports false false k l d e a h = (refl, refl)

-- The checks on the number of instructions pass for 1 to 32, and keep the settings.
pub check_count-errors :
    (instrs : List InstrLine) (a : Assembler)
    → (check_count instrs a).errors ≡ []
    → (1 ≤ length instrs) × (length instrs ≤ 32)
unfolding check_count add_error
check_count-errors instrs a h =
    let (some_left, few) =
      no_reports (length instrs == 0) (ltb 32 (length instrs)) 1 (last_line instrs)
        Error.program_empty (Error.program_too_long (length instrs)) a h in
    ground arith

pub check_count-InRange :
    (n : ℕ) (instrs : List InstrLine) (a : Assembler)
    → InRange n a
    → InRange n (check_count instrs a)
unfolding check_count add_error
check_count-InRange n instrs a h =
    let counted =
      if_holds (InRange n) (length instrs == 0) (add_error 1 Error.program_empty a) a h h in
    if_holds (InRange n) (ltb 32 (length instrs)) _ _ counted counted
