-- ===== src/Pio/State.antt =====
-- The state of `Assembler` in pio-encode/src/lib.rs, its results, and the updates that evaluate
-- nothing: errors, symbols and the side-set shape.
use beemel.Prelude.{
  ℕ, ◌+◌, ◌-◌, ◌%◌, ◌^◌, Text, Bool, true, ◌&&◌, Option, none, some, List, [], ◌∷◌, ◌++◌, ltb, ◌==◌,
  if◌then◌else◌, ◌is◌, map_or,
}
use beemel.Prelude.Int.{ℤ}
use beemel.Pio.Error.{Error, Outcome, ok, err, panic, out_of_fuel}
use beemel.Pio.Expr.Parser.{Symbols, lookup}
use beemel.Pio.SideSet.{SideSet, no_side_set, from_bool}

pub record AsmError : Type 0 where
  pub line : ℕ
  pub msg : Error

pub record InstrLine : Type 0 where
  pub text : Text
  pub line : ℕ

pub record Assembler : Type 0 where
  pub name : Text
  pub side_set : SideSet
  pub origin : Option ℕ
  pub wrap_target : Option ℕ
  pub wrap : Option ℕ
  pub symbols : Symbols
  pub public_defines : List (Text × ℤ)
  pub errors : List AsmError

pub record Assembled : Type 0 where
  pub name : Text
  pub words : List ℕ
  pub origin : Option ℕ
  pub wrap_target : ℕ
  pub wrap : ℕ
  pub side_set_count : ℕ
  pub side_set_opt : Bool
  pub side_set_pindirs : Bool
  pub defines : List (Text × ℤ)

-- The `Result` that `assemble` returns.
pub data Report : Type 0 where
  assembled : Assembled → Report
  failed : List AsmError → Report

-- `n as u8`.
abbrev pub as_u8 : ℕ → ℕ
as_u8 n = n % 2 ^ 8

unfoldable pub new_assembler : Text → Assembler
new_assembler name = record {
  name = name;
  side_set = no_side_set;
  origin = none;
  wrap_target = none;
  wrap = none;
  symbols = [];
  public_defines = [];
  errors = [];
}

-- `Assembler::err`.
unfoldable pub add_error : ℕ → Error → Assembler → Assembler
add_error line msg a = record a { errors = a.errors ++ record { line = line; msg = msg } ∷ [] }

-- `symbols.insert(k, v)`, with the error that the caller reports if the key was there.
unfoldable pub insert_symbol : Text → ℤ → ℕ → Error → Assembler → Assembler
unfolding add_error
insert_symbol k v line duplicate a =
    let a' = record a { symbols = (k, v) ∷ a.symbols } in
    map_or (lookup k a.symbols) a' λ _. add_error line duplicate a'

-- `match self.eval(…)`: an error is reported on the line, and the pass goes on.
abbrev pub match_eval : Outcome ℤ → ℕ → Assembler → (ℤ → Assembler) → Outcome Assembler
match_eval (ok v) line a f = ok (f v)
match_eval (err e) line a f = ok (add_error line e a)
match_eval panic line a f = panic
match_eval out_of_fuel line a f = out_of_fuel

unfoldable pub set_side_set : ℕ → Bool → Bool → ℕ → Assembler → Assembler
unfolding add_error
set_side_set count opt pindirs line a =
    if opt && (count == 0)
    then add_error line Error.side_set_no_data_bits a
    else if ltb 5 (count + from_bool opt)
    then add_error line (Error.side_set_too_wide count opt) a
    else record a { side_set = record { count = count; opt = opt; pindirs = pindirs } }

-- The loop over the qualifiers.
unfoldable pub side_set_qualifiers : List Text → ℕ → Bool → Bool → ℕ → Assembler → Assembler
unfolding set_side_set
side_set_qualifiers [] count opt pindirs line a = set_side_set count opt pindirs line a
side_set_qualifiers (t ∷ ts) count opt pindirs line a =
    if t is "opt"
    then side_set_qualifiers ts count true pindirs line a
    else if t is "pindirs"
    then side_set_qualifiers ts count opt true line a
    else side_set_qualifiers ts count opt pindirs line
        (add_error line (Error.side_set_qualifier t) a)

unfoldable pub define_symbol : Bool → Text → ℤ → ℕ → Assembler → Assembler
unfolding insert_symbol
define_symbol public sym v line a =
    let a' = insert_symbol sym v line (Error.redefinition sym) a in
    if public then record a' { public_defines = a'.public_defines ++ (sym, v) ∷ [] } else a'

unfoldable pub dir_wrap : ℕ → ℕ → Assembler → Assembler
dir_wrap instr_index line a =
    if instr_index == 0
    then add_error line Error.wrap_before_instruction a
    else record a { wrap = some (as_u8 (instr_index - 1)) }
