-- ===== src/Pio/Tests.antt =====
-- Runs of the assembler, and its theorems on them.
use beemel.Prelude.{arith, ◌≡◌, refl, Text, true, false, none, some, [], ◌∷◌, codes}
use beemel.Prelude.Int.{pos, negsuc}
use beemel.Pio.Error.{ok}
use beemel.Pio.Chars.{ascii_only}
use beemel.Word.{pattern_of}
use beemel.Pio.Operands.{table, set_dest, two}
use beemel.Pio.Encode.{enc_set, enc_nop, enc_jmp}
use beemel.Pio.Ensures.{Ensures}
use beemel.Pio.SideSet.{SideSet, total_bits, delay_bits, delay_sideset_field}
use beemel.Pio.SideSet.Layout.{IsSideSet, Fields, delay_sideset_field-Fields}
use beemel.Pio.Expr.Parser.{Symbols, lookup, eval, parse_all}
use beemel.Pio.Expr.Print.{
  Tree, literal, symbol, negation, binary, plus, times, minus, value, print,
}
use beemel.Pio.Expr.Bounds.{Anything, eval-ends}
use beemel.Pio.Expr.RoundTrip.{parse_all-print}
use beemel.Pio.Line.{encode_base, encode_words}
use beemel.Pio.Decode.{describe}
use beemel.Pio.Decode.Refines.{Refines}
use beemel.Pio.Decode.Whole.{Says, encode_base-Refines, encode_words-Says}
use beemel.Pio.State.{Report, assembled}
use beemel.Pio.Assembler.{assemble}
use beemel.Pio.Assembler.Accepted.{IsReport, assemble-IsReport}

-- A program with a label, a side-set value, a delay and a wrap.
abbrev blink_source : Text
blink_source =
    codes
      "again: ; top\n.side_set 1 opt\n set pins, 1 [2]\n nop side 1\n.wrap_target\n jmp again\n .wrap"

abbrev blink_report : Report
blink_report = assembled (record {
  name = codes "t";
  words = 0xE201 ∷ 0xB842 ∷ 0x0000 ∷ [];
  origin = none;
  wrap_target = 2;
  wrap = 2;
  side_set_count = 2;
  side_set_opt = true;
  side_set_pindirs = false;
  defines = [];
})

blink_assembled : assemble ascii_only (codes "t") blink_source ≡ ok blink_report
unfolding assemble eval enc_set two set_dest table delay_sideset_field delay_bits enc_nop enc_jmp
    lookup pattern_of
blink_assembled = refl

assemble-IsReport_example : Ensures IsReport (assemble ascii_only (codes "t") blink_source)
assemble-IsReport_example = assemble-IsReport ascii_only (codes "t") blink_source

abbrev optional_bit : SideSet
optional_bit = record { count = 1; opt = true; pindirs = false }

abbrev symbols : Symbols
symbols = (codes "again", pos 5) ∷ (codes "low", negsuc 3) ∷ []

optional_bit-IsSideSet : IsSideSet optional_bit
unfolding total_bits
optional_bit-IsSideSet = omega arith

jmp_encoded :
    encode_words ascii_only symbols optional_bit
      (codes "jmp" ∷ codes "again" ∷ [])
      (some (pos 1))
      (pos 3)
    ≡ ok 0x1B05
unfolding encode_words enc_jmp eval lookup delay_sideset_field delay_bits total_bits pattern_of
jmp_encoded = refl

encode_words-Says_example :
    Says ascii_only symbols optional_bit
      (codes "jmp")
      (codes "again" ∷ [])
      (some (pos 1))
      (pos 3)
      0x1B05
encode_words-Says_example =
    encode_words-Says ascii_only symbols optional_bit (codes "jmp") (codes "again" ∷ [])
      (some (pos 1)) (pos 3) {w = 0x1B05} optional_bit-IsSideSet jmp_encoded

encode_base-Refines_example :
    Refines
      (encode_base ascii_only symbols (codes "jmp") (codes "again" ∷ []))
      (describe ascii_only symbols (codes "jmp") (codes "again" ∷ []))
encode_base-Refines_example =
    encode_base-Refines ascii_only symbols (codes "jmp") (codes "again" ∷ [])

field_made : delay_sideset_field optional_bit (some (pos 1)) (pos 3) ≡ ok 0x1B00
unfolding delay_sideset_field delay_bits total_bits
field_made = refl

delay_sideset_field-Fields_example : Fields optional_bit (some (pos 1)) (pos 3) 0x1B00
delay_sideset_field-Fields_example =
    delay_sideset_field-Fields optional_bit optional_bit-IsSideSet (some (pos 1)) (pos 3)
      {w = 0x1B00} field_made

-- (again - low) * -2 + again
abbrev tree : Tree
tree =
    binary plus
      (binary times (binary minus (symbol (codes "again")) (symbol (codes "low")))
        (negation (literal (pos 2))))
      (symbol (codes "again"))

parse_all-print_example : parse_all symbols [] (print 0 tree) ≡ value symbols tree
parse_all-print_example = parse_all-print symbols [] tree

eval-ends_example : Ensures Anything (eval ascii_only symbols (codes "1 + (2 * again"))
eval-ends_example = eval-ends ascii_only symbols (codes "1 + (2 * again")
