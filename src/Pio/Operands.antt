-- ===== src/Pio/Operands.antt =====
-- The operand tables of pio-encode/src/lib.rs.
use beemel.Prelude.{
  ℕ, Text, none, some, List, [], ◌∷◌, codes, lower, strip_prefix, ◌is◌, String, if◌then◌else◌,
}
use beemel.Pio.Error.{Outcome, ok, err, bad_operand, usage, ◌>>=◌}

-- A table of names: the arms of a `match` on the name in lower case, and the message if none fits.
unfoldable pub table : Text → List (String × ℕ) → Text → Outcome ℕ
table what [] t = err (bad_operand what t)
table what ((name, n) ∷ rows) t = if t is name then ok n else table what rows t

abbrev pub set_dest_rows : List (String × ℕ)
set_dest_rows = ("pins", 0) ∷ ("x", 1) ∷ ("y", 2) ∷ ("pindirs", 4) ∷ []

unfoldable pub set_dest : Text → Outcome ℕ
set_dest d = table (codes "set destination must be pins|x|y|pindirs") set_dest_rows (lower d)

abbrev pub jmp_cond_rows : List (String × ℕ)
jmp_cond_rows =
    ("!x", 1) ∷ ("x--", 2) ∷ ("!y", 3) ∷ ("y--", 4) ∷ ("x!=y", 5) ∷ ("pin", 6) ∷ ("!osre", 7) ∷ []

unfoldable pub jmp_cond : Text → Outcome ℕ
jmp_cond c = table (codes "unknown jmp condition") jmp_cond_rows (lower c)

abbrev pub mov_dest_rows : List (String × ℕ)
mov_dest_rows =
    ("pins", 0) ∷ ("x", 1) ∷ ("y", 2) ∷ ("exec", 4) ∷ ("pc", 5) ∷ ("isr", 6) ∷ ("osr", 7) ∷ []

unfoldable pub mov_dest : Text → Outcome ℕ
mov_dest d = table (codes "mov destination invalid") mov_dest_rows (lower d)

-- The operation prefix of a `mov` source, and the name behind it.
unfoldable pub mov_op : Text → ℕ × Text
mov_op s = elim (strip_prefix (codes "~") s) [
  | some rest ↦ (1, rest)
  | none ↦ elim (strip_prefix (codes "!") s) [
    | some rest ↦ (1, rest)
    | none ↦ elim (strip_prefix (codes "::") s) [ some rest ↦ (2, rest) | none ↦ (0, s) ]
  ]
]

abbrev pub mov_src_rows : List (String × ℕ)
mov_src_rows =
    ("pins", 0) ∷ ("x", 1) ∷ ("y", 2) ∷ ("null", 3) ∷ ("status", 5) ∷ ("isr", 6) ∷ ("osr", 7) ∷ []

unfoldable pub mov_src : Text → Outcome (ℕ × ℕ)
unfolding mov_op
mov_src s = do
  src ← table (codes "mov source invalid") mov_src_rows (lower (mov_op s).1)
  ok ((mov_op s).0, src)

abbrev pub out_dest_rows : List (String × ℕ)
out_dest_rows =
    ("pins", 0)
    ∷ ("x", 1)
    ∷ ("y", 2)
    ∷ ("null", 3)
    ∷ ("pindirs", 4)
    ∷ ("pc", 5)
    ∷ ("isr", 6)
    ∷ ("exec", 7)
    ∷ []

unfoldable pub out_dest : Text → Outcome ℕ
out_dest d = table (codes "out destination invalid") out_dest_rows (lower d)

abbrev pub in_src_rows : List (String × ℕ)
in_src_rows = ("pins", 0) ∷ ("x", 1) ∷ ("y", 2) ∷ ("null", 3) ∷ ("isr", 6) ∷ ("osr", 7) ∷ []

unfoldable pub in_src : Text → Outcome ℕ
in_src s = table (codes "in source invalid") in_src_rows (lower s)

abbrev pub wait_source_rows : List (String × ℕ)
wait_source_rows = ("gpio", 0) ∷ ("pin", 1) ∷ ("irq", 2) ∷ []

unfoldable pub wait_source : Text → Outcome ℕ
wait_source s = table (codes "wait source must be gpio|pin|irq") wait_source_rows (lower s)

unfoldable pub two : List Text → Text → Outcome (Text × Text)
two (a ∷ b ∷ []) how = ok (a, b)
two _ how = err (usage how)

unfoldable pub three : List Text → Text → Outcome (Text × Text × Text)
three (a ∷ b ∷ c ∷ []) how = ok (a, b, c)
three _ how = err (usage how)
