-- ===== src/Pio/Expr/Parser.antt =====
-- `ExprParser` of pio-encode/src/lib.rs, a precedence-climbing parser that computes the value as
-- it goes. The position is the list of the tokens left. Each call costs a unit of fuel.
use beemel.Prelude.{
  ℕ, zero, suc, ◌+◌, ◌*◌, Text, Option, none, some, List, [], ◌∷◌, ltb, ◌==◌, if◌then◌else◌,
  text_eq, length, map_or,
}
use beemel.Prelude.Int.{ℤ}
use beemel.Word.{checked_neg}
use beemel.Pio.Error.{
  ETok, int, sym, op, lparen, rparen, Outcome, ok, err, panic, out_of_fuel, or_err, unknown_symbol,
  expected_rparen, expected_value, trailing_tokens, ◌>>=◌,
}
use beemel.Pio.Chars.{Unicode}
use beemel.Pio.Expr.Lex.{lex_expr}
use beemel.Pio.Expr.Apply.{binding_power, apply}

-- `HashMap<String, i64>`: the newest entry of a key stands first.
abbrev pub Symbols : Type 0
Symbols = List (Text × ℤ)

unfoldable pub lookup : Text → Symbols → Option ℤ
lookup k [] = none
lookup k ((j, v) ∷ m) = if text_eq j k then some v else lookup k m

abbrev pub Tokens : Type 0
Tokens = List ETok

-- The unary minus, which the source does not check.
unfoldable pub negate : ℤ → Outcome ℤ
negate v = elim (checked_neg 64 v) [ none ↦ panic | some n ↦ ok n ]

unfoldable pub expect_rparen : ℤ → Tokens → Outcome (ℤ × Tokens)
expect_rparen v (rparen ∷ ts) = ok (v, ts)
expect_rparen v _ = err expected_rparen

module _ (symbols : Symbols) where
  unfoldable mutual
    -- `parse(min_bp)`: an atom, then the loop of `climb`.
    pub parse : ℕ → ℕ → Tokens → Outcome (ℤ × Tokens)
    parse zero min_bp ts = out_of_fuel
    parse (suc f) min_bp ts = do (lhs, rest) ← parse_atom f ts; climb f min_bp lhs rest

    -- The `while let` loop of `parse`.
    pub climb : ℕ → ℕ → ℤ → Tokens → Outcome (ℤ × Tokens)
    climb zero min_bp lhs ts = out_of_fuel
    climb (suc f) min_bp lhs [] = ok (lhs, [])
    climb (suc f) min_bp lhs (tok ∷ ts) = map_or (binding_power tok) (ok (lhs, tok ∷ ts)) λ bp.
        let more = (do
          (rhs, rest) ← parse f (bp + 1) ts
          v ← apply tok lhs rhs
          climb f min_bp v rest) in
        if ltb bp min_bp then ok (lhs, tok ∷ ts) else more

    pub parse_atom : ℕ → Tokens → Outcome (ℤ × Tokens)
    parse_atom zero ts = out_of_fuel
    parse_atom (suc f) [] = err (expected_value none)
    parse_atom (suc f) (int n ∷ ts) = ok (n, ts)
    parse_atom (suc f) (sym name ∷ ts) = do
      v ← or_err (lookup name symbols) (unknown_symbol name)
      ok (v, ts)
    parse_atom (suc f) (op c ∷ ts) =
        let minus = (do (v, rest) ← parse_atom f ts; n ← negate v; ok (n, rest)) in
        let plus = parse_atom f ts in
        if c == b'-' then minus else if c == b'+' then plus else err (expected_value (some (op c)))
    parse_atom (suc f) (lparen ∷ ts) = do (v, rest) ← parse f 0 ts; expect_rparen v rest
    parse_atom (suc f) (tok ∷ ts) = err (expected_value (some tok))

  -- Two calls for each token and two more are enough.
  unfoldable pub enough_fuel : Tokens → ℕ
  enough_fuel ts = 2 * length ts + 2

  unfoldable pub parse_all : Text → Tokens → Outcome ℤ
  unfolding parse enough_fuel
  parse_all expr ts = do
    (v, rest) ← parse (enough_fuel ts) 0 ts
    elim rest [ [] ↦ ok v | _ ∷ _ ↦ err (trailing_tokens expr) ]

-- `Assembler::eval`. Its line number is not used.
unfoldable pub eval : Unicode → Symbols → Text → Outcome ℤ
unfolding lex_expr parse_all
eval u symbols expr = do ts ← lex_expr u expr; parse_all symbols expr ts
