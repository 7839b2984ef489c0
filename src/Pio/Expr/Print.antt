-- ===== src/Pio/Expr/Print.antt =====
-- Expression trees with their value and their precedence-based print: what the grammar of
-- `ExprParser` means, written without its parser.
use beemel.Prelude.{ℕ, ◌+◌, Text, Bool, [], ◌∷◌, ◌++◌, ltb, if◌then◌else◌}
use beemel.Prelude.Int.{ℤ}
use beemel.Pio.Error.{
  ETok, int, sym, op, shl, shr, lparen, rparen, Outcome, ok, or_err, unknown_symbol, ◌>>=◌,
}
use beemel.Pio.Expr.Apply.{apply}
use beemel.Pio.Expr.Parser.{Symbols, Tokens, lookup, negate}

pub data Operator : Type 0 where
  bit_or bit_xor bit_and shift_left shift_right plus minus times divide percent : Operator

abbrev pub token : Operator → ETok
token bit_or = op b'|'
token bit_xor = op b'^'
token bit_and = op b'&'
token shift_left = shl
token shift_right = shr
token plus = op b'+'
token minus = op b'-'
token times = op b'*'
token divide = op b'/'
token percent = op b'%'

-- C's order of the binary operators, weakest first.
abbrev pub power : Operator → ℕ
power bit_or = 1
power bit_xor = 2
power bit_and = 3
power shift_left = 4
power shift_right = 4
power plus = 5
power minus = 5
power times = 6
power divide = 6
power percent = 6

pub data Tree : Type 0 where
  literal : ℤ → Tree
  symbol : Text → Tree
  negation : Tree → Tree
  binary : Operator → Tree → Tree → Tree

-- The value of a tree, left operand first.
unfoldable pub value : Symbols → Tree → Outcome ℤ
value m (literal n) = ok n
value m (symbol k) = or_err (lookup k m) (unknown_symbol k)
value m (negation e) = value m e >>= negate
value m (binary o l r) = do a ← value m l; b ← value m r; apply (token o) a b

abbrev pub parens : Bool → Tokens → Tokens
parens needed ts = if needed then lparen ∷ ts ++ rparen ∷ [] else ts

-- The print where operators that bind less than `q` want parentheses: binary operators lean left,
-- and the operand of a sign is an atom.
unfoldable pub print : ℕ → Tree → Tokens
print q (literal n) = int n ∷ []
print q (symbol k) = sym k ∷ []
print q (negation e) = op b'-' ∷ print 7 e
print q (binary o l r) =
    parens (ltb (power o) q) (print (power o) l ++ token o ∷ print (power o + 1) r)
