-- ===== src/Pio/Expr/Bounds.antt =====
-- The fuel of `Assembler::eval` of pio-encode/src/lib.rs, lexer and parser.
use beemel.Prelude.{ℕ, zero, suc, ◌+◌, ◌*◌, ◌≤◌, ◌<◌, Text, [], ◌∷◌, arith, length, All, Bool}
use beemel.Prelude.Int.{ℤ}
use beemel.Pio.Error.{ETok, int, sym, op, shl, shr, lparen, rparen, Outcome}
use beemel.Pio.Ensures.{Ensures, Ensures-bind}
use beemel.Pio.Chars.{Unicode, take_while, drop_while, is_ascii_alphanumeric}
use beemel.Pio.Expr.Lex.{
  Class, parse_int, is_symbol_char, classify, rest, lex_loop, lex_expr, lex_branch, push,
}
use beemel.Pio.Expr.Apply.{apply}
use beemel.Pio.Expr.Parser.{Symbols, Tokens, negate, parse, eval}
use beemel.Pio.Expr.Fuel.{TokenHolds, SymbolHolds, parse-Reads, Reads}

abbrev pub Anything : ℤ → Type 0
Anything v = Unit {0}

-- The lexer stays within its fuel.
abbrev AnyTokens : Tokens → Type 0
AnyTokens ts = Unit {0}

parse_int-Anything : (t : Text) → Ensures Anything (parse_int t)
unfolding parse_int
parse_int-Anything t = ground arith

length-drop_while : (p : ℕ → Bool) (t : Text) → length (drop_while p t) ≤ length t
unfolding drop_while
length-drop_while p [] = omega arith
length-drop_while p (c ∷ t) = ground (arith, length-drop_while p t)

length-rest : (t : Text) → length (rest t) ≤ length t
length-rest t = ground arith

push-AnyTokens :
    (t : ETok) (out : Outcome Tokens) → Ensures AnyTokens out → Ensures AnyTokens (push t out)
unfolding push
push-AnyTokens t out k = Ensures-bind AnyTokens AnyTokens out _ k λ ts hs. tt

pub anything : (ts : Tokens) → All (TokenHolds Anything) ts
anything [] = tt
anything (int n ∷ ts) = (tt, anything ts)
anything (_ ∷ ts) = (tt, anything ts)

pub any_symbols : (m : Symbols) → All (SymbolHolds Anything) m
any_symbols [] = tt
any_symbols (e ∷ m) = (tt, any_symbols m)

pub apply-Anything : (t : ETok) (a b : ℤ) → Ensures Anything (apply t a b)
unfolding apply
apply-Anything t a b = ground arith

pub negate-Anything : (v : ℤ) → Ensures Anything (negate v)
unfolding negate
negate-Anything v = ground arith

module _ (u : Unicode) where
  module _ (t : Text) (more : Text → Outcome Tokens)
      (reads : (r : Text) → length r ≤ length t → Ensures AnyTokens (more r)) where
    lex_branch-AnyTokens : (k : Class) (c : ℕ) → Ensures AnyTokens (lex_branch u k c t more)
    unfolding lex_branch
    lex_branch-AnyTokens Class.blank c = reads t (omega arith)
    lex_branch-AnyTokens Class.left_shift c = push-AnyTokens shl _ (reads (rest t) (length-rest t))
    lex_branch-AnyTokens Class.right_shift c = push-AnyTokens shr _ (reads (rest t) (length-rest t))
    lex_branch-AnyTokens Class.operator c = push-AnyTokens (op c) _ (reads t (omega arith))
    lex_branch-AnyTokens Class.open_paren c = push-AnyTokens lparen _ (reads t (omega arith))
    lex_branch-AnyTokens Class.close_paren c = push-AnyTokens rparen _ (reads t (omega arith))
    lex_branch-AnyTokens Class.digit c =
        let lit = take_while is_ascii_alphanumeric (c ∷ t) in
        Ensures-bind Anything AnyTokens (parse_int lit) _ (parse_int-Anything lit)
          λ v h. push-AnyTokens (int v) _ (reads _ (length-drop_while _ t))
    lex_branch-AnyTokens Class.letter c =
        push-AnyTokens (sym (take_while (is_symbol_char u) (c ∷ t))) _
          (reads _ (length-drop_while _ t))
    lex_branch-AnyTokens Class.other c = tt

  lex_loop-AnyTokens : (f : ℕ) (t : Text) → length t < f → Ensures AnyTokens (lex_loop u f t)
  unfolding lex_loop
  lex_loop-AnyTokens zero t h = elim h [ ]
  lex_loop-AnyTokens (suc f) [] h = tt
  lex_loop-AnyTokens (suc f) (c ∷ t) h =
      lex_branch-AnyTokens t (λ r. lex_loop u f r) (λ r le. lex_loop-AnyTokens f r (omega arith))
        (classify u c t) c

  lex_expr-AnyTokens : (t : Text) → Ensures AnyTokens (lex_expr u t)
  unfolding lex_expr
  lex_expr-AnyTokens t = lex_loop-AnyTokens (suc (length t)) t (omega arith)

  -- Whatever the table holds, `eval` does not run out of fuel.
  pub eval-ends : (m : Symbols) (t : Text) → Ensures Anything (eval u m t)
  unfolding eval
  eval-ends m t =
      Ensures-bind AnyTokens Anything (lex_expr u t) _ (lex_expr-AnyTokens t) λ ts literals.
        Ensures-bind (Reads Anything (suc (length ts))) Anything (parse m (2 * length ts + 2) 0 ts)
          _
          (parse-Reads Anything (λ t a b _ _. apply-Anything t a b) (λ v _. negate-Anything v) m
            (any_symbols m) (2 * length ts + 2) 0 ts (omega arith) (anything ts))
          λ (v, left) r. ground arith
