-- ===== src/Pio/Expr/Steps.antt =====
-- The expression parser without fuel: `parse`, its loop and its atoms at fuel that is enough, and
-- the equations of the source's recursion.
use beemel.Prelude.{
  ℕ, zero, suc, ◌+◌, ◌*◌, ◌≤◌, ◌≡◌, refl, ap, ◌∙◌, Text, [], ◌∷◌, arith, length, ltb, map_or,
  if◌then◌else◌, true, false, Option, none, some,
}
use beemel.Prelude.Int.{ℤ}
use beemel.Pio.Error.{ETok, op, lparen, Outcome, ok, or_err, unknown_symbol, ◌>>=◌}
use beemel.Pio.Ensures.{Ensures, bind_ext}
use beemel.Pio.Expr.Apply.{binding_power, apply}
use beemel.Pio.Expr.Parser.{
  Symbols, Tokens, lookup, negate, expect_rparen, parse, climb, parse_atom,
}
use beemel.Pio.Expr.Fuel.{Reads, parse-Reads, parse_atom-Reads}
use beemel.Pio.Expr.Bounds.{Anything, anything, any_symbols, apply-Anything, negate-Anything}

map_or_ext {ℓ κ} :
    {A : Type ℓ} {B : Type κ} (o : Option A) (d : B) (f g : A → B)
    → ((a : A) → f a ≡ g a)
    → map_or o d f ≡ map_or o d g
map_or_ext none d f g h = refl
map_or_ext (some a) d f g h = h a

not_below : (p bp : ℕ) → bp ≤ p → ltb p bp ≡ false
not_below p bp h = ground arith

module _ (m : Symbols) where
  parse_shorter :
      (f bp : ℕ) (ts : Tokens)
      → 2 * length ts + 2 ≤ f
      → Ensures (Reads Anything (suc (length ts))) (parse m f bp ts)
  parse_shorter f bp ts h =
      parse-Reads Anything (λ t a b _ _. apply-Anything t a b) (λ v _. negate-Anything v) m
        (any_symbols m) f bp ts h (anything ts)

  parse_atom_shorter :
      (f : ℕ) (ts : Tokens)
      → 2 * length ts + 1 ≤ f
      → Ensures (Reads Anything (length ts)) (parse_atom m f ts)
  parse_atom_shorter f ts h =
      parse_atom-Reads Anything (λ t a b _ _. apply-Anything t a b) (λ v _. negate-Anything v) m
        (any_symbols m) f ts h (anything ts)

  mutual
    unfolding parse

    parse_same :
        (f g bp : ℕ) (ts : Tokens)
        → 2 * length ts + 2 ≤ f
        → 2 * length ts + 2 ≤ g
        → parse m f bp ts ≡ parse m g bp ts
    parse_same zero g bp ts h k = absurd (omega arith)
    parse_same (suc f) zero bp ts h k = absurd (omega arith)
    parse_same (suc f) (suc g) bp ts h k = rw (parse_atom_same f g ts (omega arith) (omega arith)) (
        bind_ext (Reads Anything (length ts)) (parse_atom m g ts) _ _
          (parse_atom_shorter g ts (omega arith))
          λ (v, rest) r. climb_same f g bp v rest (omega arith) (omega arith))

    climb_same :
        (f g bp : ℕ) (lhs : ℤ) (ts : Tokens)
        → 2 * length ts + 1 ≤ f
        → 2 * length ts + 1 ≤ g
        → climb m f bp lhs ts ≡ climb m g bp lhs ts
    climb_same zero g bp lhs ts h k = absurd (omega arith)
    climb_same (suc f) zero bp lhs ts h k = absurd (omega arith)
    climb_same (suc f) (suc g) bp lhs [] h k = refl
    climb_same (suc f) (suc g) bp lhs (tok ∷ ts) h k = map_or_ext (binding_power tok) _ _ _ λ bp'.
        ap (λ r. if ltb bp' bp then ok (lhs, tok ∷ ts) else r)
          (rw (parse_same f g (bp' + 1) ts (omega arith) (omega arith)) (
            bind_ext (Reads Anything (suc (length ts))) (parse m g (bp' + 1) ts) _ _
              (parse_shorter g (bp' + 1) ts (omega arith))
              λ (rhs, rest) r.
                bind_ext Anything (apply tok lhs rhs) _ _ (apply-Anything tok lhs rhs)
                  λ v _. climb_same f g bp v rest (omega arith) (omega arith)))

    parse_atom_same :
        (f g : ℕ) (ts : Tokens)
        → 2 * length ts + 1 ≤ f
        → 2 * length ts + 1 ≤ g
        → parse_atom m f ts ≡ parse_atom m g ts
    parse_atom_same zero g ts h k = absurd (omega arith)
    parse_atom_same (suc f) zero ts h k = absurd (omega arith)
    parse_atom_same (suc f) (suc g) [] h k = refl
    parse_atom_same (suc f) (suc g) (ETok.int n ∷ ts) h k = refl
    parse_atom_same (suc f) (suc g) (ETok.sym s ∷ ts) h k = refl
    parse_atom_same (suc f) (suc g) (op c ∷ ts) h k =
        rw (parse_atom_same f g ts (omega arith) (omega arith))
    parse_atom_same (suc f) (suc g) (lparen ∷ ts) h k =
        rw (parse_same f g 0 ts (omega arith) (omega arith))
    parse_atom_same (suc f) (suc g) (_ ∷ ts) h k = refl

  -- The three functions at enough fuel.
  unfoldable pub parse_at : ℕ → Tokens → Outcome (ℤ × Tokens)
  parse_at bp ts = parse m (2 * length ts + 2) bp ts

  unfoldable pub climb_at : ℕ → ℤ → Tokens → Outcome (ℤ × Tokens)
  climb_at bp lhs ts = climb m (2 * length ts + 1) bp lhs ts

  unfoldable pub atom_at : Tokens → Outcome (ℤ × Tokens)
  atom_at ts = parse_atom m (2 * length ts + 1) ts

  -- `parse`: an atom, then the loop.
  pub parse_at_step :
      (bp : ℕ) (ts : Tokens) → parse_at bp ts ≡ (atom_at ts >>= λ (v, rest). climb_at bp v rest)
  unfolding parse_at climb_at atom_at parse
  parse_at_step bp ts =
      let n = 2 * length ts in
      parse_same (n + 2) (suc (n + 1)) bp ts (omega arith) (omega arith)
      ∙ bind_ext (Reads Anything (length ts)) (parse_atom m (n + 1) ts) _ _
          (parse_atom_shorter (n + 1) ts (omega arith))
          λ (v, rest) r.
            climb_same (n + 1) (2 * length rest + 1) bp v rest (omega arith) (omega arith)

  pub climb_at_nil : (bp : ℕ) (lhs : ℤ) → climb_at bp lhs [] ≡ ok (lhs, [])
  unfolding climb_at parse
  climb_at_nil bp lhs = climb_same 1 (suc 0) bp lhs [] (omega arith) (omega arith)

  -- The loop at a token that is no operator, or binds less than `bp`.
  pub climb_at_stop :
      (bp : ℕ) (lhs : ℤ) (tok : ETok) (ts : Tokens)
      → map_or (binding_power tok) true (λ p. ltb p bp) ≡ true
      → climb_at bp lhs (tok ∷ ts) ≡ ok (lhs, tok ∷ ts)
  unfolding climb_at parse
  climb_at_stop bp lhs tok ts h =
      let n = 2 * length (tok ∷ ts) in
      climb_same (n + 1) (suc n) bp lhs (tok ∷ ts) (omega arith) (omega arith) ∙ ground arith

  -- The loop at an operator that binds at least as much as `bp`.
  pub climb_at_operator :
      (bp p : ℕ) (lhs : ℤ) (tok : ETok) (ts : Tokens)
      → binding_power tok ≡ some p
      → bp ≤ p
      → climb_at bp lhs (tok ∷ ts)
        ≡ (parse_at (p + 1) ts >>= λ (rhs, rest). apply tok lhs rhs >>= λ v. climb_at bp v rest)
  unfolding climb_at parse_at parse
  climb_at_operator bp p lhs tok ts e h =
      let n = 2 * length ts in
      climb_same (2 * length (tok ∷ ts) + 1) (suc (n + 2)) bp lhs (tok ∷ ts) (omega arith)
        (omega arith)
      ∙ rw e (
          rw (not_below p bp h) (
            bind_ext (Reads Anything (suc (length ts))) (parse m (n + 2) (p + 1) ts) _ _
              (parse_shorter (n + 2) (p + 1) ts (omega arith))
              λ (rhs, rest) r.
                bind_ext Anything (apply tok lhs rhs) _ _ (apply-Anything tok lhs rhs) λ v _.
                  climb_same (n + 2) (2 * length rest + 1) bp v rest (omega arith) (omega arith)))

  pub atom_at_int : (n : ℤ) (ts : Tokens) → atom_at (ETok.int n ∷ ts) ≡ ok (n, ts)
  unfolding atom_at parse
  atom_at_int n ts =
      parse_atom_same _ (suc (2 * length ts + 2)) (ETok.int n ∷ ts) (omega arith) (omega arith)

  pub atom_at_sym :
      (k : Text) (ts : Tokens)
      → atom_at (ETok.sym k ∷ ts) ≡ (or_err (lookup k m) (unknown_symbol k) >>= λ v. ok (v, ts))
  unfolding atom_at parse
  atom_at_sym k ts =
      parse_atom_same _ (suc (2 * length ts + 2)) (ETok.sym k ∷ ts) (omega arith) (omega arith)

  pub atom_at_minus :
      (ts : Tokens)
      → atom_at (op b'-' ∷ ts) ≡ (atom_at ts >>= λ (v, rest). negate v >>= λ n. ok (n, rest))
  unfolding atom_at parse
  atom_at_minus ts =
      let n = 2 * length ts in
      parse_atom_same _ (suc (n + 2)) (op b'-' ∷ ts) (omega arith) (omega arith)
      ∙ rw (parse_atom_same (n + 2) (n + 1) ts (omega arith) (omega arith))

  pub atom_at_lparen :
      (ts : Tokens) → atom_at (lparen ∷ ts) ≡ (parse_at 0 ts >>= λ (v, rest). expect_rparen v rest)
  unfolding atom_at parse_at parse
  atom_at_lparen ts =
      parse_atom_same _ (suc (2 * length ts + 2)) (lparen ∷ ts) (omega arith) (omega arith)
