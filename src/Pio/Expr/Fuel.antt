-- ===== src/Pio/Expr/Fuel.antt =====
-- The expression parser: the fuel is enough for every input, and whatever holds of the literals and
-- the symbols and is kept by the operators holds of the value.
use beemel.Prelude.{
  ℕ, zero, suc, ◌+◌, ◌*◌, ◌≤◌, ◌<◌, [], ◌∷◌, arith, length, ltb, ◌==◌, All, Option, none, some,
  Text,
}
use beemel.Prelude.Int.{ℤ}
use beemel.Pio.Error.{ETok, int, sym, op, shl, shr, lparen, rparen}
use beemel.Pio.Ensures.{Ensures, Ensures-bind, Ensures-map, Ensures-map_or, Ensures-if}
use beemel.Pio.Expr.Apply.{binding_power, apply}
use beemel.Pio.Expr.Parser.{
  Symbols, Tokens, lookup, negate, expect_rparen, parse, climb, parse_atom,
}

module _ (P : ℤ → Type 0) where
  -- `P` holds of a literal, and of the values of the symbols.
  abbrev pub TokenHolds : ETok → Type 0
  TokenHolds (int n) = P n
  TokenHolds _ = Unit

  abbrev pub SymbolHolds : Text × ℤ → Type 0
  SymbolHolds (k, v) = P v

  -- The value satisfies `P`, and fewer than `n` tokens are left.
  abbrev pub Reads : ℕ → ℤ × Tokens → Type 0
  Reads n (v, ts) = P v × All TokenHolds ts × (length ts < n)

  abbrev Found : Option ℤ → Type 0
  Found none = Unit
  Found (some v) = P v

  lookup-Found : (k : Text) (m : Symbols) → All SymbolHolds m → Found (lookup k m)
  unfolding lookup
  lookup-Found k [] h = tt
  lookup-Found k ((j, v) ∷ m) h = ground (arith, lookup-Found k m)

  expect_rparen-Reads :
      (v : ℤ) (ts : Tokens)
      → P v
      → All TokenHolds ts
      → Ensures (Reads (suc (length ts))) (expect_rparen v ts)
  unfolding expect_rparen
  expect_rparen-Reads v (rparen ∷ ts) h k = (h, k.1, omega arith)
  expect_rparen-Reads v _ h k = tt

module _ (P : ℤ → Type 0) (apply_keeps : (t : ETok) (a b : ℤ) → P a → P b → Ensures P (apply t a b))
    (negate_keeps : (v : ℤ) → P v → Ensures P (negate v)) (symbols : Symbols)
    (symbols_hold : All (SymbolHolds P) symbols) where
  weaken : (m n : ℕ) (r : ℤ × Tokens) → m ≤ n → Reads P m r → Reads P n r
  weaken m n r le h = (h.0, h.1, omega arith)

  mutual
    unfolding parse

    pub parse-Reads :
        (f bp : ℕ) (ts : Tokens)
        → 2 * length ts + 2 ≤ f
        → All (TokenHolds P) ts
        → Ensures (Reads P (suc (length ts))) (parse symbols f bp ts)
    parse-Reads zero bp ts h k = absurd (omega arith)
    parse-Reads (suc f) bp ts h k =
        Ensures-bind (Reads P (length ts)) (Reads P (suc (length ts))) (parse_atom symbols f ts) _
          (parse_atom-Reads f ts (omega arith) k)
          λ (lhs, rest) r.
            Ensures-map (Reads P (suc (length rest))) (Reads P (suc (length ts))) _
              (λ q. weaken _ _ q (omega arith)) (climb-Reads f bp lhs rest (omega arith) r.0 r.1)

    climb-Reads :
        (f bp : ℕ) (lhs : ℤ) (ts : Tokens)
        → 2 * length ts + 1 ≤ f
        → P lhs
        → All (TokenHolds P) ts
        → Ensures (Reads P (suc (length ts))) (climb symbols f bp lhs ts)
    climb-Reads zero bp lhs ts h p k = absurd (omega arith)
    climb-Reads (suc f) bp lhs [] h p k = (p, tt, omega arith)
    climb-Reads (suc f) bp lhs (tok ∷ ts) h p k =
        let n = suc (suc (length ts)) in
        Ensures-map_or (Reads P n) (binding_power tok) _ _ (p, k, omega arith)
          λ bp'.
            Ensures-if (Reads P n) (ltb bp' bp) _ _ (p, k, omega arith)
              (Ensures-bind (Reads P (suc (length ts))) (Reads P n) (parse symbols f (bp' + 1) ts) _
                (parse-Reads f (bp' + 1) ts (omega arith) k.1)
                λ (rhs, rest) r.
                  Ensures-bind P (Reads P n) (apply tok lhs rhs) _ (apply_keeps tok lhs rhs p r.0)
                    λ v pv.
                      Ensures-map (Reads P (suc (length rest))) (Reads P n) _
                        (λ q. weaken _ _ q (omega arith))
                        (climb-Reads f bp v rest (omega arith) pv r.1))

    pub parse_atom-Reads :
        (f : ℕ) (ts : Tokens)
        → 2 * length ts + 1 ≤ f
        → All (TokenHolds P) ts
        → Ensures (Reads P (length ts)) (parse_atom symbols f ts)
    parse_atom-Reads zero ts h k = absurd (omega arith)
    parse_atom-Reads (suc f) [] h k = tt
    parse_atom-Reads (suc f) (int n ∷ ts) h k = (k.0, k.1, omega arith)
    parse_atom-Reads (suc f) (sym name ∷ ts) h k =
        ground (arith, lookup-Found P name symbols symbols_hold)
    parse_atom-Reads (suc f) (op c ∷ ts) h k =
        let atom = parse_atom-Reads f ts (omega arith) k.1 in
        let n = suc (length ts) in
        Ensures-if (Reads P n) (c == b'-') _ _
          (Ensures-bind (Reads P (length ts)) (Reads P n) (parse_atom symbols f ts) _ atom
            λ (v, rest) r.
              Ensures-bind P (Reads P n) (negate v) _ (negate_keeps v r.0)
                λ m pm. (pm, r.1, omega arith))
          (Ensures-if (Reads P n) (c == b'+') _ _
            (Ensures-map (Reads P (length ts)) (Reads P n) _ (λ q. weaken _ _ q (omega arith)) atom)
            tt)
    parse_atom-Reads (suc f) (lparen ∷ ts) h k =
        let n = suc (length ts) in
        Ensures-bind (Reads P n) (Reads P n) (parse symbols f 0 ts) _
          (parse-Reads f 0 ts (omega arith) k.1)
          λ (v, rest) r.
            Ensures-map (Reads P (suc (length rest))) (Reads P n) _
              (λ q. weaken _ _ q (omega arith)) (expect_rparen-Reads P v rest r.0 r.1)
    parse_atom-Reads (suc f) (shl ∷ ts) h k = tt
    parse_atom-Reads (suc f) (shr ∷ ts) h k = tt
    parse_atom-Reads (suc f) (rparen ∷ ts) h k = tt
