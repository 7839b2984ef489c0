-- ===== src/Pio/Expr/RoundTrip.antt =====
-- The parser computes the value of the tree whose print it reads.
use beemel.Prelude.{
  ℕ, ◌+◌, ◌≤◌, ◌<◌, ◌≡◌, refl, ap, sym, ◌∙◌, Text, [], ◌∷◌, ◌++◌, arith, ltb, true, map_or, some,
  lt→ltb,
}
use mathlib.Core.List.{append_assoc, append-nil}
use mathlib.Core.Path.{fun_ext}
use native.Mathlib.Decide.{dec_lt}
use beemel.Prelude.Int.{ℤ}
use beemel.Pio.Error.{lparen, rparen, Outcome, ok, err, panic, out_of_fuel, ◌>>=◌}
use beemel.Pio.Ensures.{bind_assoc}
use beemel.Pio.Expr.Apply.{binding_power, apply}
use beemel.Pio.Expr.Parser.{Symbols, Tokens, expect_rparen, parse_all}
use beemel.Pio.Expr.Steps.{
  parse_at, climb_at, atom_at, parse_at_step, climb_at_nil, climb_at_stop, climb_at_operator,
  atom_at_int, atom_at_sym, atom_at_minus, atom_at_lparen,
}
use beemel.Pio.Expr.Print.{
  Operator, Tree, literal, symbol, negation, binary, token, power, value, print,
}

-- The first token of the rest is no operator that binds more than `q`.
abbrev Below : ℕ → Tokens → Type 0
Below q [] = Unit
Below q (tok ∷ ts) = map_or (binding_power tok) true (λ p. ltb p (q + 1)) ≡ true

binding_power-token : (o : Operator) → binding_power (token o) ≡ some (power o)
unfolding binding_power
binding_power-token o = ground arith

Below-token : (o : Operator) (ts : Tokens) → Below (power o) (token o ∷ ts)
Below-token o ts = rw binding_power-token (ground arith)

power_small : (o : Operator) → power o < 7
power_small o = ground arith

Below-mono : (p q : ℕ) (ts : Tokens) → q ≤ p → Below q ts → Below p ts
Below-mono p q [] h b = tt
Below-mono p q (tok ∷ ts) h b = ground arith

bind_cong {ℓ κ} :
    {A : Type ℓ} {B : Type κ} (m : Outcome A) (f g : A → Outcome B)
    → ((a : A) → f a ≡ g a)
    → (m >>= f) ≡ (m >>= g)
bind_cong m f g h = ap (λ k. m >>= k) (fun_ext h)

bind_ok {ℓ} : {A : Type ℓ} (m : Outcome A) → (m >>= λ a. ok a) ≡ m
bind_ok (ok a) = refl
bind_ok (err e) = refl
bind_ok panic = refl
bind_ok out_of_fuel = refl

module _ (m : Symbols) where
  -- After an operand of an operator of power `p`, the loop of the operand stops.
  climb_at-Below : (p : ℕ) (v : ℤ) (ts : Tokens) → Below p ts → climb_at m (p + 1) v ts ≡ ok (v, ts)
  climb_at-Below p v [] b = climb_at_nil m (p + 1) v
  climb_at-Below p v (tok ∷ ts) b = climb_at_stop m (p + 1) v tok ts b

  -- An atom's print is read by `parse_atom`, any other by `parse`, which goes on with the loop.
  abbrev ReadsAtom : Tree → Type 0
  ReadsAtom e = (rest : Tokens) → atom_at m (print 7 e ++ rest) ≡ (value m e >>= λ v. ok (v, rest))

  abbrev ReadsTree : Tree → Type 0
  ReadsTree e =
      (min q : ℕ) (rest : Tokens)
      → min ≤ q
      → q ≤ 7
      → Below q rest
      → parse_at m min (print q e ++ rest) ≡ (value m e >>= λ v. climb_at m min v rest)

  -- The print of an operator without its parentheses.
  abbrev body : Operator → Tree → Tree → Tokens
  body o l r = print (power o) l ++ token o ∷ print (power o + 1) r

  -- The loop at an operator reads its right operand and applies it.
  right_operand :
      (o : Operator) (r : Tree) (min : ℕ) (a : ℤ) (rest : Tokens)
      → ReadsTree r
      → min ≤ power o
      → Below (power o) rest
      → climb_at m min a (token o ∷ (print (power o + 1) r ++ rest))
        ≡ (value m r >>= λ b. apply (token o) a b >>= λ v. climb_at m min v rest)
  right_operand o r min a rest hr h b =
      climb_at_operator m min (power o) a (token o) _ (binding_power-token o) h
      ∙ rw
          (hr (power o + 1) (power o + 1) rest (omega arith) (omega (arith, power_small o))
            (Below-mono (power o + 1) (power o) rest (omega arith) b))
          (bind_assoc (value m r) _ _
            ∙ bind_cong (value m r) _ _ λ v. rw (climb_at-Below (power o) v rest b))

  body_reads :
      (o : Operator) (l r : Tree) (min : ℕ) (rest : Tokens)
      → ReadsTree l
      → ReadsTree r
      → min ≤ power o
      → Below (power o) rest
      → parse_at m min (body o l r ++ rest)
        ≡ (value m (binary o l r) >>= λ v. climb_at m min v rest)
  unfolding value
  body_reads o l r min rest hl hr h b =
      let p = power o in
      rw append_assoc (
        hl min p (token o ∷ (print (p + 1) r ++ rest)) h (omega (arith, power_small o))
          (Below-token o (print (p + 1) r ++ rest))
        ∙ bind_cong (value m l) _ _ (λ a. right_operand o r min a rest hr h b)
        ∙ sym (
            bind_assoc (value m l) _ _ ∙ bind_cong (value m l) _ _ λ a. bind_assoc (value m r) _ _))

  parens_read :
      (o : Operator) (l r : Tree) (rest : Tokens)
      → ReadsTree l
      → ReadsTree r
      → atom_at m (lparen ∷ (body o l r ++ rparen ∷ []) ++ rest)
        ≡ (value m (binary o l r) >>= λ v. ok (v, rest))
  unfolding expect_rparen
  parens_read o l r rest hl hr =
      let inner =
        body_reads o l r 0 (rparen ∷ rest) hl hr (omega arith) (unfold binding_power in refl) in
      atom_at_lparen m _
      ∙ rw append_assoc (
          rw inner (
            bind_assoc (value m (binary o l r)) (λ v. climb_at m 0 v (rparen ∷ rest))
              (λ (v, ts). expect_rparen v ts)
            ∙ bind_cong (value m (binary o l r))
                (λ v. climb_at m 0 v (rparen ∷ rest) >>= λ (w, ts). expect_rparen w ts)
                (λ v. ok (v, rest))
                λ v. rw (climb_at_stop m 0 v rparen rest (unfold binding_power in refl))))

  -- What `parse_atom` reads, `parse` reads and goes on with its loop.
  atom_reads :
      (ts rest : Tokens) (e : Tree) (min : ℕ)
      → atom_at m ts ≡ (value m e >>= λ v. ok (v, rest))
      → parse_at m min ts ≡ (value m e >>= λ v. climb_at m min v rest)
  atom_reads ts rest e min h = parse_at_step m min ts ∙ rw h (bind_assoc (value m e) _ _)

  print-parens :
      (o : Operator) (l r : Tree) (q : ℕ)
      → power o < q
      → print q (binary o l r) ≡ lparen ∷ body o l r ++ rparen ∷ []
  unfolding print
  print-parens o l r q h = rw (lt→ltb (power o) q h)

  print-bare :
      (o : Operator) (l r : Tree) (q : ℕ) → q ≤ power o → print q (binary o l r) ≡ body o l r
  unfolding print
  print-bare o l r q h = ground arith

  binary_reads : (o : Operator) (l r : Tree) → ReadsTree l → ReadsTree r → ReadsTree (binary o l r)
  binary_reads o l r hl hr min q rest h k b = elim (dec_lt (power o) q) [
    | yes c ↦
        rw (print-parens o l r q c)
          (atom_reads _ rest (binary o l r) min (parens_read o l r rest hl hr))
    | no c ↦ rw (print-bare o l r q (omega arith)) (
        body_reads o l r min rest hl hr (omega arith) (Below-mono (power o) q rest (omega arith) b))
  ]

  negation_reads : (e : Tree) → ReadsAtom e → ReadsAtom (negation e)
  unfolding print value
  negation_reads e h rest =
      atom_at_minus m _
      ∙ rw (h rest) (bind_assoc (value m e) _ _ ∙ sym (bind_assoc (value m e) _ _))

  mutual
    unfolding print value

    tree_reads : (e : Tree) → ReadsTree e
    tree_reads (literal n) min q rest h k b =
        atom_reads _ rest (literal n) min (atom_at_int m n rest)
    tree_reads (symbol s) min q rest h k b = atom_reads _ rest (symbol s) min (atom_at_sym m s rest)
    tree_reads (negation e) min q rest h k b =
        atom_reads _ rest (negation e) min (negation_reads e (tree-ReadsAtom e) rest)
    tree_reads (binary o l r) min q rest h k b =
        binary_reads o l r (tree_reads l) (tree_reads r) min q rest h k b

    tree-ReadsAtom : (e : Tree) → ReadsAtom e
    tree-ReadsAtom (literal n) rest = atom_at_int m n rest
    tree-ReadsAtom (symbol s) rest = atom_at_sym m s rest
    tree-ReadsAtom (negation e) rest = negation_reads e (tree-ReadsAtom e) rest
    tree-ReadsAtom (binary o l r) rest =
        rw (print-parens o l r 7 (power_small o))
          (parens_read o l r rest (tree_reads l) (tree_reads r))

  whole_reads : (e : Tree) → parse_at m 0 (print 0 e) ≡ (value m e >>= λ v. ok (v, []))
  whole_reads e =
      let h = tree_reads e 0 0 [] (omega arith) (omega arith) tt in
      (rw append-nil at h) ∙ bind_cong (value m e) _ _ λ v. climb_at_nil m 0 v

  -- On the print of a tree, `parse_all` (what `eval` does after lexing) returns the value of the
  -- tree, with the same error or panic where the tree has none.
  pub parse_all-print : (expr : Text) (e : Tree) → parse_all m expr (print 0 e) ≡ value m e
  unfolding parse_all parse_at
  parse_all-print expr e = rw (whole_reads e) (bind_assoc (value m e) _ _ ∙ value-bind_ok)
    where
      value-bind_ok : (value m e >>= λ v. ok v) ≡ value m e
      value-bind_ok = bind_ok (value m e)
