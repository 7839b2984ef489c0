-- ===== src/Ceiling/Scan/Exact.antt =====
-- What stands in a body is collected: the walkers of bml-core/src/ceiling.rs.
use beemel.Prelude.{
  Text, Bool, true, ◌≡◌, ◌↔◌, subst, sym, List, [], ◌∷◌, ◌++◌, Elem, Elem-append_left,
  Elem-append_right, inl, inr, ◌⊎◌,
}
use mathlib.Core.List.{append_assoc}
use beemel.Ast.Syntax.{
  Block, arm_then, array_init, array_repeat, asm, assert, assign, assume, at_index, at_pointer,
  binary, bit_new, block, block_expr, block_stmt, bool_literal, break, call, cast, claim,
  compound_assign, continue, enum_variant, expr, expr_then, field, field_access, field_then,
  float_literal, for, group, ident, if_expr, if_stmt, index, int_literal, loop, match_expr,
  match_stmt, name, no_arms, no_expr, no_exprs, no_fields, no_operands, no_stmt, no_stmts,
  null_literal, operand_then, return, ring_new, size_of, some_expr, some_stmt, stmt_then,
  string_literal, struct_init, unary, var_decl, view_new, while,
}
use beemel.Ceiling.Scan.{
  mention, scan_expr, scan_exprs, scan_maybe, scan_fields, scan_arms, scan_block, scan_stmts,
  scan_stmt, scan_maybe_stmt, scan_operands, scan_lvalue,
}
use beemel.Ceiling.Pointers.Inside.{
  Node, an_expr, exprs, maybe, inits, arms, a_block, stmts, a_stmt, alternative, operands, place,
}
use beemel.Ceiling.Scan.Occurs.{all_parts, Names, Mentions, here, below}
use beemel.Ceiling.Scan.Walk.{scan_block-Found}

unfoldable scanned : (Text → Bool) → Node → List Text
unfolding scan_expr
scanned shared (an_expr t) = scan_expr shared t
scanned shared (exprs t) = scan_exprs shared t
scanned shared (maybe t) = scan_maybe shared t
scanned shared (inits t) = scan_fields shared t
scanned shared (arms t) = scan_arms shared t
scanned shared (a_block t) = scan_block shared t
scanned shared (stmts t) = scan_stmts shared t
scanned shared (a_stmt t) = scan_stmt shared t
scanned shared (alternative t) = scan_maybe_stmt shared t
scanned shared (operands t) = scan_operands shared t
scanned shared (place t) = scan_lvalue shared t

module _ (shared : Text → Bool) (f : Text) where
  abbrev AnyElem : List Node → Type 0
  AnyElem [] = ⊥
  AnyElem (c ∷ cs) = Elem f (scanned shared c) ⊎ AnyElem cs

  Elem-AnyElem : (c : Node) (cs : List Node) → Elem c cs → Elem f (scanned shared c) → AnyElem cs
  Elem-AnyElem c [] e h = absurd e
  Elem-AnyElem c (d ∷ cs) (inl e) h =
      inl (subst (λ (m : Node). Elem f (scanned shared m)) (sym e) h)
  Elem-AnyElem c (d ∷ cs) (inr e) h = inr (Elem-AnyElem c cs e h)

  one : (xs : List Text) → Elem f xs ⊎ ⊥ → Elem f xs
  one xs (inl h) = h
  one xs (inr h) = absurd h

  first_or : {X : Type 0} (xs ys : List Text) → (X → Elem f ys) → Elem f xs ⊎ X → Elem f (xs ++ ys)
  first_or xs ys k (inl h) = Elem-append_left f xs ys h
  first_or xs ys k (inr x) = Elem-append_right f xs ys (k x)

  ungroup : (xs ys zs : List Text) → Elem f (xs ++ (ys ++ zs)) → Elem f (xs ++ ys ++ zs)
  ungroup xs ys zs h = subst (Elem f) (sym (append_assoc xs ys zs)) h

  ungroup_four :
      (xs ys zs ws : List Text) → Elem f (xs ++ (ys ++ (zs ++ ws))) → Elem f (xs ++ ys ++ zs ++ ws)
  ungroup_four xs ys zs ws h = ungroup (xs ++ ys) zs ws (ungroup xs ys (zs ++ ws) h)

  Elem-mention : (t : Text) → (t ≡ f) × (shared t ≡ true) → Elem f (mention shared t)
  unfolding mention
  Elem-mention t (same, e) = rw e (inl same)

  root-Names : (n : Node) → Names shared f n → Elem f (scanned shared n)
  unfolding scanned
  root-Names (an_expr (ident x)) h = Elem-mention x.name h
  root-Names (place (name x)) h = Elem-mention x.name h
  root-Names (a_stmt (claim x b)) h =
      Elem-append_left f (mention shared x.name) _ (Elem-mention x.name h)
  root-Names _ h = absurd h

  any_part : (n : Node) → AnyElem (all_parts n) → Elem f (scanned shared n)
  unfolding all_parts scanned
  any_part (an_expr (int_literal _ _ _)) h = absurd h
  any_part (an_expr (float_literal _ _ _)) h = absurd h
  any_part (an_expr (bool_literal _ _)) h = absurd h
  any_part (an_expr (string_literal _ _)) h = absurd h
  any_part (an_expr (null_literal _)) h = absurd h
  any_part (an_expr (enum_variant _ _ _)) h = absurd h
  any_part (an_expr (size_of _ _)) h = absurd h
  any_part (an_expr (ident x)) h = absurd h
  any_part (an_expr (unary _ e)) h = one (scan_expr shared e) h
  any_part (an_expr (group e)) h = one (scan_expr shared e) h
  any_part (an_expr (cast e _)) h = one (scan_expr shared e) h
  any_part (an_expr (field_access e _)) h = one (scan_expr shared e) h
  any_part (an_expr (binary l _ r)) h =
      first_or (scan_expr shared l) (scan_expr shared r) (one (scan_expr shared r)) h
  any_part (an_expr (index l r)) h =
      first_or (scan_expr shared l) (scan_expr shared r) (one (scan_expr shared r)) h
  any_part (an_expr (call callee args)) h =
      first_or (scan_expr shared callee) (scan_exprs shared args) (one (scan_exprs shared args)) h
  any_part (an_expr (view_new base len stride _ _)) h =
      ungroup (scan_expr shared base) (scan_maybe shared len) (scan_maybe shared stride) (
        first_or (scan_expr shared base) (scan_maybe shared len ++ scan_maybe shared stride)
          (first_or (scan_maybe shared len) (scan_maybe shared stride)
            (one (scan_maybe shared stride)))
          h)
  any_part (an_expr (ring_new base capacity head len _)) h =
      ungroup_four (scan_expr shared base) (scan_maybe shared capacity) (scan_expr shared head)
        (scan_expr shared len)
        (first_or (scan_expr shared base)
          (scan_maybe shared capacity ++ (scan_expr shared head ++ scan_expr shared len))
          (first_or (scan_maybe shared capacity) (scan_expr shared head ++ scan_expr shared len)
            (first_or (scan_expr shared head) (scan_expr shared len) (one (scan_expr shared len))))
          h)
  any_part (an_expr (bit_new base offset len _)) h =
      ungroup (scan_expr shared base) (scan_maybe shared offset) (scan_maybe shared len) (
        first_or (scan_expr shared base) (scan_maybe shared offset ++ scan_maybe shared len)
          (first_or (scan_maybe shared offset) (scan_maybe shared len)
            (one (scan_maybe shared len)))
          h)
  any_part (an_expr (array_init elems _)) h = one (scan_exprs shared elems) h
  any_part (an_expr (array_repeat value count _)) h =
      first_or (scan_expr shared value) (scan_expr shared count) (one (scan_expr shared count)) h
  any_part (an_expr (struct_init _ fields _)) h = one (scan_fields shared fields) h
  any_part (an_expr (match_expr e cases _ _)) h =
      first_or (scan_expr shared e) (scan_arms shared cases) (one (scan_arms shared cases)) h
  any_part (an_expr (block_expr b _)) h = one (scan_block shared b) h
  any_part (an_expr (if_expr c b e _)) h =
      ungroup (scan_expr shared c) (scan_block shared b) (scan_expr shared e) (
        first_or (scan_expr shared c) (scan_block shared b ++ scan_expr shared e)
          (first_or (scan_block shared b) (scan_expr shared e) (one (scan_expr shared e))) h)
  any_part (exprs no_exprs) h = absurd h
  any_part (exprs (expr_then e es)) h =
      first_or (scan_expr shared e) (scan_exprs shared es) (one (scan_exprs shared es)) h
  any_part (maybe no_expr) h = absurd h
  any_part (maybe (some_expr e)) h = one (scan_expr shared e) h
  any_part (inits no_fields) h = absurd h
  any_part (inits (field_then _ e fs)) h =
      first_or (scan_expr shared e) (scan_fields shared fs) (one (scan_fields shared fs)) h
  any_part (arms no_arms) h = absurd h
  any_part (arms (arm_then _ b more)) h =
      first_or (scan_block shared b) (scan_arms shared more) (one (scan_arms shared more)) h
  any_part (a_block (block ss e _)) h =
      first_or (scan_stmts shared ss) (scan_maybe shared e) (one (scan_maybe shared e)) h
  any_part (stmts no_stmts) h = absurd h
  any_part (stmts (stmt_then s ss)) h =
      first_or (scan_stmt shared s) (scan_stmts shared ss) (one (scan_stmts shared ss)) h
  any_part (a_stmt (var_decl _ _ _ init)) h = one (scan_expr shared init) h
  any_part (a_stmt (assign p e)) h =
      first_or (scan_lvalue shared p) (scan_expr shared e) (one (scan_expr shared e)) h
  any_part (a_stmt (compound_assign p _ e _)) h =
      first_or (scan_lvalue shared p) (scan_expr shared e) (one (scan_expr shared e)) h
  any_part (a_stmt (expr e)) h = one (scan_expr shared e) h
  any_part (a_stmt (if_stmt c b alt _)) h =
      ungroup (scan_expr shared c) (scan_block shared b) (scan_maybe_stmt shared alt) (
        first_or (scan_expr shared c) (scan_block shared b ++ scan_maybe_stmt shared alt)
          (first_or (scan_block shared b) (scan_maybe_stmt shared alt)
            (one (scan_maybe_stmt shared alt)))
          h)
  any_part (a_stmt (loop b)) h = one (scan_block shared b) h
  any_part (a_stmt (claim x b)) h =
      Elem-append_right f (mention shared x.name) _ (one (scan_block shared b) h)
  any_part (a_stmt (while c b)) h =
      first_or (scan_expr shared c) (scan_block shared b) (one (scan_block shared b)) h
  any_part (a_stmt (for _ _ start _ end step b)) h =
      ungroup_four (scan_expr shared start) (scan_expr shared end) (scan_maybe shared step)
        (scan_block shared b)
        (first_or (scan_expr shared start)
          (scan_expr shared end ++ (scan_maybe shared step ++ scan_block shared b))
          (first_or (scan_expr shared end) (scan_maybe shared step ++ scan_block shared b)
            (first_or (scan_maybe shared step) (scan_block shared b) (one (scan_block shared b))))
          h)
  any_part (a_stmt (match_stmt e cases _ _)) h =
      first_or (scan_expr shared e) (scan_arms shared cases) (one (scan_arms shared cases)) h
  any_part (a_stmt (return e)) h = one (scan_maybe shared e) h
  any_part (a_stmt (asm _ outs ins _ _)) h =
      first_or (scan_operands shared outs) (scan_operands shared ins)
        (one (scan_operands shared ins)) h
  any_part (a_stmt (assume c _)) h = one (scan_expr shared c) h
  any_part (a_stmt (assert c _)) h = one (scan_expr shared c) h
  any_part (a_stmt (block_stmt b)) h = one (scan_block shared b) h
  any_part (a_stmt (break _)) h = absurd h
  any_part (a_stmt (continue _)) h = absurd h
  any_part (alternative no_stmt) h = absurd h
  any_part (alternative (some_stmt s)) h = one (scan_stmt shared s) h
  any_part (operands no_operands) h = absurd h
  any_part (operands (operand_then _ e os)) h =
      first_or (scan_expr shared e) (scan_operands shared os) (one (scan_operands shared os)) h
  any_part (place (name x)) h = absurd h
  any_part (place (field p _)) h = one (scan_lvalue shared p) h
  any_part (place (at_index p i)) h =
      first_or (scan_lvalue shared p) (scan_expr shared i) (one (scan_expr shared i)) h
  any_part (place (at_pointer e)) h = one (scan_expr shared e) h

  Mentions-Elem : (n : Node) → Mentions shared f n → Elem f (scanned shared n)
  Mentions-Elem n (here _ p) = root-Names n p
  Mentions-Elem n (below _ c e r) = any_part n (Elem-AnyElem c (all_parts n) e (Mentions-Elem c r))

-- The scan of a body collects a name exactly if the name is one of those looked for and stands
-- somewhere in the body: as a value, a callee, the root of a place, or what a statement claims.
pub scan_block-Mentions :
    (shared : Text → Bool) (f : Text) (b : Block)
    → Elem f (scan_block shared b) ↔ Mentions shared f (a_block b)
unfolding scanned
scan_block-Mentions shared f b = (scan_block-Found shared f b, Mentions-Elem shared f (a_block b))
