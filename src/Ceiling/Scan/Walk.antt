-- ===== src/Ceiling/Scan/Walk.antt =====
-- What the walkers of bml-core/src/ceiling.rs collect stands in the body.
use beemel.Prelude.{
  Text, Bool, true, ◌≡◌, refl, subst, List, [], ◌∷◌, ◌++◌, Elem, Elem-split, inl, inr, ◌⊎◌,
  Bool-cases,
}
use mathlib.Core.List.{append_assoc}
use beemel.Ast.Syntax.{
  Arms, AsmOperands, Block, Expr, Exprs, FieldInits, LValue, MaybeExpr, MaybeStmt, Stmt, Stmts,
  arm_then, array_init, array_repeat, asm, assert, assign, assume, at_index, at_pointer, binary,
  bit_new, block, block_expr, block_stmt, bool_literal, break, call, cast, claim, compound_assign,
  continue, enum_variant, expr, expr_then, field, field_access, field_then, float_literal, for,
  group, ident, if_expr, if_stmt, index, int_literal, loop, match_expr, match_stmt, name, no_arms,
  no_expr, no_exprs, no_fields, no_operands, no_stmt, no_stmts, null_literal, operand_then, return,
  ring_new, size_of, some_expr, some_stmt, stmt_then, string_literal, struct_init, unary, var_decl,
  view_new, while,
}
use beemel.Ceiling.Scan.{
  mention, scan_expr, scan_exprs, scan_maybe, scan_fields, scan_arms, scan_block, scan_stmts,
  scan_stmt, scan_maybe_stmt, scan_operands, scan_lvalue,
}
use beemel.Ceiling.Pointers.Inside.{
  Node, an_expr, exprs, maybe, inits, arms, a_block, stmts, a_stmt, alternative, operands, place,
}
use beemel.Ceiling.Scan.Occurs.{all_parts, Mentions, here, below}

module _ (shared : Text → Bool) (f : Text) where
  abbrev pub Found : Node → Type 0
  Found n = Mentions shared f n

  abbrev AnyFound : List Node → Type 0
  AnyFound [] = ⊥
  AnyFound (c ∷ cs) = Found c ⊎ AnyFound cs

  AnyFound-Elem :
      (n : Node) (cs : List Node)
      → ((c : Node) → Elem c cs → Elem c (all_parts n))
      → AnyFound cs
      → Found n
  AnyFound-Elem n [] k h = absurd h
  AnyFound-Elem n (c ∷ cs) k (inl h) = below n c (k c (inl refl)) h
  AnyFound-Elem n (c ∷ cs) k (inr h) = AnyFound-Elem n cs (λ d e. k d (inr e)) h

  up : (n : Node) → AnyFound (all_parts n) → Found n
  up n h = AnyFound-Elem n (all_parts n) (λ c e. e) h

  both :
      {X Y : Type 0} (xs ys : List Text)
      → (Elem f xs → X)
      → (Elem f ys → Y)
      → Elem f (xs ++ ys)
      → X ⊎ Y
  both xs ys g k h = elim (Elem-split f xs ys h) [ inl p ↦ inl (g p) | inr q ↦ inr (k q) ]

  last : {X : Type 0} (xs : List Text) → (Elem f xs → X) → Elem f xs → X ⊎ ⊥
  last xs g h = inl (g h)

  named : (t : Text) → Elem f (mention shared t) → (t ≡ f) × (shared t ≡ true)
  unfolding mention
  named t h = elim (Bool-cases (shared t)) [
    | inl e ↦ elim (rw e at h) [ inl same ↦ (same, e) | inr none_left ↦ absurd none_left ]
    | inr e ↦ absurd (rw e at h)
  ]

  regroup : (xs ys zs : List Text) → Elem f (xs ++ ys ++ zs) → Elem f (xs ++ (ys ++ zs))
  regroup xs ys zs h = subst (Elem f) (append_assoc xs ys zs) h

  regroup_four :
      (xs ys zs ws : List Text) → Elem f (xs ++ ys ++ zs ++ ws) → Elem f (xs ++ (ys ++ (zs ++ ws)))
  regroup_four xs ys zs ws h = regroup xs ys (zs ++ ws) (regroup (xs ++ ys) zs ws h)

  mutual
    unfolding scan_expr all_parts

    scan_expr-Found : (t : Expr) → Elem f (scan_expr shared t) → Found (an_expr t)
    scan_expr-Found (int_literal _ _ _) h = absurd h
    scan_expr-Found (float_literal _ _ _) h = absurd h
    scan_expr-Found (bool_literal _ _) h = absurd h
    scan_expr-Found (string_literal _ _) h = absurd h
    scan_expr-Found (null_literal _) h = absurd h
    scan_expr-Found (enum_variant _ _ _) h = absurd h
    scan_expr-Found (size_of _ _) h = absurd h
    scan_expr-Found (ident x) h = here (an_expr (ident x)) (named x.name h)
    scan_expr-Found (unary _ e) h = up (an_expr _) (last (scan_expr shared e) (scan_expr-Found e) h)
    scan_expr-Found (group e) h = up (an_expr _) (last (scan_expr shared e) (scan_expr-Found e) h)
    scan_expr-Found (cast e _) h = up (an_expr _) (last (scan_expr shared e) (scan_expr-Found e) h)
    scan_expr-Found (field_access e _) h =
        up (an_expr _) (last (scan_expr shared e) (scan_expr-Found e) h)
    scan_expr-Found (binary l _ r) h = up (an_expr _) (
        both (scan_expr shared l) (scan_expr shared r) (scan_expr-Found l)
          (last (scan_expr shared r) (scan_expr-Found r)) h)
    scan_expr-Found (index l r) h = up (an_expr _) (
        both (scan_expr shared l) (scan_expr shared r) (scan_expr-Found l)
          (last (scan_expr shared r) (scan_expr-Found r)) h)
    scan_expr-Found (call callee args) h = up (an_expr _) (
        both (scan_expr shared callee) (scan_exprs shared args) (scan_expr-Found callee)
          (last (scan_exprs shared args) (scan_exprs-Found args)) h)
    scan_expr-Found (view_new base len stride _ _) h = up (an_expr _) (
        both (scan_expr shared base) (scan_maybe shared len ++ scan_maybe shared stride)
          (scan_expr-Found base)
          (both (scan_maybe shared len) (scan_maybe shared stride) (scan_maybe-Found len)
            (last (scan_maybe shared stride) (scan_maybe-Found stride)))
          (regroup (scan_expr shared base) (scan_maybe shared len) (scan_maybe shared stride) h))
    scan_expr-Found (ring_new base capacity head len _) h = up (an_expr _) (
        both (scan_expr shared base)
          (scan_maybe shared capacity ++ (scan_expr shared head ++ scan_expr shared len))
          (scan_expr-Found base)
          (both (scan_maybe shared capacity) (scan_expr shared head ++ scan_expr shared len)
            (scan_maybe-Found capacity)
            (both (scan_expr shared head) (scan_expr shared len) (scan_expr-Found head)
              (last (scan_expr shared len) (scan_expr-Found len))))
          (regroup_four (scan_expr shared base) (scan_maybe shared capacity) (scan_expr shared head)
            (scan_expr shared len) h))
    scan_expr-Found (bit_new base offset len _) h = up (an_expr _) (
        both (scan_expr shared base) (scan_maybe shared offset ++ scan_maybe shared len)
          (scan_expr-Found base)
          (both (scan_maybe shared offset) (scan_maybe shared len) (scan_maybe-Found offset)
            (last (scan_maybe shared len) (scan_maybe-Found len)))
          (regroup (scan_expr shared base) (scan_maybe shared offset) (scan_maybe shared len) h))
    scan_expr-Found (array_init elems _) h =
        up (an_expr _) (last (scan_exprs shared elems) (scan_exprs-Found elems) h)
    scan_expr-Found (array_repeat value count _) h = up (an_expr _) (
        both (scan_expr shared value) (scan_expr shared count) (scan_expr-Found value)
          (last (scan_expr shared count) (scan_expr-Found count)) h)
    scan_expr-Found (struct_init _ fields _) h =
        up (an_expr _) (last (scan_fields shared fields) (scan_fields-Found fields) h)
    scan_expr-Found (match_expr e cases _ _) h = up (an_expr _) (
        both (scan_expr shared e) (scan_arms shared cases) (scan_expr-Found e)
          (last (scan_arms shared cases) (scan_arms-Found cases)) h)
    scan_expr-Found (block_expr b _) h =
        up (an_expr _) (last (scan_block shared b) (scan_block-Found b) h)
    scan_expr-Found (if_expr c b e _) h = up (an_expr _) (
        both (scan_expr shared c) (scan_block shared b ++ scan_expr shared e) (scan_expr-Found c)
          (both (scan_block shared b) (scan_expr shared e) (scan_block-Found b)
            (last (scan_expr shared e) (scan_expr-Found e)))
          (regroup (scan_expr shared c) (scan_block shared b) (scan_expr shared e) h))

    scan_exprs-Found : (t : Exprs) → Elem f (scan_exprs shared t) → Found (exprs t)
    scan_exprs-Found no_exprs h = absurd h
    scan_exprs-Found (expr_then e es) h = up (exprs _) (
        both (scan_expr shared e) (scan_exprs shared es) (scan_expr-Found e)
          (last (scan_exprs shared es) (scan_exprs-Found es)) h)

    scan_maybe-Found : (t : MaybeExpr) → Elem f (scan_maybe shared t) → Found (maybe t)
    scan_maybe-Found no_expr h = absurd h
    scan_maybe-Found (some_expr e) h =
        up (maybe _) (last (scan_expr shared e) (scan_expr-Found e) h)

    scan_fields-Found : (t : FieldInits) → Elem f (scan_fields shared t) → Found (inits t)
    scan_fields-Found no_fields h = absurd h
    scan_fields-Found (field_then _ e fs) h = up (inits _) (
        both (scan_expr shared e) (scan_fields shared fs) (scan_expr-Found e)
          (last (scan_fields shared fs) (scan_fields-Found fs)) h)

    scan_arms-Found : (t : Arms) → Elem f (scan_arms shared t) → Found (arms t)
    scan_arms-Found no_arms h = absurd h
    scan_arms-Found (arm_then _ b more) h = up (arms _) (
        both (scan_block shared b) (scan_arms shared more) (scan_block-Found b)
          (last (scan_arms shared more) (scan_arms-Found more)) h)

    pub scan_block-Found : (t : Block) → Elem f (scan_block shared t) → Found (a_block t)
    scan_block-Found (block ss e _) h = up (a_block _) (
        both (scan_stmts shared ss) (scan_maybe shared e) (scan_stmts-Found ss)
          (last (scan_maybe shared e) (scan_maybe-Found e)) h)

    scan_stmts-Found : (t : Stmts) → Elem f (scan_stmts shared t) → Found (stmts t)
    scan_stmts-Found no_stmts h = absurd h
    scan_stmts-Found (stmt_then s ss) h = up (stmts _) (
        both (scan_stmt shared s) (scan_stmts shared ss) (scan_stmt-Found s)
          (last (scan_stmts shared ss) (scan_stmts-Found ss)) h)

    scan_stmt-Found : (t : Stmt) → Elem f (scan_stmt shared t) → Found (a_stmt t)
    scan_stmt-Found (var_decl _ _ _ init) h =
        up (a_stmt _) (last (scan_expr shared init) (scan_expr-Found init) h)
    scan_stmt-Found (assign p e) h = up (a_stmt _) (
        both (scan_lvalue shared p) (scan_expr shared e) (scan_lvalue-Found p)
          (last (scan_expr shared e) (scan_expr-Found e)) h)
    scan_stmt-Found (compound_assign p _ e _) h = up (a_stmt _) (
        both (scan_lvalue shared p) (scan_expr shared e) (scan_lvalue-Found p)
          (last (scan_expr shared e) (scan_expr-Found e)) h)
    scan_stmt-Found (expr e) h = up (a_stmt _) (last (scan_expr shared e) (scan_expr-Found e) h)
    scan_stmt-Found (if_stmt c b alt _) h = up (a_stmt _) (
        both (scan_expr shared c) (scan_block shared b ++ scan_maybe_stmt shared alt)
          (scan_expr-Found c)
          (both (scan_block shared b) (scan_maybe_stmt shared alt) (scan_block-Found b)
            (last (scan_maybe_stmt shared alt) (scan_maybe_stmt-Found alt)))
          (regroup (scan_expr shared c) (scan_block shared b) (scan_maybe_stmt shared alt) h))
    scan_stmt-Found (loop b) h = up (a_stmt _) (last (scan_block shared b) (scan_block-Found b) h)
    scan_stmt-Found (claim x b) h =
        elim (Elem-split f (mention shared x.name) (scan_block shared b) h) [
          | inl p ↦ here (a_stmt (claim x b)) (named x.name p)
          | inr q ↦ up (a_stmt (claim x b)) (inl (scan_block-Found b q))
        ]
    scan_stmt-Found (while c b) h = up (a_stmt _) (
        both (scan_expr shared c) (scan_block shared b) (scan_expr-Found c)
          (last (scan_block shared b) (scan_block-Found b)) h)
    scan_stmt-Found (for _ _ start _ end step b) h = up (a_stmt _) (
        both (scan_expr shared start)
          (scan_expr shared end ++ (scan_maybe shared step ++ scan_block shared b))
          (scan_expr-Found start)
          (both (scan_expr shared end) (scan_maybe shared step ++ scan_block shared b)
            (scan_expr-Found end)
            (both (scan_maybe shared step) (scan_block shared b) (scan_maybe-Found step)
              (last (scan_block shared b) (scan_block-Found b))))
          (regroup_four (scan_expr shared start) (scan_expr shared end) (scan_maybe shared step)
            (scan_block shared b) h))
    scan_stmt-Found (match_stmt e cases _ _) h = up (a_stmt _) (
        both (scan_expr shared e) (scan_arms shared cases) (scan_expr-Found e)
          (last (scan_arms shared cases) (scan_arms-Found cases)) h)
    scan_stmt-Found (return e) h = up (a_stmt _) (last (scan_maybe shared e) (scan_maybe-Found e) h)
    scan_stmt-Found (asm _ outs ins _ _) h = up (a_stmt _) (
        both (scan_operands shared outs) (scan_operands shared ins) (scan_operands-Found outs)
          (last (scan_operands shared ins) (scan_operands-Found ins)) h)
    scan_stmt-Found (assume c _) h = up (a_stmt _) (last (scan_expr shared c) (scan_expr-Found c) h)
    scan_stmt-Found (assert c _) h = up (a_stmt _) (last (scan_expr shared c) (scan_expr-Found c) h)
    scan_stmt-Found (block_stmt b) h =
        up (a_stmt _) (last (scan_block shared b) (scan_block-Found b) h)
    scan_stmt-Found (break _) h = absurd h
    scan_stmt-Found (continue _) h = absurd h

    scan_maybe_stmt-Found :
        (t : MaybeStmt) → Elem f (scan_maybe_stmt shared t) → Found (alternative t)
    scan_maybe_stmt-Found no_stmt h = absurd h
    scan_maybe_stmt-Found (some_stmt s) h =
        up (alternative _) (last (scan_stmt shared s) (scan_stmt-Found s) h)

    scan_operands-Found : (t : AsmOperands) → Elem f (scan_operands shared t) → Found (operands t)
    scan_operands-Found no_operands h = absurd h
    scan_operands-Found (operand_then _ e os) h = up (operands _) (
        both (scan_expr shared e) (scan_operands shared os) (scan_expr-Found e)
          (last (scan_operands shared os) (scan_operands-Found os)) h)

    scan_lvalue-Found : (t : LValue) → Elem f (scan_lvalue shared t) → Found (place t)
    scan_lvalue-Found (name x) h = here (place (name x)) (named x.name h)
    scan_lvalue-Found (field p _) h =
        up (place _) (last (scan_lvalue shared p) (scan_lvalue-Found p) h)
    scan_lvalue-Found (at_index p i) h = up (place _) (
        both (scan_lvalue shared p) (scan_expr shared i) (scan_lvalue-Found p)
          (last (scan_expr shared i) (scan_expr-Found i)) h)
    scan_lvalue-Found (at_pointer e) h =
        up (place _) (last (scan_expr shared e) (scan_expr-Found e) h)
