-- ===== src/Ceiling/Pointers/Lift.antt =====
-- The walkers of bml-core/src/ceiling.rs for function pointers miss nothing that stands in a tree.
use beemel.Prelude.{Text, Bool, ◌↔◌, subst, sym, List, [], ◌∷◌, Elem, inl, inr, ◌⊎◌}
use beemel.Ast.Syntax.{
  Block, Expr, arm_then, array_init, array_repeat, asm, assert, assign, assume, at_index,
  at_pointer, binary, bit_new, block, block_expr, block_stmt, bool_literal, break, call, cast,
  claim, compound_assign, continue, enum_variant, expr, expr_then, field, field_access, field_then,
  float_literal, for, group, ident, if_expr, if_stmt, index, int_literal, loop, match_expr,
  match_stmt, name, no_arms, no_expr, no_exprs, no_fields, no_operands, no_stmt, no_stmts,
  null_literal, operand_then, return, ring_new, size_of, some_expr, some_stmt, stmt_then,
  string_literal, struct_init, unary, var_decl, view_new, while,
}
use beemel.Ceiling.Pointers.{
  Facts, ◌⊕◌, mentioned, callee_facts, pcf_expr, pcf_exprs, pcf_maybe, pcf_fields, pcf_arms,
  pcf_block, pcf_stmts, pcf_stmt, pcf_maybe_stmt, pcf_operands, pcf_lvalue,
}
use beemel.Ceiling.Pointers.Inside.{
  Node, an_expr, exprs, maybe, inits, arms, a_block, stmts, a_stmt, alternative, operands, place,
  parts, Holds, here, below,
}
use beemel.Ceiling.Pointers.Walk.{Search, facts, pcf_block-Holding, pcf_expr-Holding}

module _ (fn_names : Text → Bool) (Hit : Facts → Type 0) (P : Expr → Type 0)
    (s : Search fn_names Hit P) where
  abbrev AnyHit : List Node → Type 0
  AnyHit [] = ⊥
  AnyHit (c ∷ cs) = Hit (facts fn_names c) ⊎ AnyHit cs

  Elem-AnyHit : (c : Node) (cs : List Node) → Elem c cs → Hit (facts fn_names c) → AnyHit cs
  Elem-AnyHit c [] e h = absurd e
  Elem-AnyHit c (d ∷ cs) (inl e) h = inl (subst (λ (m : Node). Hit (facts fn_names m)) (sym e) h)
  Elem-AnyHit c (d ∷ cs) (inr e) h = inr (Elem-AnyHit c cs e h)

  one : (a : Facts) → Hit a ⊎ ⊥ → Hit a
  one a (inl h) = h
  one a (inr h) = absurd h

  first_or : {X : Type 0} (a b : Facts) → (X → Hit b) → Hit a ⊎ X → Hit (a ⊕ b)
  first_or a b f (inl h) = s.left a b h
  first_or a b f (inr x) = s.right a b (f x)

  any-Hit : (n : Node) → AnyHit (parts n) → Hit (facts fn_names n)
  unfolding parts facts
  any-Hit (an_expr (int_literal _ _ _)) h = absurd h
  any-Hit (an_expr (float_literal _ _ _)) h = absurd h
  any-Hit (an_expr (bool_literal _ _)) h = absurd h
  any-Hit (an_expr (string_literal _ _)) h = absurd h
  any-Hit (an_expr (null_literal _)) h = absurd h
  any-Hit (an_expr (enum_variant _ _ _)) h = absurd h
  any-Hit (an_expr (size_of _ _)) h = absurd h
  any-Hit (an_expr (ident x)) h = absurd h
  any-Hit (an_expr (unary _ e)) h = one (pcf_expr fn_names e) h
  any-Hit (an_expr (group e)) h = one (pcf_expr fn_names e) h
  any-Hit (an_expr (cast e _)) h = one (pcf_expr fn_names e) h
  any-Hit (an_expr (field_access e _)) h = one (pcf_expr fn_names e) h
  any-Hit (an_expr (binary l _ r)) h =
      first_or (pcf_expr fn_names l) (pcf_expr fn_names r) (one (pcf_expr fn_names r)) h
  any-Hit (an_expr (index l r)) h =
      first_or (pcf_expr fn_names l) (pcf_expr fn_names r) (one (pcf_expr fn_names r)) h
  any-Hit (an_expr (call (ident x) args)) h =
      s.right (callee_facts fn_names (ident x) (mentioned fn_names x.name))
        (pcf_exprs fn_names args) (one (pcf_exprs fn_names args) h)
  any-Hit (an_expr (call callee args)) (inl h) =
      s.left (callee_facts fn_names callee (pcf_expr fn_names callee)) (pcf_exprs fn_names args)
        (s.other (pcf_expr fn_names callee) h)
  any-Hit (an_expr (call callee args)) (inr h) =
      s.right (callee_facts fn_names callee (pcf_expr fn_names callee)) (pcf_exprs fn_names args)
        (one (pcf_exprs fn_names args) h)
  any-Hit (an_expr (view_new base len stride _ _)) h =
      first_or (pcf_expr fn_names base) (pcf_maybe fn_names len ⊕ pcf_maybe fn_names stride)
        (first_or (pcf_maybe fn_names len) (pcf_maybe fn_names stride)
          (one (pcf_maybe fn_names stride)))
        h
  any-Hit (an_expr (ring_new base capacity head len _)) h =
      first_or (pcf_expr fn_names base)
        (pcf_maybe fn_names capacity ⊕ pcf_expr fn_names head ⊕ pcf_expr fn_names len)
        (first_or (pcf_maybe fn_names capacity) (pcf_expr fn_names head ⊕ pcf_expr fn_names len)
          (first_or (pcf_expr fn_names head) (pcf_expr fn_names len) (one (pcf_expr fn_names len))))
        h
  any-Hit (an_expr (bit_new base offset len _)) h =
      first_or (pcf_expr fn_names base) (pcf_maybe fn_names offset ⊕ pcf_maybe fn_names len)
        (first_or (pcf_maybe fn_names offset) (pcf_maybe fn_names len)
          (one (pcf_maybe fn_names len)))
        h
  any-Hit (an_expr (array_init elems _)) h = one (pcf_exprs fn_names elems) h
  any-Hit (an_expr (array_repeat value count _)) h =
      first_or (pcf_expr fn_names value) (pcf_expr fn_names count) (one (pcf_expr fn_names count)) h
  any-Hit (an_expr (struct_init _ fields _)) h = one (pcf_fields fn_names fields) h
  any-Hit (an_expr (match_expr e cases _ _)) h =
      first_or (pcf_expr fn_names e) (pcf_arms fn_names cases) (one (pcf_arms fn_names cases)) h
  any-Hit (an_expr (block_expr b _)) h = one (pcf_block fn_names b) h
  any-Hit (an_expr (if_expr c b e _)) h =
      first_or (pcf_expr fn_names c) (pcf_block fn_names b ⊕ pcf_expr fn_names e)
        (first_or (pcf_block fn_names b) (pcf_expr fn_names e) (one (pcf_expr fn_names e))) h
  any-Hit (exprs no_exprs) h = absurd h
  any-Hit (exprs (expr_then e es)) h =
      first_or (pcf_expr fn_names e) (pcf_exprs fn_names es) (one (pcf_exprs fn_names es)) h
  any-Hit (maybe no_expr) h = absurd h
  any-Hit (maybe (some_expr e)) h = one (pcf_expr fn_names e) h
  any-Hit (inits no_fields) h = absurd h
  any-Hit (inits (field_then _ e fs)) h =
      first_or (pcf_expr fn_names e) (pcf_fields fn_names fs) (one (pcf_fields fn_names fs)) h
  any-Hit (arms no_arms) h = absurd h
  any-Hit (arms (arm_then _ b more)) h =
      first_or (pcf_block fn_names b) (pcf_arms fn_names more) (one (pcf_arms fn_names more)) h
  any-Hit (a_block (block ss e _)) h =
      first_or (pcf_stmts fn_names ss) (pcf_maybe fn_names e) (one (pcf_maybe fn_names e)) h
  any-Hit (stmts no_stmts) h = absurd h
  any-Hit (stmts (stmt_then s ss)) h =
      first_or (pcf_stmt fn_names s) (pcf_stmts fn_names ss) (one (pcf_stmts fn_names ss)) h
  any-Hit (a_stmt (var_decl _ _ _ init)) h = one (pcf_expr fn_names init) h
  any-Hit (a_stmt (assign p e)) h =
      first_or (pcf_lvalue fn_names p) (pcf_expr fn_names e) (one (pcf_expr fn_names e)) h
  any-Hit (a_stmt (compound_assign p _ e _)) h =
      first_or (pcf_lvalue fn_names p) (pcf_expr fn_names e) (one (pcf_expr fn_names e)) h
  any-Hit (a_stmt (expr e)) h = one (pcf_expr fn_names e) h
  any-Hit (a_stmt (if_stmt c b alt _)) h =
      first_or (pcf_expr fn_names c) (pcf_block fn_names b ⊕ pcf_maybe_stmt fn_names alt)
        (first_or (pcf_block fn_names b) (pcf_maybe_stmt fn_names alt)
          (one (pcf_maybe_stmt fn_names alt)))
        h
  any-Hit (a_stmt (loop b)) h = one (pcf_block fn_names b) h
  any-Hit (a_stmt (claim _ b)) h = one (pcf_block fn_names b) h
  any-Hit (a_stmt (while c b)) h =
      first_or (pcf_expr fn_names c) (pcf_block fn_names b) (one (pcf_block fn_names b)) h
  any-Hit (a_stmt (for _ _ start _ end step b)) h =
      first_or (pcf_expr fn_names start)
        (pcf_expr fn_names end ⊕ pcf_maybe fn_names step ⊕ pcf_block fn_names b)
        (first_or (pcf_expr fn_names end) (pcf_maybe fn_names step ⊕ pcf_block fn_names b)
          (first_or (pcf_maybe fn_names step) (pcf_block fn_names b) (one (pcf_block fn_names b))))
        h
  any-Hit (a_stmt (match_stmt e cases _ _)) h =
      first_or (pcf_expr fn_names e) (pcf_arms fn_names cases) (one (pcf_arms fn_names cases)) h
  any-Hit (a_stmt (return e)) h = one (pcf_maybe fn_names e) h
  any-Hit (a_stmt (asm _ outs ins _ _)) h =
      first_or (pcf_operands fn_names outs) (pcf_operands fn_names ins)
        (one (pcf_operands fn_names ins)) h
  any-Hit (a_stmt (assume c _)) h = one (pcf_expr fn_names c) h
  any-Hit (a_stmt (assert c _)) h = one (pcf_expr fn_names c) h
  any-Hit (a_stmt (block_stmt b)) h = one (pcf_block fn_names b) h
  any-Hit (a_stmt (break _)) h = absurd h
  any-Hit (a_stmt (continue _)) h = absurd h
  any-Hit (alternative no_stmt) h = absurd h
  any-Hit (alternative (some_stmt s)) h = one (pcf_stmt fn_names s) h
  any-Hit (operands no_operands) h = absurd h
  any-Hit (operands (operand_then _ e os)) h =
      first_or (pcf_expr fn_names e) (pcf_operands fn_names os) (one (pcf_operands fn_names os)) h
  any-Hit (place (name x)) h = absurd h
  any-Hit (place (field p _)) h = one (pcf_lvalue fn_names p) h
  any-Hit (place (at_index p i)) h =
      first_or (pcf_lvalue fn_names p) (pcf_expr fn_names i) (one (pcf_expr fn_names i)) h
  any-Hit (place (at_pointer e)) h = one (pcf_expr fn_names e) h

  Holds-Hit : (n : Node) → Holds P n → Hit (facts fn_names n)
  unfolding facts
  Holds-Hit n (here e p) = s.found e p
  Holds-Hit n (below _ c e r) = any-Hit n (Elem-AnyHit c (parts n) e (Holds-Hit c r))

  pub body-Holds : (b : Block) → Hit (pcf_block fn_names b) ↔ Holds P (a_block b)
  unfolding facts
  body-Holds b = (pcf_block-Holding fn_names Hit P s b, Holds-Hit (a_block b))

  pub init-Holds : (e : Expr) → Hit (pcf_expr fn_names e) ↔ Holds P (an_expr e)
  unfolding facts
  init-Holds e = (pcf_expr-Holding fn_names Hit P s e, Holds-Hit (an_expr e))
