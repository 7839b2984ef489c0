-- ===== src/Ceiling/Pointers/Walk.antt =====
-- The walkers of bml-core/src/ceiling.rs for function pointers find in a tree what stands in it.
use beemel.Prelude.{Text, Bool, true, false, ◌≡◌, refl, List, [], ◌∷◌, Elem, inl, inr, ◌⊎◌}
use beemel.Ast.Names.{Ident}
use beemel.Ast.Syntax.{
  Arms, AsmOperands, Block, Expr, Exprs, FieldInits, LValue, MaybeExpr, MaybeStmt, Stmt, Stmts,
  arm_then, array_init, array_repeat, asm, assert, assign, assume, at_index, at_pointer, binary,
  bit_new, block, block_expr, block_stmt, bool_literal, break, call, cast, claim, compound_assign,
  continue, enum_variant, expr, expr_then, field, field_access, field_then, float_literal, for,
  group, ident, if_expr, if_stmt, index, int_literal, loop, match_expr, match_stmt, name, no_arms,
  no_expr, no_exprs, no_fields, no_operands, no_stmt, no_stmts, null_literal, operand_then, return,
  ring_new, size_of, some_expr, some_stmt, stmt_then, string_literal, struct_init, unary, var_decl,
  view_new, while,
}
use beemel.Ceiling.Pointers.{
  Facts, nothing, ◌⊕◌, mentioned, callee_facts, pcf_expr, pcf_exprs, pcf_maybe, pcf_fields,
  pcf_arms, pcf_block, pcf_stmts, pcf_stmt, pcf_maybe_stmt, pcf_operands, pcf_lvalue,
}
use beemel.Ceiling.Pointers.Inside.{
  Node, an_expr, exprs, maybe, inits, arms, a_block, stmts, a_stmt, alternative, operands, place,
  parts, Holds, here, below, names_function,
}

-- What is looked for, in facts and in expressions.
pub record Search (fn_names : Text → Bool) (Hit : Facts → Type 0) (P : Expr → Type 0) : Type 0 where
  pub split : (a b : Facts) → Hit (a ⊕ b) → Hit a ⊎ Hit b
  pub left : (a b : Facts) → Hit a → Hit (a ⊕ b)
  pub right : (a b : Facts) → Hit b → Hit (a ⊕ b)
  pub empty : ¬ Hit nothing
  pub at_ident : (x : Ident) → Hit (mentioned fn_names x.name) → P (ident x)
  pub at_named :
      (x : Ident) (args : Exprs)
      → Hit (callee_facts fn_names (ident x) (mentioned fn_names x.name))
      → P (call (ident x) args)
  pub at_other :
      (callee : Expr) (args : Exprs) (inner : Facts)
      → names_function fn_names callee ≡ false
      → Hit (record { taken = inner.taken; indirect = true })
      → P (call callee args) ⊎ Hit inner
  pub other : (inner : Facts) → Hit inner → Hit (record { taken = inner.taken; indirect = true })
  pub found : (e : Expr) → P e → Hit (pcf_expr fn_names e)

unfoldable pub facts : (Text → Bool) → Node → Facts
unfolding pcf_expr
facts fn_names (an_expr t) = pcf_expr fn_names t
facts fn_names (exprs t) = pcf_exprs fn_names t
facts fn_names (maybe t) = pcf_maybe fn_names t
facts fn_names (inits t) = pcf_fields fn_names t
facts fn_names (arms t) = pcf_arms fn_names t
facts fn_names (a_block t) = pcf_block fn_names t
facts fn_names (stmts t) = pcf_stmts fn_names t
facts fn_names (a_stmt t) = pcf_stmt fn_names t
facts fn_names (alternative t) = pcf_maybe_stmt fn_names t
facts fn_names (operands t) = pcf_operands fn_names t
facts fn_names (place t) = pcf_lvalue fn_names t

module _ (fn_names : Text → Bool) (Hit : Facts → Type 0) (P : Expr → Type 0)
    (s : Search fn_names Hit P) where
  abbrev pub Holding : Node → Type 0
  Holding n = Holds P n

  abbrev AnyHolding : List Node → Type 0
  AnyHolding [] = ⊥
  AnyHolding (c ∷ cs) = Holding c ⊎ AnyHolding cs

  AnyHolding-Elem :
      (n : Node) (cs : List Node)
      → ((c : Node) → Elem c cs → Elem c (parts n))
      → AnyHolding cs
      → Holding n
  AnyHolding-Elem n [] k h = absurd h
  AnyHolding-Elem n (c ∷ cs) k (inl h) = below n c (k c (inl refl)) h
  AnyHolding-Elem n (c ∷ cs) k (inr h) = AnyHolding-Elem n cs (λ d e. k d (inr e)) h

  up : (n : Node) → AnyHolding (parts n) → Holding n
  up n h = AnyHolding-Elem n (parts n) (λ c e. e) h

  both : {X Y : Type 0} (a b : Facts) → (Hit a → X) → (Hit b → Y) → Hit (a ⊕ b) → X ⊎ Y
  both a b f g h = elim (s.split a b h) [ inl p ↦ inl (f p) | inr q ↦ inr (g q) ]

  last : {X : Type 0} (a : Facts) → (Hit a → X) → Hit a → X ⊎ ⊥
  last a f h = inl (f h)

  mutual
    unfolding pcf_expr parts

    pub pcf_expr-Holding : (t : Expr) → Hit (pcf_expr fn_names t) → Holding (an_expr t)
    pcf_expr-Holding (int_literal _ _ _) h = absurd (s.empty h)
    pcf_expr-Holding (float_literal _ _ _) h = absurd (s.empty h)
    pcf_expr-Holding (bool_literal _ _) h = absurd (s.empty h)
    pcf_expr-Holding (string_literal _ _) h = absurd (s.empty h)
    pcf_expr-Holding (null_literal _) h = absurd (s.empty h)
    pcf_expr-Holding (enum_variant _ _ _) h = absurd (s.empty h)
    pcf_expr-Holding (size_of _ _) h = absurd (s.empty h)
    pcf_expr-Holding (ident x) h = here (ident x) (s.at_ident x h)
    pcf_expr-Holding (unary _ e) h =
        up (an_expr _) (last (pcf_expr fn_names e) (pcf_expr-Holding e) h)
    pcf_expr-Holding (group e) h =
        up (an_expr _) (last (pcf_expr fn_names e) (pcf_expr-Holding e) h)
    pcf_expr-Holding (cast e _) h =
        up (an_expr _) (last (pcf_expr fn_names e) (pcf_expr-Holding e) h)
    pcf_expr-Holding (field_access e _) h =
        up (an_expr _) (last (pcf_expr fn_names e) (pcf_expr-Holding e) h)
    pcf_expr-Holding (binary l _ r) h = up (an_expr _) (
        both (pcf_expr fn_names l) (pcf_expr fn_names r) (pcf_expr-Holding l)
          (last (pcf_expr fn_names r) (pcf_expr-Holding r)) h)
    pcf_expr-Holding (index l r) h = up (an_expr _) (
        both (pcf_expr fn_names l) (pcf_expr fn_names r) (pcf_expr-Holding l)
          (last (pcf_expr fn_names r) (pcf_expr-Holding r)) h)
    pcf_expr-Holding (call (ident x) args) h =
        elim (s.split (callee_facts fn_names (ident x) (mentioned fn_names x.name))
          (pcf_exprs fn_names args) h) [
            | inl p ↦ here (call (ident x) args) (s.at_named x args p)
            | inr q ↦ up (an_expr (call (ident x) args)) (inl (pcf_exprs-Holding args q))
          ]
    pcf_expr-Holding (call callee args) h = elim (s.split _ (pcf_exprs fn_names args) h) [
      | inl p ↦ elim (s.at_other callee args (pcf_expr fn_names callee) refl p) [
        | inl o ↦ here (call callee args) o
        | inr i ↦ up (an_expr (call callee args)) (inl (pcf_expr-Holding callee i))
      ]
      | inr q ↦ up (an_expr (call callee args)) (inr (inl (pcf_exprs-Holding args q)))
    ]
    pcf_expr-Holding (view_new base len stride _ _) h = up (an_expr _) (
        both (pcf_expr fn_names base) (pcf_maybe fn_names len ⊕ pcf_maybe fn_names stride)
          (pcf_expr-Holding base)
          (both (pcf_maybe fn_names len) (pcf_maybe fn_names stride) (pcf_maybe-Holding len)
            (last (pcf_maybe fn_names stride) (pcf_maybe-Holding stride)))
          h)
    pcf_expr-Holding (ring_new base capacity head len _) h = up (an_expr _) (
        both (pcf_expr fn_names base)
          (pcf_maybe fn_names capacity ⊕ pcf_expr fn_names head ⊕ pcf_expr fn_names len)
          (pcf_expr-Holding base)
          (both (pcf_maybe fn_names capacity) (pcf_expr fn_names head ⊕ pcf_expr fn_names len)
            (pcf_maybe-Holding capacity)
            (both (pcf_expr fn_names head) (pcf_expr fn_names len) (pcf_expr-Holding head)
              (last (pcf_expr fn_names len) (pcf_expr-Holding len))))
          h)
    pcf_expr-Holding (bit_new base offset len _) h = up (an_expr _) (
        both (pcf_expr fn_names base) (pcf_maybe fn_names offset ⊕ pcf_maybe fn_names len)
          (pcf_expr-Holding base)
          (both (pcf_maybe fn_names offset) (pcf_maybe fn_names len) (pcf_maybe-Holding offset)
            (last (pcf_maybe fn_names len) (pcf_maybe-Holding len)))
          h)
    pcf_expr-Holding (array_init elems _) h =
        up (an_expr _) (last (pcf_exprs fn_names elems) (pcf_exprs-Holding elems) h)
    pcf_expr-Holding (array_repeat value count _) h = up (an_expr _) (
        both (pcf_expr fn_names value) (pcf_expr fn_names count) (pcf_expr-Holding value)
          (last (pcf_expr fn_names count) (pcf_expr-Holding count)) h)
    pcf_expr-Holding (struct_init _ fields _) h =
        up (an_expr _) (last (pcf_fields fn_names fields) (pcf_fields-Holding fields) h)
    pcf_expr-Holding (match_expr e cases _ _) h = up (an_expr _) (
        both (pcf_expr fn_names e) (pcf_arms fn_names cases) (pcf_expr-Holding e)
          (last (pcf_arms fn_names cases) (pcf_arms-Holding cases)) h)
    pcf_expr-Holding (block_expr b _) h =
        up (an_expr _) (last (pcf_block fn_names b) (pcf_block-Holding b) h)
    pcf_expr-Holding (if_expr c b e _) h = up (an_expr _) (
        both (pcf_expr fn_names c) (pcf_block fn_names b ⊕ pcf_expr fn_names e) (pcf_expr-Holding c)
          (both (pcf_block fn_names b) (pcf_expr fn_names e) (pcf_block-Holding b)
            (last (pcf_expr fn_names e) (pcf_expr-Holding e)))
          h)

    pcf_exprs-Holding : (t : Exprs) → Hit (pcf_exprs fn_names t) → Holding (exprs t)
    pcf_exprs-Holding no_exprs h = absurd (s.empty h)
    pcf_exprs-Holding (expr_then e es) h = up (exprs _) (
        both (pcf_expr fn_names e) (pcf_exprs fn_names es) (pcf_expr-Holding e)
          (last (pcf_exprs fn_names es) (pcf_exprs-Holding es)) h)

    pcf_maybe-Holding : (t : MaybeExpr) → Hit (pcf_maybe fn_names t) → Holding (maybe t)
    pcf_maybe-Holding no_expr h = absurd (s.empty h)
    pcf_maybe-Holding (some_expr e) h =
        up (maybe _) (last (pcf_expr fn_names e) (pcf_expr-Holding e) h)

    pcf_fields-Holding : (t : FieldInits) → Hit (pcf_fields fn_names t) → Holding (inits t)
    pcf_fields-Holding no_fields h = absurd (s.empty h)
    pcf_fields-Holding (field_then _ e fs) h = up (inits _) (
        both (pcf_expr fn_names e) (pcf_fields fn_names fs) (pcf_expr-Holding e)
          (last (pcf_fields fn_names fs) (pcf_fields-Holding fs)) h)

    pcf_arms-Holding : (t : Arms) → Hit (pcf_arms fn_names t) → Holding (arms t)
    pcf_arms-Holding no_arms h = absurd (s.empty h)
    pcf_arms-Holding (arm_then _ b more) h = up (arms _) (
        both (pcf_block fn_names b) (pcf_arms fn_names more) (pcf_block-Holding b)
          (last (pcf_arms fn_names more) (pcf_arms-Holding more)) h)

    pub pcf_block-Holding : (t : Block) → Hit (pcf_block fn_names t) → Holding (a_block t)
    pcf_block-Holding (block ss e _) h = up (a_block _) (
        both (pcf_stmts fn_names ss) (pcf_maybe fn_names e) (pcf_stmts-Holding ss)
          (last (pcf_maybe fn_names e) (pcf_maybe-Holding e)) h)

    pcf_stmts-Holding : (t : Stmts) → Hit (pcf_stmts fn_names t) → Holding (stmts t)
    pcf_stmts-Holding no_stmts h = absurd (s.empty h)
    pcf_stmts-Holding (stmt_then s ss) h = up (stmts _) (
        both (pcf_stmt fn_names s) (pcf_stmts fn_names ss) (pcf_stmt-Holding s)
          (last (pcf_stmts fn_names ss) (pcf_stmts-Holding ss)) h)

    pcf_stmt-Holding : (t : Stmt) → Hit (pcf_stmt fn_names t) → Holding (a_stmt t)
    pcf_stmt-Holding (var_decl _ _ _ init) h =
        up (a_stmt _) (last (pcf_expr fn_names init) (pcf_expr-Holding init) h)
    pcf_stmt-Holding (assign p e) h = up (a_stmt _) (
        both (pcf_lvalue fn_names p) (pcf_expr fn_names e) (pcf_lvalue-Holding p)
          (last (pcf_expr fn_names e) (pcf_expr-Holding e)) h)
    pcf_stmt-Holding (compound_assign p _ e _) h = up (a_stmt _) (
        both (pcf_lvalue fn_names p) (pcf_expr fn_names e) (pcf_lvalue-Holding p)
          (last (pcf_expr fn_names e) (pcf_expr-Holding e)) h)
    pcf_stmt-Holding (expr e) h = up (a_stmt _) (last (pcf_expr fn_names e) (pcf_expr-Holding e) h)
    pcf_stmt-Holding (if_stmt c b alt _) h = up (a_stmt _) (
        both (pcf_expr fn_names c) (pcf_block fn_names b ⊕ pcf_maybe_stmt fn_names alt)
          (pcf_expr-Holding c)
          (both (pcf_block fn_names b) (pcf_maybe_stmt fn_names alt) (pcf_block-Holding b)
            (last (pcf_maybe_stmt fn_names alt) (pcf_maybe_stmt-Holding alt)))
          h)
    pcf_stmt-Holding (loop b) h =
        up (a_stmt _) (last (pcf_block fn_names b) (pcf_block-Holding b) h)
    pcf_stmt-Holding (claim _ b) h =
        up (a_stmt _) (last (pcf_block fn_names b) (pcf_block-Holding b) h)
    pcf_stmt-Holding (while c b) h = up (a_stmt _) (
        both (pcf_expr fn_names c) (pcf_block fn_names b) (pcf_expr-Holding c)
          (last (pcf_block fn_names b) (pcf_block-Holding b)) h)
    pcf_stmt-Holding (for _ _ start _ end step b) h = up (a_stmt _) (
        both (pcf_expr fn_names start)
          (pcf_expr fn_names end ⊕ pcf_maybe fn_names step ⊕ pcf_block fn_names b)
          (pcf_expr-Holding start)
          (both (pcf_expr fn_names end) (pcf_maybe fn_names step ⊕ pcf_block fn_names b)
            (pcf_expr-Holding end)
            (both (pcf_maybe fn_names step) (pcf_block fn_names b) (pcf_maybe-Holding step)
              (last (pcf_block fn_names b) (pcf_block-Holding b))))
          h)
    pcf_stmt-Holding (match_stmt e cases _ _) h = up (a_stmt _) (
        both (pcf_expr fn_names e) (pcf_arms fn_names cases) (pcf_expr-Holding e)
          (last (pcf_arms fn_names cases) (pcf_arms-Holding cases)) h)
    pcf_stmt-Holding (return e) h =
        up (a_stmt _) (last (pcf_maybe fn_names e) (pcf_maybe-Holding e) h)
    pcf_stmt-Holding (asm _ outs ins _ _) h = up (a_stmt _) (
        both (pcf_operands fn_names outs) (pcf_operands fn_names ins) (pcf_operands-Holding outs)
          (last (pcf_operands fn_names ins) (pcf_operands-Holding ins)) h)
    pcf_stmt-Holding (assume c _) h =
        up (a_stmt _) (last (pcf_expr fn_names c) (pcf_expr-Holding c) h)
    pcf_stmt-Holding (assert c _) h =
        up (a_stmt _) (last (pcf_expr fn_names c) (pcf_expr-Holding c) h)
    pcf_stmt-Holding (block_stmt b) h =
        up (a_stmt _) (last (pcf_block fn_names b) (pcf_block-Holding b) h)
    pcf_stmt-Holding (break _) h = absurd (s.empty h)
    pcf_stmt-Holding (continue _) h = absurd (s.empty h)

    pcf_maybe_stmt-Holding :
        (t : MaybeStmt) → Hit (pcf_maybe_stmt fn_names t) → Holding (alternative t)
    pcf_maybe_stmt-Holding no_stmt h = absurd (s.empty h)
    pcf_maybe_stmt-Holding (some_stmt s) h =
        up (alternative _) (last (pcf_stmt fn_names s) (pcf_stmt-Holding s) h)

    pcf_operands-Holding : (t : AsmOperands) → Hit (pcf_operands fn_names t) → Holding (operands t)
    pcf_operands-Holding no_operands h = absurd (s.empty h)
    pcf_operands-Holding (operand_then _ e os) h = up (operands _) (
        both (pcf_expr fn_names e) (pcf_operands fn_names os) (pcf_expr-Holding e)
          (last (pcf_operands fn_names os) (pcf_operands-Holding os)) h)

    pcf_lvalue-Holding : (t : LValue) → Hit (pcf_lvalue fn_names t) → Holding (place t)
    pcf_lvalue-Holding (name x) h = absurd (s.empty h)
    pcf_lvalue-Holding (field p _) h =
        up (place _) (last (pcf_lvalue fn_names p) (pcf_lvalue-Holding p) h)
    pcf_lvalue-Holding (at_index p i) h = up (place _) (
        both (pcf_lvalue fn_names p) (pcf_expr fn_names i) (pcf_lvalue-Holding p)
          (last (pcf_expr fn_names i) (pcf_expr-Holding i)) h)
    pcf_lvalue-Holding (at_pointer e) h =
        up (place _) (last (pcf_expr fn_names e) (pcf_expr-Holding e) h)
