-- ===== src/Stack/Indirect.antt =====
-- Calls through pointers, for the stack analysis and for context propagation: bml-core/src/stack.rs
-- against `pointer_call_facts` of bml-core/src/ceiling.rs.
use beemel.Prelude.{
  ◌+◌, ◌≡◌, refl, subst, sym, Text, Bool, true, false, ◌||◌, not, is_empty, Option, none, some,
  List, [], ◌∷◌, contains, contains_key, Bool-cases, inl, inr, Elem, Elem-append_left,
  Elem-append_right, or_right,
}
use beemel.Ast.Names.{Ident}
use beemel.Ast.Syntax.{
  Arms, AsmOperands, Block, Expr, Exprs, FieldInits, LValue, MaybeExpr, MaybeStmt, Stmt, Stmts,
  arm_then, array_init, array_repeat, asm, assert, assign, assume, at_index, at_pointer, binary,
  bit_new, block, block_expr, block_stmt, bool_literal, break, call, cast, claim, compound_assign,
  continue, enum_variant, expr, expr_then, field, field_access, field_then, float_literal, for,
  group, ident, if_expr, if_stmt, index, int_literal, loop, match_expr, match_stmt, name, no_arms,
  no_expr, no_exprs, no_fields, no_operands, no_stmt, no_stmts, null_literal, operand_then, return,
  ring_new, size_of, some_expr, some_stmt, stmt_then, string_literal, struct_init, unary, var_decl,
  view_new, while,
}
use beemel.Ast.Items.{Item, fn_def, FnDef}
use beemel.Types.Layout.{◌>>=◌, checked_u32}
use beemel.Symbols.{SymbolTable}
use beemel.Ceiling.Pointers.{
  Facts, callee_facts, pcf_block, pcf_stmts, pcf_stmt, pcf_maybe_stmt, pcf_operands, pcf_arms,
  pcf_lvalue, pcf_expr, pcf_exprs, pcf_maybe, pcf_fields,
}
use beemel.Ceiling.Propagate.{pointer_call_facts, item_facts}
use beemel.Stack.Frame.{
  Contribution, call_of, block_contribution, stmts_contribution, stmt_contribution,
  else_contribution, operands_contribution, arms_contribution, lvalue_contribution,
  expr_contribution, exprs_contribution, maybe_contribution, fields_contribution,
}
use beemel.Stack.Free.{Free, grow-Free, grow_by-Free, framed-Free, two, three, four, swapped}
use beemel.Stack.Info.{FnFrameInfo, retain, sort_names, fixed_overhead, compute_fn_info}

module _ (symbols : SymbolTable) (defined_fns : List Text) where
  abbrev names : Text → Bool
  names = contains_key symbols.functions

  named-Free :
      (x : Ident) (c args : Option Contribution)
      → names x.name ≡ true
      → Free args
      → Free (call_of symbols defined_fns (ident x) c args)
  unfolding Free call_of
  named-Free x c none e h = tt
  named-Free x c (some a) e h = rw (or_right (contains defined_fns x.name) e) h

  call-Free :
      (callee : Expr) (inner : Facts) (c args : Option Contribution) (a : Bool)
      → (a ≡ false → Free args)
      → ((callee_facts names callee inner).indirect || a) ≡ false
      → Free (call_of symbols defined_fns callee c args)
  unfolding callee_facts
  call-Free (ident x) inner c args a p h = elim (Bool-cases (names x.name)) [
    | inl e ↦ named-Free x c args e (p (rw e at h))
    | inr e ↦ let h' : (true || a) ≡ false = (rw e at h) in cc
  ]
  call-Free _ inner c args a p h = cc

  mutual
    unfolding Free pcf_block block_contribution

    free_block :
        (b : Block)
        → (pcf_block names b).indirect ≡ false
        → Free (block_contribution symbols defined_fns b)
    free_block (block stmts trailing _) h = two _ _ (free_stmts stmts) (free_maybe trailing) h

    free_stmts :
        (ss : Stmts)
        → (pcf_stmts names ss).indirect ≡ false
        → Free (stmts_contribution symbols defined_fns ss)
    free_stmts no_stmts h = refl
    free_stmts (stmt_then s ss) h = two _ _ (free_stmt s) (free_stmts ss) h

    free_stmt :
        (s : Stmt)
        → (pcf_stmt names s).indirect ≡ false
        → Free (stmt_contribution symbols defined_fns s)
    free_stmt (var_decl _ _ t init) h = grow-Free _ _ (free_expr init h)
    free_stmt (assign target value) h = swapped _ _ (free_lvalue target) (free_expr value) h
    free_stmt (compound_assign target _ value _) h =
        swapped _ _ (free_lvalue target) (free_expr value) h
    free_stmt (expr e) h = free_expr e h
    free_stmt (if_stmt c b alt _) h = three _ _ _ (free_expr c) (free_block b) (free_else alt) h
    free_stmt (loop b) h = free_block b h
    free_stmt (claim _ b) h = free_block b h
    free_stmt (while c b) h = two _ _ (free_expr c) (free_block b) h
    free_stmt (for _ t start _ end step b) h =
        grow-Free _ _
          (four _ _ _ _ (free_expr start) (free_expr end) (free_maybe step) (free_block b) h)
    free_stmt (match_stmt e arms _ _) h = two _ _ (free_expr e) (free_arms arms) h
    free_stmt (return e) h = free_maybe e h
    free_stmt (asm _ outs ins _ _) h = two _ _ (free_operands outs) (free_operands ins) h
    free_stmt (assume c _) h = free_expr c h
    free_stmt (assert c _) h = free_expr c h
    free_stmt (block_stmt b) h = free_block b h
    free_stmt (break _) h = refl
    free_stmt (continue _) h = refl

    free_else :
        (s : MaybeStmt)
        → (pcf_maybe_stmt names s).indirect ≡ false
        → Free (else_contribution symbols defined_fns s)
    free_else no_stmt h = refl
    free_else (some_stmt (block_stmt b)) h = free_block b h
    free_else (some_stmt (if_stmt c b alt _)) h =
        three _ _ _ (free_expr c) (free_block b) (free_else alt) h
    free_else (some_stmt _) h = refl

    free_operands :
        (os : AsmOperands)
        → (pcf_operands names os).indirect ≡ false
        → Free (operands_contribution symbols defined_fns os)
    free_operands no_operands h = refl
    free_operands (operand_then _ e os) h = two _ _ (free_expr e) (free_operands os) h

    free_arms :
        (arms : Arms)
        → (pcf_arms names arms).indirect ≡ false
        → Free (arms_contribution symbols defined_fns arms)
    free_arms no_arms h = refl
    free_arms (arm_then _ b arms) h = two _ _ (free_block b) (free_arms arms) h

    free_lvalue :
        (p : LValue)
        → (pcf_lvalue names p).indirect ≡ false
        → Free (lvalue_contribution symbols defined_fns p)
    free_lvalue (name x) h = refl
    free_lvalue (field base _) h = free_lvalue base h
    free_lvalue (at_index base i) h = two _ _ (free_lvalue base) (free_expr i) h
    free_lvalue (at_pointer e) h = free_expr e h

    free_expr :
        (e : Expr)
        → (pcf_expr names e).indirect ≡ false
        → Free (expr_contribution symbols defined_fns e)
    free_expr (int_literal _ _ _) h = refl
    free_expr (float_literal _ _ _) h = refl
    free_expr (bool_literal _ _) h = refl
    free_expr (string_literal _ _) h = refl
    free_expr (null_literal _) h = refl
    free_expr (enum_variant _ _ _) h = refl
    free_expr (size_of _ _) h = refl
    free_expr (ident x) h = refl
    free_expr (unary _ e) h = free_expr e h
    free_expr (group e) h = free_expr e h
    free_expr (cast e _) h = free_expr e h
    free_expr (field_access e _) h = free_expr e h
    free_expr (binary l _ r) h = two _ _ (free_expr l) (free_expr r) h
    free_expr (index l r) h = two _ _ (free_expr l) (free_expr r) h
    free_expr (call callee args) h =
        call-Free callee (pcf_expr names callee) _ _ _ (free_exprs args) h
    free_expr (view_new base len stride _ _) h =
        three _ _ _ (free_expr base) (free_maybe len) (free_maybe stride) h
    free_expr (ring_new base capacity head len _) h =
        four _ _ _ _ (free_expr base) (free_maybe capacity) (free_expr head) (free_expr len) h
    free_expr (bit_new base offset len _) h =
        three _ _ _ (free_expr base) (free_maybe offset) (free_maybe len) h
    free_expr (array_init es _) h = grow_by-Free _ _ (free_exprs es h)
    free_expr (array_repeat value count _) h = two _ _ (free_expr value) (free_expr count) h
    free_expr (struct_init x fields _) h = framed-Free _ _ (free_fields fields h)
    free_expr (match_expr e arms _ _) h = two _ _ (free_expr e) (free_arms arms) h
    free_expr (block_expr b _) h = free_block b h
    free_expr (if_expr c b e _) h = three _ _ _ (free_expr c) (free_block b) (free_expr e) h

    free_exprs :
        (es : Exprs)
        → (pcf_exprs names es).indirect ≡ false
        → Free (exprs_contribution symbols defined_fns es)
    free_exprs no_exprs h = refl
    free_exprs (expr_then e es) h = two _ _ (free_expr e) (free_exprs es) h

    free_maybe :
        (e : MaybeExpr)
        → (pcf_maybe names e).indirect ≡ false
        → Free (maybe_contribution symbols defined_fns e)
    free_maybe no_expr h = refl
    free_maybe (some_expr e) h = free_expr e h

    free_fields :
        (fs : FieldInits)
        → (pcf_fields names fs).indirect ≡ false
        → Free (fields_contribution symbols defined_fns fs)
    free_fields no_fields h = refl
    free_fields (field_then _ e fs) h =
        two _ _ (λ p. framed-Free 0 _ (free_expr e p)) (free_fields fs) h

-- The info, if no sum overflows, has no call through a pointer.
unfoldable IsDirect : Option FnFrameInfo → Type 0
IsDirect none = Unit
IsDirect (some info) = info.has_indirect_calls ≡ false

bind-IsDirect :
    {A : Type 0} (m : Option A) (k : A → Option FnFrameInfo)
    → ((a : A) → IsDirect (k a))
    → IsDirect (m >>= k)
unfolding IsDirect
bind-IsDirect none k h = tt
bind-IsDirect (some a) k h = h a

body-IsDirect :
    (m : Option Contribution) (k : Contribution → Option FnFrameInfo)
    → Free m
    → ((c : Contribution) → c.has_indirect ≡ false → IsDirect (k c))
    → IsDirect (m >>= k)
unfolding Free IsDirect
body-IsDirect none k p h = tt
body-IsDirect (some c) k p h = h c p

some-IsDirect : (info : FnFrameInfo) → info.has_indirect_calls ≡ false → IsDirect (some info)
unfolding IsDirect
some-IsDirect info h = h

module _ (symbols : SymbolTable) (defined_fns : List Text) where
  compute_fn_info-IsDirect :
      (f : FnDef)
      → (pcf_block (contains_key symbols.functions) f.body).indirect ≡ false
      → IsDirect (compute_fn_info symbols defined_fns f)
  unfolding compute_fn_info
  compute_fn_info-IsDirect f h = bind-IsDirect _ _ λ params.
      body-IsDirect (block_contribution symbols defined_fns f.body) _
        (free_block symbols defined_fns f.body h)
        λ body p. bind-IsDirect (checked_u32 (params + body.frame)) _ λ frame.
          let callees =
            retain (λ n. contains defined_fns n || contains_key symbols.functions n)
              (sort_names body.callees) in
          bind-IsDirect
            (fixed_overhead symbols defined_fns (not (is_empty callees) || body.has_indirect) f.isr
              frame)
            _
            λ total.
              some-IsDirect
                (record {
                  frame = total;
                  direct_callees = callees;
                  has_indirect_calls = body.has_indirect;
                })
                p

in_item :
    (names : Text → Bool) (f : FnDef) (i : Item)
    → i ≡ fn_def f
    → (pcf_block names f.body).indirect ≡ true
    → Elem f.name.name (item_facts names i).indirect_callers
unfolding item_facts
in_item names f i e h =
    subst (λ (j : Item). Elem f.name.name (item_facts names j).indirect_callers) (sym e)
      (rw h (inl refl))

in_items :
    (names : Text → Bool) (f : FnDef) (items : List Item)
    → Elem (fn_def f) items
    → (pcf_block names f.body).indirect ≡ true
    → Elem f.name.name (pointer_call_facts items names).indirect_callers
unfolding pointer_call_facts
in_items names f [] e h = absurd e
in_items names f (i ∷ items) (inl e) h = Elem-append_left f.name.name _ _ (in_item names f i e h)
in_items names f (i ∷ items) (inr e) h =
    Elem-append_right f.name.name (item_facts names i).indirect_callers _
      (in_items names f items e h)

-- A function of the program for which the stack analysis records calls through a pointer is one of
-- the indirect callers of context propagation.
pub indirect-Elem :
    (symbols : SymbolTable) (defined_fns : List Text) (items : List Item) (f : FnDef)
    (info : FnFrameInfo)
    → Elem (fn_def f) items
    → compute_fn_info symbols defined_fns f ≡ some info
    → info.has_indirect_calls ≡ true
    → Elem f.name.name (pointer_call_facts items (contains_key symbols.functions)).indirect_callers
unfolding IsDirect
indirect-Elem symbols defined_fns items f info e computed h =
    elim (Bool-cases (pcf_block (contains_key symbols.functions) f.body).indirect) [
      | inl p ↦ in_items (contains_key symbols.functions) f items e p
      | inr p ↦
          let direct : info.has_indirect_calls ≡ false =
            subst IsDirect computed (compute_fn_info-IsDirect symbols defined_fns f p) in
          cc
    ]
