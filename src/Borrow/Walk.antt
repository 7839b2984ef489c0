-- ===== src/Borrow/Walk.antt =====
-- What every access and every call of a body brings about, the walk of bml-core/src/borrow.rs brings
-- about; and every static that it looks at is a mention in the sense of bml-core/src/ceiling.rs.
use beemel.Prelude.{
  ◌≡◌, Text, Bool, true, false, none, some, List, [], ◌∷◌, ◌++◌, All, All-append, All-split,
  if◌then◌else◌, Bool-cases, inl, inr,
}
use beemel.Ast.Names.{Ident, Span}
use beemel.Ast.Syntax.{
  Arms, AsmOperands, Block, Expr, Exprs, FieldInits, LValue, MaybeExpr, MaybeStmt, Stmt, Stmts,
  arm_then, array_init, array_repeat, asm, assert, assign, assume, at_index, at_pointer, binary,
  bit_new, block, block_expr, block_stmt, bool_literal, break, call, cast, claim, compound_assign,
  continue, enum_variant, expr, expr_then, field, field_access, field_then, float_literal, for,
  group, ident, if_expr, if_stmt, index, int_literal, loop, match_expr, match_stmt, name, no_arms,
  no_expr, no_exprs, no_fields, no_operands, no_stmt, no_stmts, null_literal, operand_then, return,
  ring_new, size_of, some_expr, some_stmt, stmt_then, string_literal, struct_init, unary, var_decl,
  view_new, while,
}
use beemel.Context.{Context}
use beemel.Symbols.{SymbolTable}
use beemel.Borrow.Access.{Report, Diagnostic, accepted, ◌⨟◌, check_name}
use beemel.Ceiling.Scan.{
  mention, scan_arms, scan_block, scan_expr, scan_exprs, scan_fields, scan_lvalue, scan_maybe,
  scan_maybe_stmt, scan_operands, scan_stmt, scan_stmts,
}
use beemel.Borrow.{
  check_arms, check_callee, check_else, check_expr, check_exprs, check_fields, check_fn_body,
  check_lvalue, check_maybe, check_operands, check_stmt, check_stmts,
}

-- No panic, and every diagnostic has the property.
abbrev pub Holds : (Diagnostic → Type 0) → Report → Type 0
Holds Q none = ⊥
Holds Q (some ds) = All Q ds

pub Holds-⨟ : (Q : Diagnostic → Type 0) (r s : Report) → Holds Q r → Holds Q s → Holds Q (r ⨟ s)
unfolding ◌⨟◌
Holds-⨟ Q none s h k = absurd h
Holds-⨟ Q (some ds) none h k = absurd k
Holds-⨟ Q (some ds) (some es) h k = All-append Q ds es h k

module _ (symbols : SymbolTable) (f : Text) (c : Context) (sh : Text → Bool)
    (Q : Diagnostic → Type 0) where
  -- Accesses of the name, wherever they stand.
  abbrev pub Admitted : Text → Type 0
  Admitted n = (s : Span) → Holds Q (check_name symbols f c (record { name = n; span = s }))

  module _ (others : (n : Text) → sh n ≡ false → Admitted n)
      (calls : (x : Ident) → Holds Q (check_callee symbols f c (ident x))) where
    record Walked (xs : List Text) (r : Report) : Type 0 where
      holds : All Admitted xs → Holds Q r

    quiet : {xs : List Text} → Walked xs accepted
    quiet = record { holds = λ h. tt }

    both :
        {xs ys : List Text} {r s : Report} → Walked xs r → Walked ys s → Walked (xs ++ ys) (r ⨟ s)
    both {xs} {ys} {r} {s} a b = record {
      holds = λ h.
          let (left, right) = All-split Admitted xs ys h in
          Holds-⨟ Q r s (a.holds left) (b.holds right);
    }

    callee-Walked : {xs : List Text} (e : Expr) → Walked xs (check_callee symbols f c e)
    unfolding check_callee
    callee-Walked (ident x) = record { holds = λ h. calls x }
    callee-Walked _ = quiet

    name-Walked : (x : Ident) → Walked (mention sh x.name) (check_name symbols f c x)
    unfolding mention
    name-Walked x = elim (Bool-cases (sh x.name)) [
      | inl e ↦ record { holds = λ h. (mentioned e h).0 x.span }
      | inr e ↦ record { holds = λ h. others x.name e x.span }
    ]
      where
        mentioned :
            sh x.name ≡ true
            → All Admitted (if sh x.name then x.name ∷ [] else [])
            → All Admitted (x.name ∷ [])
        mentioned e h = rw e at h

    mutual
      unfolding scan_block check_fn_body

      walk_fn_body : (t : Block) → Walked (scan_block sh t) (check_fn_body symbols f c t)
      walk_fn_body (block stmts trailing _) = both (walk_stmts stmts) (walk_maybe trailing)

      walk_stmts : (t : Stmts) → Walked (scan_stmts sh t) (check_stmts symbols f c t)
      walk_stmts no_stmts = quiet
      walk_stmts (stmt_then s ss) = both (walk_stmt s) (walk_stmts ss)

      walk_stmt : (t : Stmt) → Walked (scan_stmt sh t) (check_stmt symbols f c t)
      walk_stmt (var_decl _ _ _ init) = walk_expr init
      walk_stmt (assign target value) = both (walk_lvalue target) (walk_expr value)
      walk_stmt (compound_assign target _ value _) = both (walk_lvalue target) (walk_expr value)
      walk_stmt (expr e) = walk_expr e
      walk_stmt (if_stmt cond then_block else_branch _) =
          both (both (walk_expr cond) (walk_fn_body then_block)) (walk_else else_branch)
      walk_stmt (loop body) = walk_fn_body body
      walk_stmt (claim x body) = both (name-Walked x) (walk_fn_body body)
      walk_stmt (while cond body) = both (walk_expr cond) (walk_fn_body body)
      walk_stmt (for _ _ start _ end step body) =
          both (both (both (walk_expr start) (walk_expr end)) (walk_maybe step)) (walk_fn_body body)
      walk_stmt (match_stmt scrutinee arms _ _) = both (walk_expr scrutinee) (walk_arms arms)
      walk_stmt (return value) = walk_maybe value
      walk_stmt (asm _ outputs inputs _ _) = both (walk_operands outputs) (walk_operands inputs)
      walk_stmt (assume cond _) = walk_expr cond
      walk_stmt (assert cond _) = walk_expr cond
      walk_stmt (block_stmt b) = walk_fn_body b
      walk_stmt (break _) = quiet
      walk_stmt (continue _) = quiet

      walk_else : (t : MaybeStmt) → Walked (scan_maybe_stmt sh t) (check_else symbols f c t)
      walk_else no_stmt = quiet
      walk_else (some_stmt (block_stmt b)) = walk_fn_body b
      walk_else (some_stmt (if_stmt cond then_block else_branch _)) =
          both (both (walk_expr cond) (walk_fn_body then_block)) (walk_else else_branch)
      walk_else (some_stmt _) = quiet

      walk_operands : (t : AsmOperands) → Walked (scan_operands sh t) (check_operands symbols f c t)
      walk_operands no_operands = quiet
      walk_operands (operand_then _ e os) = both (walk_expr e) (walk_operands os)

      walk_arms : (t : Arms) → Walked (scan_arms sh t) (check_arms symbols f c t)
      walk_arms no_arms = quiet
      walk_arms (arm_then _ body arms) = both (walk_fn_body body) (walk_arms arms)

      walk_lvalue : (t : LValue) → Walked (scan_lvalue sh t) (check_lvalue symbols f c t)
      walk_lvalue (name x) = name-Walked x
      walk_lvalue (field base _) = walk_lvalue base
      walk_lvalue (at_index base i) = both (walk_lvalue base) (walk_expr i)
      walk_lvalue (at_pointer e) = walk_expr e

      walk_expr : (t : Expr) → Walked (scan_expr sh t) (check_expr symbols f c t)
      walk_expr (int_literal _ _ _) = quiet
      walk_expr (float_literal _ _ _) = quiet
      walk_expr (bool_literal _ _) = quiet
      walk_expr (string_literal _ _) = quiet
      walk_expr (null_literal _) = quiet
      walk_expr (enum_variant _ _ _) = quiet
      walk_expr (size_of _ _) = quiet
      walk_expr (ident x) = name-Walked x
      walk_expr (unary _ e) = walk_expr e
      walk_expr (group e) = walk_expr e
      walk_expr (cast e _) = walk_expr e
      walk_expr (field_access e _) = walk_expr e
      walk_expr (binary l _ r) = both (walk_expr l) (walk_expr r)
      walk_expr (index l r) = both (walk_expr l) (walk_expr r)
      walk_expr (call callee args) = both (callee-Walked callee) (walk_exprs args)
      walk_expr (view_new base len stride _ _) =
          both (both (walk_expr base) (walk_maybe len)) (walk_maybe stride)
      walk_expr (ring_new base capacity head len _) =
          both (both (both (walk_expr base) (walk_maybe capacity)) (walk_expr head)) (walk_expr len)
      walk_expr (bit_new base bit_offset len_bits _) =
          both (both (walk_expr base) (walk_maybe bit_offset)) (walk_maybe len_bits)
      walk_expr (array_init elems _) = walk_exprs elems
      walk_expr (array_repeat value count _) = both (walk_expr value) (walk_expr count)
      walk_expr (struct_init _ fields _) = walk_fields fields
      walk_expr (match_expr scrutinee arms _ _) = both (walk_expr scrutinee) (walk_arms arms)
      walk_expr (block_expr b _) = walk_fn_body b
      walk_expr (if_expr cond then_block else_branch _) =
          both (both (walk_expr cond) (walk_fn_body then_block)) (walk_expr else_branch)

      walk_exprs : (t : Exprs) → Walked (scan_exprs sh t) (check_exprs symbols f c t)
      walk_exprs no_exprs = quiet
      walk_exprs (expr_then e es) = both (walk_expr e) (walk_exprs es)

      walk_maybe : (t : MaybeExpr) → Walked (scan_maybe sh t) (check_maybe symbols f c t)
      walk_maybe no_expr = quiet
      walk_maybe (some_expr e) = walk_expr e

      walk_fields : (t : FieldInits) → Walked (scan_fields sh t) (check_fields symbols f c t)
      walk_fields no_fields = quiet
      walk_fields (field_then _ e fs) = both (walk_expr e) (walk_fields fs)

    pub check_fn_body-Holds :
        (t : Block) → All Admitted (scan_block sh t) → Holds Q (check_fn_body symbols f c t)
    check_fn_body-Holds t = (walk_fn_body t).holds
