-- ===== src/Borrow.antt =====
-- The borrow checker of bml-core/src/borrow.rs: the storage classes of the statics that a body
-- names, and the contexts of the functions that it calls.
pub mod Access
pub mod Permits
pub mod Walk
pub mod Ceilings
pub mod Derived
mod Tests
use beemel.Prelude.{ℕ, Text, Option, none, some, List, [], ◌∷◌, get, map_or}
use beemel.Ast.Names.{Ident}
use beemel.Ast.Items.{Item, FnDef, fn_def, Program}
use beemel.Ast.Syntax.{
  Arms, AsmOperands, Block, Expr, Exprs, FieldInits, LValue, MaybeExpr, MaybeStmt, Stmt, Stmts,
  arm_then, array_init, array_repeat, asm, assert, assign, assume, at_index, at_pointer, binary,
  bit_new, block, block_expr, block_stmt, bool_literal, break, call, cast, claim, compound_assign,
  continue, enum_variant, expr, expr_then, field, field_access, field_then, float_literal, for,
  group, ident, if_expr, if_stmt, index, int_literal, loop, match_expr, match_stmt, name, no_arms,
  no_expr, no_exprs, no_fields, no_operands, no_stmt, no_stmts, null_literal, operand_then, return,
  ring_new, size_of, some_expr, some_stmt, stmt_then, string_literal, struct_init, unary, var_decl,
  view_new, while,
}
use beemel.Context.{Context, thread}
use beemel.Symbols.{FnSymbol, SymbolTable}
use beemel.Borrow.Access.{Report, accepted, ◌⨟◌, check_name, check_context_compat}

module _ (symbols : SymbolTable) (current_fn : Text) (current_ctx : Context) where
  -- The callee of a call is looked at only where it is a name.
  unfoldable pub check_callee : Expr → Report
  unfolding check_context_compat
  check_callee (ident callee) =
      map_or (get symbols.functions callee.name) accepted
        (check_context_compat symbols current_fn current_ctx callee)
  check_callee _ = accepted

  unfoldable mutual
    unfolding ◌⨟◌ check_name check_context_compat check_callee

    pub check_fn_body : Block → Report
    check_fn_body (block stmts trailing _) = check_stmts stmts ⨟ check_maybe trailing

    pub check_stmts : Stmts → Report
    check_stmts no_stmts = accepted
    check_stmts (stmt_then s ss) = check_stmt s ⨟ check_stmts ss

    pub check_stmt : Stmt → Report
    check_stmt (var_decl _ _ _ init) = check_expr init
    check_stmt (assign target value) = check_lvalue target ⨟ check_expr value
    check_stmt (compound_assign target _ value _) = check_lvalue target ⨟ check_expr value
    check_stmt (expr e) = check_expr e
    check_stmt (if_stmt cond then_block else_branch _) =
        check_expr cond ⨟ check_fn_body then_block ⨟ check_else else_branch
    check_stmt (loop body) = check_fn_body body
    check_stmt (claim x body) = check_name symbols current_fn current_ctx x ⨟ check_fn_body body
    check_stmt (while cond body) = check_expr cond ⨟ check_fn_body body
    check_stmt (for _ _ start _ end step body) =
        check_expr start ⨟ check_expr end ⨟ check_maybe step ⨟ check_fn_body body
    check_stmt (match_stmt scrutinee arms _ _) = check_expr scrutinee ⨟ check_arms arms
    check_stmt (return value) = check_maybe value
    check_stmt (asm _ outputs inputs _ _) = check_operands outputs ⨟ check_operands inputs
    check_stmt (assume cond _) = check_expr cond
    check_stmt (assert cond _) = check_expr cond
    check_stmt (block_stmt b) = check_fn_body b
    check_stmt (break _) = accepted
    check_stmt (continue _) = accepted

    -- An `else if` is wrapped in a block of one statement; other statements are not looked into.
    pub check_else : MaybeStmt → Report
    check_else no_stmt = accepted
    check_else (some_stmt (block_stmt b)) = check_fn_body b
    check_else (some_stmt (if_stmt cond then_block else_branch _)) =
        check_expr cond ⨟ check_fn_body then_block ⨟ check_else else_branch
    check_else (some_stmt _) = accepted

    pub check_operands : AsmOperands → Report
    check_operands no_operands = accepted
    check_operands (operand_then _ e os) = check_expr e ⨟ check_operands os

    pub check_arms : Arms → Report
    check_arms no_arms = accepted
    check_arms (arm_then _ body arms) = check_fn_body body ⨟ check_arms arms

    pub check_lvalue : LValue → Report
    check_lvalue (name x) = check_name symbols current_fn current_ctx x
    check_lvalue (field base _) = check_lvalue base
    check_lvalue (at_index base i) = check_lvalue base ⨟ check_expr i
    check_lvalue (at_pointer e) = check_expr e

    pub check_expr : Expr → Report
    check_expr (int_literal _ _ _) = accepted
    check_expr (float_literal _ _ _) = accepted
    check_expr (bool_literal _ _) = accepted
    check_expr (string_literal _ _) = accepted
    check_expr (null_literal _) = accepted
    check_expr (enum_variant _ _ _) = accepted
    check_expr (size_of _ _) = accepted
    check_expr (ident x) = check_name symbols current_fn current_ctx x
    check_expr (unary _ e) = check_expr e
    check_expr (group e) = check_expr e
    check_expr (cast e _) = check_expr e
    check_expr (field_access e _) = check_expr e
    check_expr (binary l _ r) = check_expr l ⨟ check_expr r
    check_expr (index l r) = check_expr l ⨟ check_expr r
    check_expr (call callee args) = check_callee callee ⨟ check_exprs args
    check_expr (view_new base len stride _ _) =
        check_expr base ⨟ check_maybe len ⨟ check_maybe stride
    check_expr (ring_new base capacity head len _) =
        check_expr base ⨟ check_maybe capacity ⨟ check_expr head ⨟ check_expr len
    check_expr (bit_new base bit_offset len_bits _) =
        check_expr base ⨟ check_maybe bit_offset ⨟ check_maybe len_bits
    check_expr (array_init elems _) = check_exprs elems
    check_expr (array_repeat value count _) = check_expr value ⨟ check_expr count
    check_expr (struct_init _ fields _) = check_fields fields
    check_expr (match_expr scrutinee arms _ _) = check_expr scrutinee ⨟ check_arms arms
    check_expr (block_expr b _) = check_fn_body b
    check_expr (if_expr cond then_block else_branch _) =
        check_expr cond ⨟ check_fn_body then_block ⨟ check_expr else_branch

    pub check_exprs : Exprs → Report
    check_exprs no_exprs = accepted
    check_exprs (expr_then e es) = check_expr e ⨟ check_exprs es

    pub check_maybe : MaybeExpr → Report
    check_maybe no_expr = accepted
    check_maybe (some_expr e) = check_expr e

    pub check_fields : FieldInits → Report
    check_fields no_fields = accepted
    check_fields (field_then _ e fs) = check_expr e ⨟ check_fields fs

-- `map_or(Context::Thread, |s| s.context)`.
unfoldable pub context_of : SymbolTable → Text → Context
context_of symbols f = map_or (get symbols.functions f) thread λ (s : FnSymbol). s.context

unfoldable pub check_item : SymbolTable → Item → Report
unfolding check_fn_body context_of
check_item symbols (fn_def f) =
    check_fn_body symbols f.name.name (context_of symbols f.name.name) f.body
check_item symbols _ = accepted

unfoldable pub check_items : SymbolTable → List Item → Report
unfolding check_item ◌⨟◌
check_items symbols [] = accepted
check_items symbols (i ∷ items) = check_item symbols i ⨟ check_items symbols items

-- `BorrowChecker::check`.
unfoldable pub check : Program → SymbolTable → Report
unfolding check_items
check program symbols = check_items symbols program.items
