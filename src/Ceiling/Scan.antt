-- ===== src/Ceiling/Scan.antt =====
-- The walkers of bml-core/src/ceiling.rs: every mention of a name of a set, in a body. The set that
-- they fill is the list of the mentions.
pub mod Occurs
pub mod Walk
pub mod Exact
use beemel.Prelude.{Text, Bool, List, [], ◌∷◌, ◌++◌, if◌then◌else◌}
use beemel.Ast.Syntax.{
  Arms, AsmOperands, Block, Expr, Exprs, FieldInits, LValue, MaybeExpr, MaybeStmt, Stmt, Stmts,
  arm_then, array_init, array_repeat, asm, assert, assign, assume, at_index, at_pointer, binary,
  bit_new, block, block_expr, block_stmt, bool_literal, break, call, cast, claim, compound_assign,
  continue, enum_variant, expr, expr_then, field, field_access, field_then, float_literal, for,
  group, ident, if_expr, if_stmt, index, int_literal, loop, match_expr, match_stmt, name, no_arms,
  no_expr, no_exprs, no_fields, no_operands, no_stmt, no_stmts, null_literal, operand_then, return,
  ring_new, size_of, some_expr, some_stmt, stmt_then, string_literal, struct_init, unary, var_decl,
  view_new, while,
}

unfoldable pub mention : (Text → Bool) → Text → List Text
mention shared t = if shared t then t ∷ [] else []

module _ (shared : Text → Bool) where
  unfoldable mutual
    unfolding mention

    pub scan_block : Block → List Text
    scan_block (block stmts trailing _) = scan_stmts stmts ++ scan_maybe trailing

    pub scan_stmts : Stmts → List Text
    scan_stmts no_stmts = []
    scan_stmts (stmt_then s ss) = scan_stmt s ++ scan_stmts ss

    pub scan_stmt : Stmt → List Text
    scan_stmt (var_decl _ _ _ init) = scan_expr init
    scan_stmt (assign target value) = scan_lvalue target ++ scan_expr value
    scan_stmt (compound_assign target _ value _) = scan_lvalue target ++ scan_expr value
    scan_stmt (expr e) = scan_expr e
    scan_stmt (if_stmt cond then_block else_branch _) =
        scan_expr cond ++ scan_block then_block ++ scan_maybe_stmt else_branch
    scan_stmt (loop body) = scan_block body
    scan_stmt (claim x body) = mention shared x.name ++ scan_block body
    scan_stmt (while cond body) = scan_expr cond ++ scan_block body
    scan_stmt (for _ _ start _ end step body) =
        scan_expr start ++ scan_expr end ++ scan_maybe step ++ scan_block body
    scan_stmt (match_stmt scrutinee arms _ _) = scan_expr scrutinee ++ scan_arms arms
    scan_stmt (return value) = scan_maybe value
    scan_stmt (asm _ outputs inputs _ _) = scan_operands outputs ++ scan_operands inputs
    scan_stmt (assume cond _) = scan_expr cond
    scan_stmt (assert cond _) = scan_expr cond
    scan_stmt (block_stmt b) = scan_block b
    scan_stmt (break _) = []
    scan_stmt (continue _) = []

    pub scan_maybe_stmt : MaybeStmt → List Text
    scan_maybe_stmt no_stmt = []
    scan_maybe_stmt (some_stmt s) = scan_stmt s

    pub scan_operands : AsmOperands → List Text
    scan_operands no_operands = []
    scan_operands (operand_then _ e os) = scan_expr e ++ scan_operands os

    pub scan_arms : Arms → List Text
    scan_arms no_arms = []
    scan_arms (arm_then _ body arms) = scan_block body ++ scan_arms arms

    pub scan_lvalue : LValue → List Text
    scan_lvalue (name x) = mention shared x.name
    scan_lvalue (field base _) = scan_lvalue base
    scan_lvalue (at_index base i) = scan_lvalue base ++ scan_expr i
    scan_lvalue (at_pointer e) = scan_expr e

    pub scan_expr : Expr → List Text
    scan_expr (int_literal _ _ _) = []
    scan_expr (float_literal _ _ _) = []
    scan_expr (bool_literal _ _) = []
    scan_expr (string_literal _ _) = []
    scan_expr (null_literal _) = []
    scan_expr (enum_variant _ _ _) = []
    scan_expr (size_of _ _) = []
    scan_expr (ident x) = mention shared x.name
    scan_expr (unary _ e) = scan_expr e
    scan_expr (group e) = scan_expr e
    scan_expr (cast e _) = scan_expr e
    scan_expr (field_access e _) = scan_expr e
    scan_expr (binary l _ r) = scan_expr l ++ scan_expr r
    scan_expr (index l r) = scan_expr l ++ scan_expr r
    scan_expr (call callee args) = scan_expr callee ++ scan_exprs args
    scan_expr (view_new base len stride _ _) = scan_expr base ++ scan_maybe len ++ scan_maybe stride
    scan_expr (ring_new base capacity head len _) =
        scan_expr base ++ scan_maybe capacity ++ scan_expr head ++ scan_expr len
    scan_expr (bit_new base bit_offset len_bits _) =
        scan_expr base ++ scan_maybe bit_offset ++ scan_maybe len_bits
    scan_expr (array_init elems _) = scan_exprs elems
    scan_expr (array_repeat value count _) = scan_expr value ++ scan_expr count
    scan_expr (struct_init _ fields _) = scan_fields fields
    scan_expr (match_expr scrutinee arms _ _) = scan_expr scrutinee ++ scan_arms arms
    scan_expr (block_expr b _) = scan_block b
    scan_expr (if_expr cond then_block else_branch _) =
        scan_expr cond ++ scan_block then_block ++ scan_expr else_branch

    pub scan_exprs : Exprs → List Text
    scan_exprs no_exprs = []
    scan_exprs (expr_then e es) = scan_expr e ++ scan_exprs es

    pub scan_maybe : MaybeExpr → List Text
    scan_maybe no_expr = []
    scan_maybe (some_expr e) = scan_expr e

    pub scan_fields : FieldInits → List Text
    scan_fields no_fields = []
    scan_fields (field_then _ e fs) = scan_expr e ++ scan_fields fs
