-- ===== src/Ceiling/Pointers.antt =====
-- The walkers of bml-core/src/ceiling.rs that collect what a body does with function pointers.
pub mod Inside
pub mod Walk
pub mod Lift
pub mod Exact
use beemel.Prelude.{Text, Bool, true, false, ◌||◌, List, [], ◌∷◌, ◌++◌, if◌then◌else◌}
use beemel.Ast.Syntax.{
  Arms, AsmOperands, Block, Expr, Exprs, FieldInits, LValue, MaybeExpr, MaybeStmt, Stmt, Stmts,
  arm_then, array_init, array_repeat, asm, assert, assign, assume, at_index, at_pointer, binary,
  bit_new, block, block_expr, block_stmt, bool_literal, break, call, cast, claim, compound_assign,
  continue, enum_variant, expr, expr_then, field, field_access, field_then, float_literal, for,
  group, ident, if_expr, if_stmt, index, int_literal, loop, match_expr, match_stmt, name, no_arms,
  no_expr, no_exprs, no_fields, no_operands, no_stmt, no_stmts, null_literal, operand_then, return,
  ring_new, size_of, some_expr, some_stmt, stmt_then, string_literal, struct_init, unary, var_decl,
  view_new, while,
}

-- The functions whose address is taken, and whether there is a call that is not a call of a known
-- function by its name: the two arguments that the walkers fill.
pub record Facts : Type 0 where
  pub taken : List Text
  pub indirect : Bool

abbrev pub nothing : Facts
nothing = record { taken = []; indirect = false }

infixr 65 ◌⊕◌
unfoldable pub ◌⊕◌ : Facts → Facts → Facts
f ⊕ g = record { taken = f.taken ++ g.taken; indirect = f.indirect || g.indirect }

-- `Expr::Ident` in value position.
unfoldable pub mentioned : (Text → Bool) → Text → Facts
mentioned fn_names t = record { taken = if fn_names t then t ∷ [] else []; indirect = false }

-- The callee of a call, with the facts of the callee as an expression.
unfoldable pub callee_facts : (Text → Bool) → Expr → Facts → Facts
unfolding ◌⊕◌
callee_facts fn_names (ident x) inner =
    if fn_names x.name then nothing else record { taken = inner.taken; indirect = true }
callee_facts fn_names _ inner = record { taken = inner.taken; indirect = true }

module _ (fn_names : Text → Bool) where
  unfoldable mutual
    unfolding ◌⊕◌ mentioned callee_facts

    pub pcf_block : Block → Facts
    pcf_block (block stmts trailing _) = pcf_stmts stmts ⊕ pcf_maybe trailing

    pub pcf_stmts : Stmts → Facts
    pcf_stmts no_stmts = nothing
    pcf_stmts (stmt_then s ss) = pcf_stmt s ⊕ pcf_stmts ss

    pub pcf_stmt : Stmt → Facts
    pcf_stmt (var_decl _ _ _ init) = pcf_expr init
    pcf_stmt (assign target value) = pcf_lvalue target ⊕ pcf_expr value
    pcf_stmt (compound_assign target _ value _) = pcf_lvalue target ⊕ pcf_expr value
    pcf_stmt (expr e) = pcf_expr e
    pcf_stmt (if_stmt cond then_block else_branch _) =
        pcf_expr cond ⊕ pcf_block then_block ⊕ pcf_maybe_stmt else_branch
    pcf_stmt (loop body) = pcf_block body
    pcf_stmt (claim _ body) = pcf_block body
    pcf_stmt (while cond body) = pcf_expr cond ⊕ pcf_block body
    pcf_stmt (for _ _ start _ end step body) =
        pcf_expr start ⊕ pcf_expr end ⊕ pcf_maybe step ⊕ pcf_block body
    pcf_stmt (match_stmt scrutinee arms _ _) = pcf_expr scrutinee ⊕ pcf_arms arms
    pcf_stmt (return value) = pcf_maybe value
    pcf_stmt (asm _ outputs inputs _ _) = pcf_operands outputs ⊕ pcf_operands inputs
    pcf_stmt (assume cond _) = pcf_expr cond
    pcf_stmt (assert cond _) = pcf_expr cond
    pcf_stmt (block_stmt b) = pcf_block b
    pcf_stmt (break _) = nothing
    pcf_stmt (continue _) = nothing

    pub pcf_maybe_stmt : MaybeStmt → Facts
    pcf_maybe_stmt no_stmt = nothing
    pcf_maybe_stmt (some_stmt s) = pcf_stmt s

    pub pcf_operands : AsmOperands → Facts
    pcf_operands no_operands = nothing
    pcf_operands (operand_then _ e os) = pcf_expr e ⊕ pcf_operands os

    pub pcf_arms : Arms → Facts
    pcf_arms no_arms = nothing
    pcf_arms (arm_then _ body arms) = pcf_block body ⊕ pcf_arms arms

    pub pcf_lvalue : LValue → Facts
    pcf_lvalue (name x) = nothing
    pcf_lvalue (field base _) = pcf_lvalue base
    pcf_lvalue (at_index base i) = pcf_lvalue base ⊕ pcf_expr i
    pcf_lvalue (at_pointer e) = pcf_expr e

    pub pcf_expr : Expr → Facts
    pcf_expr (int_literal _ _ _) = nothing
    pcf_expr (float_literal _ _ _) = nothing
    pcf_expr (bool_literal _ _) = nothing
    pcf_expr (string_literal _ _) = nothing
    pcf_expr (null_literal _) = nothing
    pcf_expr (enum_variant _ _ _) = nothing
    pcf_expr (size_of _ _) = nothing
    pcf_expr (ident x) = mentioned fn_names x.name
    pcf_expr (unary _ e) = pcf_expr e
    pcf_expr (group e) = pcf_expr e
    pcf_expr (cast e _) = pcf_expr e
    pcf_expr (field_access e _) = pcf_expr e
    pcf_expr (binary l _ r) = pcf_expr l ⊕ pcf_expr r
    pcf_expr (index l r) = pcf_expr l ⊕ pcf_expr r
    pcf_expr (call callee args) = callee_facts fn_names callee (pcf_expr callee) ⊕ pcf_exprs args
    pcf_expr (view_new base len stride _ _) = pcf_expr base ⊕ pcf_maybe len ⊕ pcf_maybe stride
    pcf_expr (ring_new base capacity head len _) =
        pcf_expr base ⊕ pcf_maybe capacity ⊕ pcf_expr head ⊕ pcf_expr len
    pcf_expr (bit_new base bit_offset len_bits _) =
        pcf_expr base ⊕ pcf_maybe bit_offset ⊕ pcf_maybe len_bits
    pcf_expr (array_init elems _) = pcf_exprs elems
    pcf_expr (array_repeat value count _) = pcf_expr value ⊕ pcf_expr count
    pcf_expr (struct_init _ fields _) = pcf_fields fields
    pcf_expr (match_expr scrutinee arms _ _) = pcf_expr scrutinee ⊕ pcf_arms arms
    pcf_expr (block_expr b _) = pcf_block b
    pcf_expr (if_expr cond then_block else_branch _) =
        pcf_expr cond ⊕ pcf_block then_block ⊕ pcf_expr else_branch

    pub pcf_exprs : Exprs → Facts
    pcf_exprs no_exprs = nothing
    pcf_exprs (expr_then e es) = pcf_expr e ⊕ pcf_exprs es

    pub pcf_maybe : MaybeExpr → Facts
    pcf_maybe no_expr = nothing
    pcf_maybe (some_expr e) = pcf_expr e

    pub pcf_fields : FieldInits → Facts
    pcf_fields no_fields = nothing
    pcf_fields (field_then _ e fs) = pcf_expr e ⊕ pcf_fields fs
