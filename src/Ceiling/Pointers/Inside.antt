-- ===== src/Ceiling/Pointers/Inside.antt =====
-- Where in a body, or in the initialiser of a static, a function's address is taken and a call is
-- made through a pointer: what `pcf_block` and `pcf_expr` of bml-core/src/ceiling.rs look for,
-- told by the direct parts of each tree.
use beemel.Prelude.{Text, Bool, true, false, ◌≡◌, List, [], ◌∷◌, ◌++◌, Elem}
use beemel.Ast.Syntax.{
  Arms, AsmOperands, Block, Expr, Exprs, FieldInits, LValue, MaybeExpr, MaybeStmt, Stmt, Stmts,
  arm_then, array_init, array_repeat, asm, assert, assign, assume, at_index, at_pointer, binary,
  bit_new, block, block_expr, block_stmt, bool_literal, break, call, cast, claim, compound_assign,
  continue, enum_variant, expr, expr_then, field, field_access, field_then, float_literal, for,
  group, ident, if_expr, if_stmt, index, int_literal, loop, match_expr, match_stmt, name, no_arms,
  no_expr, no_exprs, no_fields, no_operands, no_stmt, no_stmts, null_literal, operand_then, return,
  ring_new, size_of, some_expr, some_stmt, stmt_then, string_literal, struct_init, unary, var_decl,
  view_new, while,
}

pub data Node : Type 0 where
  an_expr : Expr → Node
  exprs : Exprs → Node
  maybe : MaybeExpr → Node
  inits : FieldInits → Node
  arms : Arms → Node
  a_block : Block → Node
  stmts : Stmts → Node
  a_stmt : Stmt → Node
  alternative : MaybeStmt → Node
  operands : AsmOperands → Node
  place : LValue → Node

-- The name of a called function is no value, and no part of the call.
unfoldable pub callee_part : Expr → List Node
callee_part (ident x) = []
callee_part e = an_expr e ∷ []

unfoldable pub parts : Node → List Node
unfolding callee_part
parts (an_expr (int_literal _ _ _)) = []
parts (an_expr (float_literal _ _ _)) = []
parts (an_expr (bool_literal _ _)) = []
parts (an_expr (string_literal _ _)) = []
parts (an_expr (null_literal _)) = []
parts (an_expr (enum_variant _ _ _)) = []
parts (an_expr (size_of _ _)) = []
parts (an_expr (ident x)) = []
parts (an_expr (unary _ e)) = an_expr e ∷ []
parts (an_expr (group e)) = an_expr e ∷ []
parts (an_expr (cast e _)) = an_expr e ∷ []
parts (an_expr (field_access e _)) = an_expr e ∷ []
parts (an_expr (binary l _ r)) = an_expr l ∷ an_expr r ∷ []
parts (an_expr (index l r)) = an_expr l ∷ an_expr r ∷ []
parts (an_expr (call callee args)) = callee_part callee ++ exprs args ∷ []
parts (an_expr (view_new base len stride _ _)) = an_expr base ∷ maybe len ∷ maybe stride ∷ []
parts (an_expr (ring_new base capacity head len _)) =
    an_expr base ∷ maybe capacity ∷ an_expr head ∷ an_expr len ∷ []
parts (an_expr (bit_new base offset len _)) = an_expr base ∷ maybe offset ∷ maybe len ∷ []
parts (an_expr (array_init elems _)) = exprs elems ∷ []
parts (an_expr (array_repeat value count _)) = an_expr value ∷ an_expr count ∷ []
parts (an_expr (struct_init _ fields _)) = inits fields ∷ []
parts (an_expr (match_expr e cases _ _)) = an_expr e ∷ arms cases ∷ []
parts (an_expr (block_expr b _)) = a_block b ∷ []
parts (an_expr (if_expr c b e _)) = an_expr c ∷ a_block b ∷ an_expr e ∷ []
parts (exprs no_exprs) = []
parts (exprs (expr_then e es)) = an_expr e ∷ exprs es ∷ []
parts (maybe no_expr) = []
parts (maybe (some_expr e)) = an_expr e ∷ []
parts (inits no_fields) = []
parts (inits (field_then _ e fs)) = an_expr e ∷ inits fs ∷ []
parts (arms no_arms) = []
parts (arms (arm_then _ b more)) = a_block b ∷ arms more ∷ []
parts (a_block (block ss e _)) = stmts ss ∷ maybe e ∷ []
parts (stmts no_stmts) = []
parts (stmts (stmt_then s ss)) = a_stmt s ∷ stmts ss ∷ []
parts (a_stmt (var_decl _ _ _ init)) = an_expr init ∷ []
parts (a_stmt (assign p e)) = place p ∷ an_expr e ∷ []
parts (a_stmt (compound_assign p _ e _)) = place p ∷ an_expr e ∷ []
parts (a_stmt (expr e)) = an_expr e ∷ []
parts (a_stmt (if_stmt c b alt _)) = an_expr c ∷ a_block b ∷ alternative alt ∷ []
parts (a_stmt (loop b)) = a_block b ∷ []
parts (a_stmt (claim _ b)) = a_block b ∷ []
parts (a_stmt (while c b)) = an_expr c ∷ a_block b ∷ []
parts (a_stmt (for _ _ start _ end step b)) =
    an_expr start ∷ an_expr end ∷ maybe step ∷ a_block b ∷ []
parts (a_stmt (match_stmt e cases _ _)) = an_expr e ∷ arms cases ∷ []
parts (a_stmt (return e)) = maybe e ∷ []
parts (a_stmt (asm _ outs ins _ _)) = operands outs ∷ operands ins ∷ []
parts (a_stmt (assume c _)) = an_expr c ∷ []
parts (a_stmt (assert c _)) = an_expr c ∷ []
parts (a_stmt (block_stmt b)) = a_block b ∷ []
parts (a_stmt (break _)) = []
parts (a_stmt (continue _)) = []
parts (alternative no_stmt) = []
parts (alternative (some_stmt s)) = a_stmt s ∷ []
parts (operands no_operands) = []
parts (operands (operand_then _ e os)) = an_expr e ∷ operands os ∷ []
parts (place (name x)) = []
parts (place (field p _)) = place p ∷ []
parts (place (at_index p i)) = place p ∷ an_expr i ∷ []
parts (place (at_pointer e)) = an_expr e ∷ []

-- An expression with the property stands in the tree.
pub data Holds (P : Expr → Type 0) : Node → Type 0 where
  here : (e : Expr) → P e → Holds P (an_expr e)
  below : (n part : Node) → Elem part (parts n) → Holds P part → Holds P n

-- The name of a function as a value.
abbrev pub IsValue : (Text → Bool) → Text → Expr → Type 0
IsValue fn_names f (ident x) = (x.name ≡ f) × (fn_names x.name ≡ true)
IsValue fn_names f _ = ⊥

abbrev pub names_function : (Text → Bool) → Expr → Bool
names_function fn_names (ident x) = fn_names x.name
names_function fn_names _ = false

-- A call of anything but a function by its name.
abbrev pub IsIndirectCall : (Text → Bool) → Expr → Type 0
IsIndirectCall fn_names (call callee _) = names_function fn_names callee ≡ false
IsIndirectCall fn_names _ = ⊥
