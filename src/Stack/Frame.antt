-- ===== src/Stack/Frame.antt =====
-- What a body adds to a stack frame, and what it calls: the walkers of bml-core/src/stack.rs.
-- A sum of sizes that is no `u32` is `none`: a panic, in a build that checks for it.
use beemel.Prelude.{
  ℕ, ◌+◌, ◌*◌, ◌%◌, ◌^◌, Text, Bool, true, false, ◌||◌, Option, some, List, [], ◌∷◌, ◌++◌, map_or,
  get, contains, contains_key, if◌then◌else◌, ltb,
}
use beemel.Ast.Names.{
  IntSuffix, no_int_suffix, i8, i16, i32, i64, u8, u16, u32, u64, FloatSuffix, no_float_suffix,
  h_suffix, f_suffix, d_suffix,
}
use beemel.Ast.Syntax.{
  Arms, AsmOperands, Block, Expr, Exprs, FieldInits, LValue, MaybeExpr, MaybeStmt, MaybeType, Stmt,
  Stmts, arm_then, array_init, array_repeat, asm, assert, assign, assume, at_index, at_pointer,
  binary, bit_new, block, block_expr, block_stmt, bool_literal, break, call, cast, claim,
  compound_assign, continue, enum_variant, expr, expr_then, field, field_access, field_then,
  float_literal, for, group, ident, if_expr, if_stmt, index, int_literal, loop, match_expr,
  match_stmt, name, no_arms, no_expr, no_exprs, no_fields, no_operands, no_stmt, no_stmts, no_type,
  null_literal, operand_then, return, ring_new, size_of, some_expr, some_stmt, some_type, stmt_then,
  string_literal, struct_init, unary, var_decl, view_new, while,
}
use beemel.Types.Syntax.{
  Ty, i8_type, i16_type, i32_type, i64_type, u8_type, u16_type, u32_type, u64_type, f16_type,
  f32_type, f64_type, b1_type, array_type, ptr_type, struct_type, enum_type,
}
use beemel.Types.Layout.{◌>>=◌, checked_u32, element_size, struct_size}
use beemel.Types.Resolve.{StructInfo, resolve_type_expr}
use beemel.Symbols.{SymbolTable}

pub record Contribution : Type 0 where
  pub frame : ℕ
  pub callees : List Text
  pub has_indirect : Bool

abbrev pub empty : Option Contribution
empty = some (record { frame = 0; callees = []; has_indirect = false })

-- `Contribution::merge`.
infixl 65 ◌⊕◌
unfoldable pub ◌⊕◌ : Option Contribution → Option Contribution → Option Contribution
unfolding checked_u32
a ⊕ b = do
  left ← a
  right ← b
  frame ← checked_u32 (left.frame + right.frame)
  some (record {
    frame = frame;
    callees = left.callees ++ right.callees;
    has_indirect = left.has_indirect || right.has_indirect;
  })

-- A local of this size, and what its initialiser adds.
unfoldable pub grow : ℕ → Option Contribution → Option Contribution
unfolding checked_u32
grow size c = do
  inner ← c
  frame ← checked_u32 (size + inner.frame)
  some (record inner { frame = frame })

unfoldable pub grow_by : Option ℕ → Option Contribution → Option Contribution
unfolding grow
grow_by size c = size >>= λ n. grow n c

-- The frame of a struct literal is the struct's alone.
unfoldable pub framed : ℕ → Option Contribution → Option Contribution
framed size c = c >>= λ inner. some (record inner { frame = size })

unfoldable pub suffix_type : IntSuffix → Ty
suffix_type i8 = i8_type
suffix_type i16 = i16_type
suffix_type i32 = i32_type
suffix_type no_int_suffix = i32_type
suffix_type i64 = i64_type
suffix_type u8 = u8_type
suffix_type u16 = u16_type
suffix_type u32 = u32_type
suffix_type u64 = u64_type

unfoldable pub float_type : FloatSuffix → Ty
float_type h_suffix = f16_type
float_type f_suffix = f32_type
float_type no_float_suffix = f32_type
float_type d_suffix = f64_type

unfoldable pub exprs_length : Exprs → ℕ
exprs_length no_exprs = 0
exprs_length (expr_then _ es) = 1 + exprs_length es

-- The bytes of a text in UTF-8.
unfoldable pub byte_length : Text → ℕ
byte_length [] = 0
byte_length (c ∷ cs) =
    (if ltb c 128 then 1 else (if ltb c 2048 then 2 else (if ltb c 65536 then 3 else 4)))
    + byte_length cs

module _ (symbols : SymbolTable) where
  unfoldable mutual
    unfolding suffix_type float_type byte_length exprs_length

    pub infer_type_from_expr : Expr → Ty
    infer_type_from_expr (int_literal _ suffix _) = suffix_type suffix
    infer_type_from_expr (float_literal _ suffix _) = float_type suffix
    infer_type_from_expr (bool_literal _ _) = b1_type
    infer_type_from_expr (string_literal s _) = array_type u8_type (byte_length s)
    infer_type_from_expr (null_literal _) = ptr_type u8_type
    infer_type_from_expr (struct_init x _ _) =
        map_or (get symbols.structs x.name) u32_type
          λ (info : StructInfo). struct_type x.name info.repr info.fields
    infer_type_from_expr (enum_variant x _ _) =
        map_or (get symbols.enums x.name) u32_type λ e. enum_type x.name e.0 e.1
    infer_type_from_expr (array_init elements _) = infer_array elements
    infer_type_from_expr _ = u32_type

    -- The type of the first element is that of all.
    pub infer_array : Exprs → Ty
    infer_array no_exprs = array_type u8_type 0
    infer_array (expr_then e es) = array_type (infer_type_from_expr e) (1 + exprs_length es)

  unfoldable pub type_of_decl : MaybeType → Expr → Ty
  unfolding infer_type_from_expr resolve_type_expr
  type_of_decl no_type init = infer_type_from_expr init
  type_of_decl (some_type t) init = resolve_type_expr symbols.structs symbols.enums t

  unfoldable pub struct_frame_size : Text → ℕ
  unfolding struct_size
  struct_frame_size t =
      map_or (get symbols.structs t) 4 λ (info : StructInfo). struct_size info.repr info.fields

  -- `elements.len() as u32`, times the size of an element.
  unfoldable pub array_frame : Exprs → Option ℕ
  unfolding infer_type_from_expr element_size exprs_length checked_u32
  array_frame no_exprs = some 0
  array_frame (expr_then e es) =
      checked_u32 ((1 + exprs_length es) % 2 ^ 32 * element_size (infer_type_from_expr e))

module _ (symbols : SymbolTable) (defined_fns : List Text) where
  -- The callee of a call, with what it and the arguments contribute as expressions.
  unfoldable pub call_of : Expr → Option Contribution → Option Contribution → Option Contribution
  unfolding ◌⊕◌
  call_of (ident x) callee args = args >>= λ c.
      if contains defined_fns x.name || contains_key symbols.functions x.name
      then some (record c { callees = c.callees ++ x.name ∷ [] })
      else some (record c { has_indirect = true })
  call_of _ callee args = (args ⊕ callee) >>= λ c. some (record c { has_indirect = true })

  unfoldable mutual
    unfolding ◌⊕◌ grow grow_by framed call_of type_of_decl struct_frame_size array_frame
        element_size resolve_type_expr

    pub block_contribution : Block → Option Contribution
    block_contribution (block stmts trailing _) =
        stmts_contribution stmts ⊕ maybe_contribution trailing

    pub stmts_contribution : Stmts → Option Contribution
    stmts_contribution no_stmts = empty
    stmts_contribution (stmt_then s ss) = stmt_contribution s ⊕ stmts_contribution ss

    pub stmt_contribution : Stmt → Option Contribution
    stmt_contribution (var_decl _ _ ty_ann init) =
        grow (element_size (type_of_decl symbols ty_ann init)) (expr_contribution init)
    stmt_contribution (assign target value) = expr_contribution value ⊕ lvalue_contribution target
    stmt_contribution (compound_assign target _ value _) =
        expr_contribution value ⊕ lvalue_contribution target
    stmt_contribution (expr e) = expr_contribution e
    stmt_contribution (if_stmt cond then_block else_branch _) =
        expr_contribution cond ⊕ block_contribution then_block ⊕ else_contribution else_branch
    stmt_contribution (loop body) = block_contribution body
    stmt_contribution (claim _ body) = block_contribution body
    stmt_contribution (while cond body) = expr_contribution cond ⊕ block_contribution body
    stmt_contribution (for _ ty start _ end step body) =
        grow (element_size (resolve_type_expr symbols.structs symbols.enums ty)) (
          expr_contribution start
          ⊕ expr_contribution end
          ⊕ maybe_contribution step
          ⊕ block_contribution body)
    stmt_contribution (match_stmt scrutinee arms _ _) =
        expr_contribution scrutinee ⊕ arms_contribution arms
    stmt_contribution (return value) = maybe_contribution value
    stmt_contribution (asm _ outputs inputs _ _) =
        operands_contribution outputs ⊕ operands_contribution inputs
    stmt_contribution (assume cond _) = expr_contribution cond
    stmt_contribution (assert cond _) = expr_contribution cond
    stmt_contribution (block_stmt b) = block_contribution b
    stmt_contribution (break _) = empty
    stmt_contribution (continue _) = empty

    -- An `else if` is wrapped in a block of one statement; other statements are not looked into.
    pub else_contribution : MaybeStmt → Option Contribution
    else_contribution no_stmt = empty
    else_contribution (some_stmt (block_stmt b)) = block_contribution b
    else_contribution (some_stmt (if_stmt cond then_block else_branch _)) =
        expr_contribution cond ⊕ block_contribution then_block ⊕ else_contribution else_branch
    else_contribution (some_stmt _) = empty

    pub operands_contribution : AsmOperands → Option Contribution
    operands_contribution no_operands = empty
    operands_contribution (operand_then _ e os) = expr_contribution e ⊕ operands_contribution os

    pub arms_contribution : Arms → Option Contribution
    arms_contribution no_arms = empty
    arms_contribution (arm_then _ body arms) = block_contribution body ⊕ arms_contribution arms

    pub lvalue_contribution : LValue → Option Contribution
    lvalue_contribution (name x) = empty
    lvalue_contribution (field base _) = lvalue_contribution base
    lvalue_contribution (at_index base i) = lvalue_contribution base ⊕ expr_contribution i
    lvalue_contribution (at_pointer e) = expr_contribution e

    pub expr_contribution : Expr → Option Contribution
    expr_contribution (int_literal _ _ _) = empty
    expr_contribution (float_literal _ _ _) = empty
    expr_contribution (bool_literal _ _) = empty
    expr_contribution (string_literal _ _) = empty
    expr_contribution (null_literal _) = empty
    expr_contribution (enum_variant _ _ _) = empty
    expr_contribution (size_of _ _) = empty
    expr_contribution (ident x) = empty
    expr_contribution (unary _ e) = expr_contribution e
    expr_contribution (group e) = expr_contribution e
    expr_contribution (cast e _) = expr_contribution e
    expr_contribution (field_access e _) = expr_contribution e
    expr_contribution (binary l _ r) = expr_contribution l ⊕ expr_contribution r
    expr_contribution (index l r) = expr_contribution l ⊕ expr_contribution r
    expr_contribution (call callee args) =
        call_of callee (expr_contribution callee) (exprs_contribution args)
    expr_contribution (view_new base len stride _ _) =
        expr_contribution base ⊕ maybe_contribution len ⊕ maybe_contribution stride
    expr_contribution (ring_new base capacity head len _) =
        expr_contribution base
        ⊕ maybe_contribution capacity
        ⊕ expr_contribution head
        ⊕ expr_contribution len
    expr_contribution (bit_new base bit_offset len_bits _) =
        expr_contribution base ⊕ maybe_contribution bit_offset ⊕ maybe_contribution len_bits
    expr_contribution (array_init elems _) =
        grow_by (array_frame symbols elems) (exprs_contribution elems)
    expr_contribution (array_repeat value count _) =
        expr_contribution value ⊕ expr_contribution count
    expr_contribution (struct_init x fields _) =
        framed (struct_frame_size symbols x.name) (fields_contribution fields)
    expr_contribution (match_expr scrutinee arms _ _) =
        expr_contribution scrutinee ⊕ arms_contribution arms
    expr_contribution (block_expr b _) = block_contribution b
    expr_contribution (if_expr cond then_block else_branch _) =
        expr_contribution cond ⊕ block_contribution then_block ⊕ expr_contribution else_branch

    pub exprs_contribution : Exprs → Option Contribution
    exprs_contribution no_exprs = empty
    exprs_contribution (expr_then e es) = expr_contribution e ⊕ exprs_contribution es

    pub maybe_contribution : MaybeExpr → Option Contribution
    maybe_contribution no_expr = empty
    maybe_contribution (some_expr e) = expr_contribution e

    pub fields_contribution : FieldInits → Option Contribution
    fields_contribution no_fields = empty
    fields_contribution (field_then _ e fs) =
        framed 0 (expr_contribution e) ⊕ fields_contribution fs
