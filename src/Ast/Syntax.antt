-- ===== src/Ast/Syntax.antt =====
-- The trees of bml-core/src/ast.rs: expressions, statements, blocks and types. A struct that one
-- constructor holds is written as the arguments of the constructor, in the order of its fields; a
-- `Vec` and an `Option` of a tree are data types of the block.
use beemel.Prelude.{ℕ, Text, Bool, List}
use beemel.Prelude.Int.{ℤ}
use beemel.Ast.Names.{Span, Ident, FloatSuffix, IntSuffix, UnaryOp, BinaryOp, ForDirection}

pub data MatchPattern : Type 0 where
  variant : Ident → Ident → MatchPattern
  int : ℤ → Span → MatchPattern
  range : ℤ → ℤ → Span → MatchPattern
  wildcard : Span → MatchPattern

-- A float literal is kept as its bit pattern.
mutual
  pub data Expr : Type 0 where
    int_literal : ℕ → IntSuffix → Span → Expr
    float_literal : ℕ → FloatSuffix → Span → Expr
    bool_literal : Bool → Span → Expr
    string_literal : Text → Span → Expr
    null_literal : Span → Expr
    ident : Ident → Expr
    unary : UnaryOp → Expr → Expr
    binary : Expr → BinaryOp → Expr → Expr
    call : Expr → Exprs → Expr
    field_access : Expr → Ident → Expr
    index : Expr → Expr → Expr
    group : Expr → Expr
    cast : Expr → TypeExpr → Expr
    size_of : TypeExpr → Span → Expr
    view_new : (base : Expr) (len stride : MaybeExpr) (reclaim : Bool) → Span → Expr
    ring_new : (base : Expr) (capacity : MaybeExpr) (head len : Expr) → Span → Expr
    bit_new : (base : Expr) (bit_offset len_bits : MaybeExpr) → Span → Expr
    enum_variant : (enum_name variant_name : Ident) → Span → Expr
    array_init : Exprs → Span → Expr
    array_repeat : Expr → Expr → Span → Expr
    struct_init : Ident → FieldInits → Span → Expr
    match_expr : (scrutinee : Expr) → Arms → Span → (comptime : Bool) → Expr
    block_expr : Block → Span → Expr
    if_expr : (cond : Expr) (then_block : Block) (else_branch : Expr) → Span → Expr

  pub data Exprs : Type 0 where
    no_exprs : Exprs
    expr_then : Expr → Exprs → Exprs

  pub data MaybeExpr : Type 0 where
    no_expr : MaybeExpr
    some_expr : Expr → MaybeExpr

  pub data FieldInits : Type 0 where
    no_fields : FieldInits
    field_then : Ident → Expr → FieldInits → FieldInits

  pub data Arms : Type 0 where
    no_arms : Arms
    arm_then : List MatchPattern → Block → Arms → Arms

  pub data Block : Type 0 where
    block : (stmts : Stmts) (trailing : MaybeExpr) → Span → Block

  pub data Stmts : Type 0 where
    no_stmts : Stmts
    stmt_then : Stmt → Stmts → Stmts

  pub data Stmt : Type 0 where
    var_decl : (mutable : Bool) → Ident → MaybeType → (init : Expr) → Stmt
    assign : LValue → Expr → Stmt
    compound_assign : LValue → BinaryOp → Expr → Span → Stmt
    expr : Expr → Stmt
    if_stmt : (cond : Expr) → Block → MaybeStmt → (comptime : Bool) → Stmt
    loop : Block → Stmt
    while : Expr → Block → Stmt
    for :
        Ident
        → TypeExpr
        → (start : Expr) → ForDirection
        → (end : Expr) (step : MaybeExpr) → Block
        → Stmt
    return : MaybeExpr → Stmt
    break : Span → Stmt
    continue : Span → Stmt
    block_stmt : Block → Stmt
    match_stmt : (scrutinee : Expr) → Arms → Span → (comptime : Bool) → Stmt
    asm : Text → (outputs inputs : AsmOperands) → (clobbers : List Text) → Span → Stmt
    assume : Expr → Span → Stmt
    assert : Expr → Span → Stmt
    claim : Ident → Block → Stmt

  pub data MaybeStmt : Type 0 where
    no_stmt : MaybeStmt
    some_stmt : Stmt → MaybeStmt

  pub data AsmOperands : Type 0 where
    no_operands : AsmOperands
    operand_then : (constraint : Text) → Expr → AsmOperands → AsmOperands

  pub data LValue : Type 0 where
    name : Ident → LValue
    field : LValue → Ident → LValue
    at_index : LValue → Expr → LValue
    at_pointer : Expr → LValue

  pub data TypeExpr : Type 0 where
    named : Ident → TypeExpr
    ptr const_ptr : TypeExpr → TypeExpr
    view ring : TypeExpr → (mutable : Bool) → TypeExpr
    strided_view : TypeExpr → (mutable : Bool) → (stride : Expr) → TypeExpr
    bits : (mutable : Bool) → TypeExpr
    array : TypeExpr → Expr → TypeExpr
    fn : Types → MaybeType → TypeExpr
    addr : Ident → TypeExpr
    void : Span → TypeExpr

  pub data Types : Type 0 where
    no_types : Types
    type_then : TypeExpr → Types → Types

  pub data MaybeType : Type 0 where
    no_type : MaybeType
    some_type : TypeExpr → MaybeType
