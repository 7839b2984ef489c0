-- ===== src/ConstFold/Trees.antt =====
-- The walk over blocks, statements and expressions: `fold_block`, `fold_stmt` and `fold_expr` of
-- bml-core/src/constfold.rs.
use beemel.Prelude.{ℕ, Text, false, Option, none, some, Map, insert, if◌then◌else◌}
use beemel.Prelude.Int.{ℤ}
use beemel.Ast.Names.{Span}
use beemel.Ast.Syntax.{
  Expr, int_literal, float_literal, bool_literal, string_literal, null_literal, ident, unary,
  binary, call, field_access, index, group, cast, size_of, view_new, ring_new, bit_new,
  enum_variant, array_init, array_repeat, struct_init, match_expr, block_expr, if_expr, Exprs,
  no_exprs, expr_then, MaybeExpr, no_expr, some_expr, FieldInits, no_fields, field_then, Arms,
  no_arms, arm_then, Block, block, Stmts, no_stmts, stmt_then, Stmt, var_decl, assign,
  compound_assign, expr, if_stmt, loop, while, for, return, break, continue, block_stmt, match_stmt,
  asm, assume, assert, claim, MaybeStmt, no_stmt, some_stmt,
}
use beemel.Types.Layout.{◌>>=◌}
use beemel.ConstEval.Value.{Folded, folded, not_const, panic}
use beemel.Symbols.{SymbolTable}
use beemel.ConstFold.{
  is_duplicable, expand, fold_const_int, fold_length, fold_type, fold_maybe_type,
}

-- The constants behind a local one.
abbrev learn : Map ℤ → Text → Folded ℤ → Option (Map ℤ)
learn consts x (folded v) = some (insert x v consts)
learn consts x not_const = some consts
learn consts x panic = none

module _ (array_lens : Map ℕ) (symbols : Option SymbolTable) where
  -- An immutable local with a constant initializer is known to the statements behind it.
  unfoldable pub after : Map ℤ → Stmt → Option (Map ℤ)
  unfolding fold_const_int
  after consts (var_decl false x _ init) =
      learn consts x.name (fold_const_int array_lens symbols consts init)
  after consts _ = some consts

  unfoldable pub unroll : Map ℤ → Expr → Expr → Span → Option Expr
  unfolding is_duplicable expand fold_const_int
  unroll consts value count s =
      if is_duplicable value
      then expand value count s (fold_const_int array_lens symbols consts count)
      else some (array_repeat value count s)

  unfoldable mutual
    unfolding unroll fold_length fold_type fold_maybe_type after

    pub fold_expr : Map ℤ → Expr → Option Expr
    fold_expr consts (cast e t) = do
      e' ← fold_expr consts e
      t' ← fold_type array_lens symbols consts t
      some (cast e' t')
    fold_expr consts (size_of t s) = do
      t' ← fold_type array_lens symbols consts t
      some (size_of t' s)
    fold_expr consts (unary op e) = do e' ← fold_expr consts e; some (unary op e')
    fold_expr consts (group e) = do e' ← fold_expr consts e; some (group e')
    fold_expr consts (field_access e x) = do e' ← fold_expr consts e; some (field_access e' x)
    fold_expr consts (binary l op r) = do
      l' ← fold_expr consts l
      r' ← fold_expr consts r
      some (binary l' op r')
    fold_expr consts (index l r) = do
      l' ← fold_expr consts l
      r' ← fold_expr consts r
      some (index l' r')
    fold_expr consts (call f args) = do
      f' ← fold_expr consts f
      args' ← fold_exprs consts args
      some (call f' args')
    fold_expr consts (array_init es s) = do es' ← fold_exprs consts es; some (array_init es' s)
    fold_expr consts (array_repeat value count s) = do
      value' ← fold_expr consts value
      count' ← fold_expr consts count
      unroll consts value' count' s
    fold_expr consts (struct_init x fields s) = do
      fields' ← fold_fields consts fields
      some (struct_init x fields' s)
    fold_expr consts (block_expr b s) = do b' ← fold_block consts b; some (block_expr b' s)
    fold_expr consts (if_expr c b e s) = do
      c' ← fold_expr consts c
      b' ← fold_block consts b
      e' ← fold_expr consts e
      some (if_expr c' b' e' s)
    fold_expr consts (match_expr e arms s comptime) = do
      e' ← fold_expr consts e
      arms' ← fold_arms consts arms
      some (match_expr e' arms' s comptime)
    fold_expr consts (view_new base len stride reclaim s) = do
      base' ← fold_expr consts base
      len' ← fold_maybe consts len
      stride' ← fold_stride consts stride
      some (view_new base' len' stride' reclaim s)
    fold_expr consts (ring_new base capacity head len s) = some (ring_new base capacity head len s)
    fold_expr consts (bit_new base offset len s) = some (bit_new base offset len s)
    fold_expr consts (int_literal n suffix s) = some (int_literal n suffix s)
    fold_expr consts (float_literal n suffix s) = some (float_literal n suffix s)
    fold_expr consts (bool_literal b s) = some (bool_literal b s)
    fold_expr consts (string_literal t s) = some (string_literal t s)
    fold_expr consts (null_literal s) = some (null_literal s)
    fold_expr consts (ident x) = some (ident x)
    fold_expr consts (enum_variant x y s) = some (enum_variant x y s)

    fold_exprs : Map ℤ → Exprs → Option Exprs
    fold_exprs consts no_exprs = some no_exprs
    fold_exprs consts (expr_then e es) = do
      e' ← fold_expr consts e
      es' ← fold_exprs consts es
      some (expr_then e' es')

    fold_maybe : Map ℤ → MaybeExpr → Option MaybeExpr
    fold_maybe consts no_expr = some no_expr
    fold_maybe consts (some_expr e) = do e' ← fold_expr consts e; some (some_expr e')

    fold_stride : Map ℤ → MaybeExpr → Option MaybeExpr
    fold_stride consts no_expr = some no_expr
    fold_stride consts (some_expr e) = do
      e' ← fold_length array_lens symbols consts e
      some (some_expr e')

    fold_fields : Map ℤ → FieldInits → Option FieldInits
    fold_fields consts no_fields = some no_fields
    fold_fields consts (field_then x e fields) = do
      e' ← fold_expr consts e
      fields' ← fold_fields consts fields
      some (field_then x e' fields')

    fold_arms : Map ℤ → Arms → Option Arms
    fold_arms consts no_arms = some no_arms
    fold_arms consts (arm_then patterns b arms) = do
      b' ← fold_block consts b
      arms' ← fold_arms consts arms
      some (arm_then patterns b' arms')

    pub fold_block : Map ℤ → Block → Option Block
    fold_block consts (block stmts trailing s) = do
      inside ← fold_stmts consts stmts
      trailing' ← fold_maybe inside.1 trailing
      some (block inside.0 trailing' s)

    -- The loop of `fold_block`, with the constants known behind it.
    fold_stmts : Map ℤ → Stmts → Option (Stmts × Map ℤ)
    fold_stmts consts no_stmts = some (no_stmts, consts)
    fold_stmts consts (stmt_then stmt stmts) = do
      stmt' ← fold_stmt consts stmt
      known ← after consts stmt'
      rest ← fold_stmts known stmts
      some (stmt_then stmt' rest.0, rest.1)

    pub fold_stmt : Map ℤ → Stmt → Option Stmt
    fold_stmt consts (var_decl mutable x t init) = do
      t' ← fold_maybe_type array_lens symbols consts t
      init' ← fold_expr consts init
      some (var_decl mutable x t' init')
    fold_stmt consts (assign place e) = do e' ← fold_expr consts e; some (assign place e')
    fold_stmt consts (compound_assign place op e s) = do
      e' ← fold_expr consts e
      some (compound_assign place op e' s)
    fold_stmt consts (expr e) = do e' ← fold_expr consts e; some (expr e')
    fold_stmt consts (if_stmt c b alt comptime) = do
      c' ← fold_expr consts c
      b' ← fold_block consts b
      alt' ← fold_maybe_stmt consts alt
      some (if_stmt c' b' alt' comptime)
    fold_stmt consts (loop b) = do b' ← fold_block consts b; some (loop b')
    fold_stmt consts (claim x b) = do b' ← fold_block consts b; some (claim x b')
    fold_stmt consts (while c b) = do
      c' ← fold_expr consts c
      b' ← fold_block consts b
      some (while c' b')
    fold_stmt consts (for x t start dir end step b) = do
      t' ← fold_type array_lens symbols consts t
      start' ← fold_expr consts start
      end' ← fold_expr consts end
      step' ← fold_maybe consts step
      b' ← fold_block consts b
      some (for x t' start' dir end' step' b')
    fold_stmt consts (return e) = do e' ← fold_maybe consts e; some (return e')
    fold_stmt consts (block_stmt b) = do b' ← fold_block consts b; some (block_stmt b')
    fold_stmt consts (match_stmt e arms s comptime) = do
      e' ← fold_expr consts e
      arms' ← fold_arms consts arms
      some (match_stmt e' arms' s comptime)
    fold_stmt consts (assume c s) = do c' ← fold_expr consts c; some (assume c' s)
    fold_stmt consts (assert c s) = do c' ← fold_expr consts c; some (assert c' s)
    fold_stmt consts (break s) = some (break s)
    fold_stmt consts (continue s) = some (continue s)
    fold_stmt consts (asm t outputs inputs clobbers s) = some (asm t outputs inputs clobbers s)

    fold_maybe_stmt : Map ℤ → MaybeStmt → Option MaybeStmt
    fold_maybe_stmt consts no_stmt = some no_stmt
    fold_maybe_stmt consts (some_stmt s) = do s' ← fold_stmt consts s; some (some_stmt s')
