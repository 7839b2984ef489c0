-- ===== src/ConstFold/Tests.antt =====
-- The array type `[u8; N]` with `const N = 4`, and a body with a local constant.
use beemel.Prelude.{◌≡◌, refl, Text, true, false, Option, none, some, [], ◌∷◌, Map, codes}
use beemel.Prelude.Int.{ℤ, pos}
use beemel.Ast.Names.{Span, Ident, no_int_suffix}
use beemel.Ast.Syntax.{
  Expr, ident, int_literal, array_init, array_repeat, expr_then, no_exprs, TypeExpr, named, array,
  Block, block, stmt_then, no_stmts, some_expr, var_decl, no_type, ptr,
}
use beemel.ConstFold.{fold_type}
use beemel.ConstFold.Complete.{Settles, fold_type-Settled}
use beemel.ConstFold.Trees.{fold_block}

abbrev place : Span
place = record { file = 0; start = 0; end = 1 }

abbrev called : Text → Ident
called t = record { name = t; span = place }

abbrev four : Expr
four = int_literal 4 no_int_suffix place

abbrev two : Expr
two = int_literal 2 no_int_suffix place

abbrev consts : Map ℤ
consts = (codes "N", pos 4) ∷ []

abbrev buffer : Expr → TypeExpr
buffer size = ptr (array (named (called (codes "u8"))) size)

length_of_const :
    fold_type [] none consts (buffer (ident (called (codes "N")))) ≡ some (buffer four)
unfolding fold_type
length_of_const = refl

-- `{ const M = 2; [M; M] }`.
abbrev body : Expr → Block
body e =
    block (stmt_then (var_decl false (called (codes "M")) no_type two) no_stmts) (some_expr e) place

abbrev m : Expr
m = ident (called (codes "M"))

local_const :
    fold_block [] none [] (body (array_repeat m m place))
    ≡ some (body (array_init (expr_then m (expr_then m no_exprs)) place))
unfolding fold_block beemel.Prelude.insert
local_const = refl

fold_type-Settled_example :
    Settles [] none consts (buffer (ident (called (codes "N")))) (buffer four)
fold_type-Settled_example =
    fold_type-Settled [] none consts (buffer (ident (called (codes "N")))) (buffer four)
      length_of_const
