-- ===== src/Ast/Tests.antt =====
-- The theorems on places at `buf.len[i]`, and on a nested block.
use beemel.Prelude.{◌↔◌, true, [], ℕ, ◌≡◌, Text, some, codes}
use beemel.Ast.Names.{Ident}
use beemel.Ast.Syntax.{
  LValue, name, field, at_index, ident, Stmt, block_stmt, block, stmt_then, no_stmts, expr, return,
  no_expr,
}
use beemel.Ast.Blocks.{is_direct_terminator, Leaves, is_direct_terminator-Leaves}
use beemel.Ast.Places.{span_of, lvalue_span, to_expr, expr_to_lvalue}
use beemel.Ast.Places.RoundTrip.{Within, expr_to_lvalue-to_expr, to_expr-Within}

abbrev at : ℕ → ℕ → Text → Ident
at start end t = record { name = t; span = record { file = 0; start = start; end = end } }

abbrev place : LValue
place =
    at_index (field (name (at 0 3 (codes "buf"))) (at 4 7 (codes "len")))
      (ident (at 8 9 (codes "i")))

expr_to_lvalue-to_expr_example : expr_to_lvalue (to_expr place) ≡ some place
expr_to_lvalue-to_expr_example = expr_to_lvalue-to_expr place

to_expr-Within_example : Within (span_of (to_expr place)) (lvalue_span place)
to_expr-Within_example = to_expr-Within place

-- `{ x; { return; } }`.
abbrev nested : Stmt
nested = block_stmt (
    block
      (stmt_then (expr (ident (at 0 1 (codes "x")))) (
        stmt_then
          (block_stmt (block (stmt_then (return no_expr) no_stmts) no_expr (at 4 8 []).span))
          no_stmts))
      no_expr (at 0 9 []).span)

is_direct_terminator-Leaves_example : (is_direct_terminator nested ≡ true) ↔ Leaves nested
is_direct_terminator-Leaves_example = is_direct_terminator-Leaves nested
