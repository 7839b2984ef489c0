-- ===== src/Ast/Places/RoundTrip.antt =====
-- `LValue::to_expr` of bml-core/src/ast.rs against `expr_to_lvalue` of bml-core/src/parser.rs.
use beemel.Prelude.{◌≤◌, ◌≡◌, refl, some, arith}
use beemel.Ast.Names.{Span, merge}
use beemel.Ast.Syntax.{LValue, name, field, at_index, at_pointer}
use beemel.Ast.Places.{span_of, lvalue_span, to_expr, expr_to_lvalue}

-- A place survives the way through the expression that reads it.
pub expr_to_lvalue-to_expr : (place : LValue) → expr_to_lvalue (to_expr place) ≡ some place
unfolding expr_to_lvalue to_expr
expr_to_lvalue-to_expr (name x) = refl
expr_to_lvalue-to_expr (field base x) = rw (expr_to_lvalue-to_expr base)
expr_to_lvalue-to_expr (at_index base i) = rw (expr_to_lvalue-to_expr base)
expr_to_lvalue-to_expr (at_pointer e) = refl

-- One span within another, in one file.
abbrev pub Within : Span → Span → Type 0
Within s t = (s.file ≡ t.file) × (t.start ≤ s.start) × (s.end ≤ t.end)

merge-Within : (s t r : Span) → Within s t → Within (merge s r) (merge t r)
unfolding merge
merge-Within s t r h = omega arith

Within-merge : (s t r : Span) → Within s t → Within s (merge t r)
unfolding merge
Within-merge s t r h = omega arith

-- The expression that reads a place lies within the span of the place.
pub to_expr-Within : (place : LValue) → Within (span_of (to_expr place)) (lvalue_span place)
unfolding to_expr span_of lvalue_span
to_expr-Within (name x) = omega arith
to_expr-Within (field base x) = merge-Within _ _ x.span (to_expr-Within base)
to_expr-Within (at_index base i) = Within-merge _ _ (span_of i) (to_expr-Within base)
to_expr-Within (at_pointer e) = omega arith
