-- ===== src/Ast/Places.antt =====
-- Spans, and the places of bml-core/src/ast.rs: `Expr::span`, `LValue::span`, `LValue::to_expr`,
-- with `expr_to_lvalue` of bml-core/src/parser.rs.
pub mod RoundTrip
use beemel.Prelude.{ℕ, Option, none, some, map_or}
use beemel.Ast.Names.{Span, merge, empty_span, Ident, deref}
use beemel.Ast.Syntax.{
  MatchPattern, variant, int, range, wildcard, Expr, int_literal, float_literal, bool_literal,
  string_literal, null_literal, ident, unary, binary, call, field_access, index, group, cast,
  size_of, view_new, ring_new, bit_new, enum_variant, array_init, array_repeat, struct_init,
  match_expr, block_expr, if_expr, LValue, name, field, at_index, at_pointer, TypeExpr, named, ptr,
  const_ptr, view, ring, strided_view, bits, array, fn, addr, void,
}

unfoldable pub span_of : Expr → Span
unfolding merge
span_of (int_literal _ _ s) = s
span_of (float_literal _ _ s) = s
span_of (bool_literal _ s) = s
span_of (string_literal _ s) = s
span_of (null_literal s) = s
span_of (ident x) = x.span
span_of (unary _ e) = span_of e
span_of (binary l _ r) = merge (span_of l) (span_of r)
span_of (call f _) = span_of f
span_of (field_access e x) = merge (span_of e) x.span
span_of (index e _) = span_of e
span_of (group e) = span_of e
span_of (cast e _) = span_of e
span_of (size_of _ s) = s
span_of (view_new _ _ _ _ s) = s
span_of (ring_new _ _ _ _ s) = s
span_of (bit_new _ _ _ s) = s
span_of (enum_variant _ _ s) = s
span_of (array_init _ s) = s
span_of (array_repeat _ _ s) = s
span_of (struct_init _ _ s) = s
span_of (match_expr _ _ s _) = s
span_of (block_expr _ s) = s
span_of (if_expr _ _ _ s) = s

unfoldable pub lvalue_span : LValue → Span
unfolding span_of merge
lvalue_span (name x) = x.span
lvalue_span (field base x) = merge (lvalue_span base) x.span
lvalue_span (at_index base i) = merge (lvalue_span base) (span_of i)
lvalue_span (at_pointer e) = span_of e

-- `next` is the number that `FileId::new` gives out.
unfoldable pub type_span : ℕ → TypeExpr → Span
type_span next (named x) = x.span
type_span next (ptr t) = type_span next t
type_span next (const_ptr t) = type_span next t
type_span next (view t _) = type_span next t
type_span next (ring t _) = type_span next t
type_span next (strided_view t _ _) = type_span next t
type_span next (bits _) = empty_span next 0
type_span next (array t _) = type_span next t
type_span next (fn _ _) = empty_span next 0
type_span next (addr x) = x.span
type_span next (void s) = s

unfoldable pub pattern_span : MatchPattern → Span
pattern_span (variant x _) = x.span
pattern_span (int _ s) = s
pattern_span (range _ _ s) = s
pattern_span (wildcard s) = s

-- `LValue::to_expr`.
unfoldable pub to_expr : LValue → Expr
to_expr (name x) = ident x
to_expr (field base x) = field_access (to_expr base) x
to_expr (at_index base i) = index (to_expr base) i
to_expr (at_pointer e) = unary deref e

unfoldable pub expr_to_lvalue : Expr → Option LValue
expr_to_lvalue (ident x) = some (name x)
expr_to_lvalue (field_access base x) =
    map_or (expr_to_lvalue base) none λ place. some (field place x)
expr_to_lvalue (index base i) = map_or (expr_to_lvalue base) none λ place. some (at_index place i)
expr_to_lvalue (unary deref e) = some (at_pointer e)
expr_to_lvalue (group e) = expr_to_lvalue e
expr_to_lvalue _ = none
