-- ===== src/ConstFold.antt =====
-- Folding of constant lengths: bml-core/src/constfold.rs. A rewritten tree is `none` where constant
-- evaluation panics.
pub mod Trees
pub mod Items
pub mod Complete
pub mod Tests
use beemel.Prelude.{
  ℕ, zero, suc, ◌^◌, ◌≡◌, Text, Bool, true, false, ◌&&◌, not, Option, none, some, List, [], ◌∷◌,
  map_or, Map, get, insert, ltb, leb, if◌then◌else◌,
}
use beemel.Prelude.Int.{ℤ, pos, negsuc}
use beemel.Ast.Names.{Span, Ident, no_int_suffix}
use beemel.Ast.Syntax.{
  Expr, Exprs, MaybeType, TypeExpr, Types, addr, array, array_init, array_repeat, binary, bits,
  bool_literal, cast, const_ptr, enum_variant, expr_then, float_literal, fn, group, ident,
  int_literal, named, no_exprs, no_type, no_types, null_literal, ptr, ring, size_of, some_type,
  strided_view, type_then, unary, view, void,
}
use beemel.Ast.Items.{
  Item, fn_def, extern_fn_def, static_def, const_def, struct_def, FnDef, ExternFnDef, StaticDef,
  ConstDef, StructDef, Param, StructFieldDef,
}
use beemel.Ast.Places.{span_of}
use beemel.Types.Layout.{◌>>=◌, element_size}
use beemel.Types.Resolve.{resolve_type_expr, type_has_unresolved}
use beemel.ConstEval.Value.{Env, Folded, folded, not_const, panic}
use beemel.ConstEval.Eval.{eval_int}
use beemel.Symbols.{SymbolTable}

-- Safe to write out more than once.
unfoldable pub is_duplicable : Expr → Bool
is_duplicable (int_literal _ _ _) = true
is_duplicable (float_literal _ _ _) = true
is_duplicable (bool_literal _ _) = true
is_duplicable (null_literal _) = true
is_duplicable (ident _) = true
is_duplicable (enum_variant _ _ _) = true
is_duplicable (size_of _ _) = true
is_duplicable (group e) = is_duplicable e
is_duplicable (unary _ e) = is_duplicable e
is_duplicable (cast e _) = is_duplicable e
is_duplicable (binary l _ r) = is_duplicable l && is_duplicable r
is_duplicable _ = false

unfoldable pub is_int_literal : Expr → Bool
is_int_literal (int_literal _ _ _) = true
is_int_literal _ = false

-- `u64::try_from(v)`, and the literal in the place of the expression.
unfoldable pub literal_for : Expr → Folded ℤ → Option Expr
unfolding span_of
literal_for e (folded (pos n)) =
    if ltb n (2 ^ 64) then some (int_literal n no_int_suffix (span_of e)) else some e
literal_for e (folded (negsuc _)) = some e
literal_for e not_const = some e
literal_for e panic = none

unfoldable pub copies : ℕ → Expr → Exprs
copies zero e = no_exprs
copies (suc n) e = expr_then e (copies n e)

abbrev pub max_array_repeat : ℕ
max_array_repeat = 65536

-- `[v; N]`, written out if `N` is constant and not too large.
unfoldable pub expand : Expr → Expr → Span → Folded ℤ → Option Expr
unfolding copies
expand value count span (folded (pos n)) =
    if leb n max_array_repeat
    then some (array_init (copies n value) span)
    else some (array_repeat value count span)
expand value count span (folded (negsuc _)) = some (array_repeat value count span)
expand value count span not_const = some (array_repeat value count span)
expand value count span panic = none

-- Layouts are known behind resolution only.
unfoldable pub sizeof_in : Option SymbolTable → TypeExpr → Option ℤ
unfolding resolve_type_expr type_has_unresolved element_size
sizeof_in none t = none
sizeof_in (some symbols) t =
    let ty = resolve_type_expr symbols.structs symbols.enums t in
    if type_has_unresolved ty then none else some (pos (element_size ty))

-- `enum_variant_discriminant`.
unfoldable pub discriminant_in : Option SymbolTable → Text → Text → Option ℤ
discriminant_in none enum_name variant_name = none
discriminant_in (some symbols) enum_name variant_name =
    map_or (get symbols.enums enum_name) none λ e. get e.1 variant_name

module _ (array_lens : Map ℕ) (symbols : Option SymbolTable) where
  unfoldable pub fold_env : Map ℤ → Env
  unfolding sizeof_in discriminant_in
  fold_env consts = record {
    const_int = get consts;
    const_bool = λ _. none;
    array_len = λ x. map_or (get array_lens x) none λ n. some (pos n);
    sizeof = sizeof_in symbols;
    enum_value = discriminant_in symbols;
  }

  unfoldable pub fold_const_int : Map ℤ → Expr → Folded ℤ
  unfolding eval_int fold_env
  fold_const_int consts e = eval_int (fold_env consts) e

  unfoldable pub fold_length : Map ℤ → Expr → Option Expr
  unfolding is_int_literal literal_for fold_const_int
  fold_length consts e =
      if is_int_literal e then some e else literal_for e (fold_const_int consts e)

  unfoldable mutual
    unfolding fold_length

    pub fold_type : Map ℤ → TypeExpr → Option TypeExpr
    fold_type consts (array t size) = do
      t' ← fold_type consts t
      size' ← fold_length consts size
      some (array t' size')
    fold_type consts (ptr t) = do t' ← fold_type consts t; some (ptr t')
    fold_type consts (const_ptr t) = do t' ← fold_type consts t; some (const_ptr t')
    fold_type consts (view t m) = do t' ← fold_type consts t; some (view t' m)
    fold_type consts (ring t m) = do t' ← fold_type consts t; some (ring t' m)
    fold_type consts (strided_view t m stride) = do
      t' ← fold_type consts t
      stride' ← fold_length consts stride
      some (strided_view t' m stride')
    fold_type consts (fn params ret) = do
      params' ← fold_types consts params
      ret' ← fold_maybe_type consts ret
      some (fn params' ret')
    fold_type consts (named x) = some (named x)
    fold_type consts (void s) = some (void s)
    fold_type consts (bits m) = some (bits m)
    fold_type consts (addr x) = some (addr x)

    pub fold_types : Map ℤ → Types → Option Types
    fold_types consts no_types = some no_types
    fold_types consts (type_then t ts) = do
      t' ← fold_type consts t
      ts' ← fold_types consts ts
      some (type_then t' ts')

    pub fold_maybe_type : Map ℤ → MaybeType → Option MaybeType
    fold_maybe_type consts no_type = some no_type
    fold_maybe_type consts (some_type t) = do t' ← fold_type consts t; some (some_type t')

-- `usize::try_from` on a host of 64 bits.
abbrev as_len : Folded ℤ → Option (Option ℕ)
as_len (folded (pos n)) = some (if ltb n (2 ^ 64) then some n else none)
as_len (folded (negsuc _)) = some none
as_len not_const = some none
as_len panic = none

unfoldable pub type_array_len : Map ℕ → Option SymbolTable → Map ℤ → TypeExpr → Option (Option ℕ)
unfolding fold_const_int
type_array_len array_lens symbols consts (array _ size) =
    as_len (fold_const_int array_lens symbols consts size)
type_array_len array_lens symbols consts _ = some none

abbrev with_len : Map ℕ → Text → Option ℕ → Map ℕ
with_len lens name none = lens
with_len lens name (some n) = insert name n lens

-- The loop over the items, on the lengths found so far.
unfoldable pub array_len_values : Map ℕ → List Item → Map ℤ → Option SymbolTable → Option (Map ℕ)
unfolding type_array_len
array_len_values lens [] consts symbols = some lens
array_len_values lens (const_def c ∷ items) consts symbols = do
  n ← type_array_len lens symbols consts c.ty
  array_len_values (with_len lens c.name.name n) items consts symbols
array_len_values lens (static_def s ∷ items) consts symbols = do
  n ← type_array_len lens symbols consts s.ty
  array_len_values (with_len lens s.name.name n) items consts symbols
array_len_values lens (_ ∷ items) consts symbols = array_len_values lens items consts symbols
