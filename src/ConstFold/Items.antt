-- ===== src/ConstFold/Items.antt =====
-- Items: `fold_item` of bml-core/src/constfold.rs.
use beemel.Prelude.{ℕ, Option, none, some, List, [], ◌∷◌, Map}
use beemel.Prelude.Int.{ℤ}
use beemel.Ast.Syntax.{Expr, TypeExpr}
use beemel.Ast.Items.{
  Item, fn_def, extern_fn_def, static_def, const_def, struct_def, Param, StructFieldDef,
}
use beemel.Types.Layout.{◌>>=◌}
use beemel.Symbols.{SymbolTable}
use beemel.ConstFold.Trees.{fold_expr, fold_block}
use beemel.ConstFold.{fold_type}

module _ (array_lens : Map ℕ) (symbols : Option SymbolTable) where
  unfoldable pub fold_param : Map ℤ → Param → Option Param
  unfolding fold_type
  fold_param consts p = do
    t' ← fold_type array_lens symbols consts p.ty
    some (record p { ty = t' })

  unfoldable pub fold_params : Map ℤ → List Param → Option (List Param)
  unfolding fold_param
  fold_params consts [] = some []
  fold_params consts (p ∷ ps) = do
    p' ← fold_param consts p
    ps' ← fold_params consts ps
    some (p' ∷ ps')

  unfoldable pub fold_struct_fields : Map ℤ → List StructFieldDef → Option (List StructFieldDef)
  unfolding fold_type
  fold_struct_fields consts [] = some []
  fold_struct_fields consts (f ∷ fs) = do
    t' ← fold_type array_lens symbols consts f.ty
    fs' ← fold_struct_fields consts fs
    some (record f { ty = t' } ∷ fs')

  unfoldable pub fold_ret : Map ℤ → Option TypeExpr → Option (Option TypeExpr)
  unfolding fold_type
  fold_ret consts none = some none
  fold_ret consts (some t) = do t' ← fold_type array_lens symbols consts t; some (some t')

  unfoldable pub fold_init : Map ℤ → Option Expr → Option (Option Expr)
  unfolding fold_expr
  fold_init consts none = some none
  fold_init consts (some e) = do e' ← fold_expr array_lens symbols consts e; some (some e')

  unfoldable pub fold_item : Map ℤ → Item → Option Item
  unfolding fold_type fold_expr fold_block fold_params fold_ret fold_init fold_struct_fields
  fold_item consts (fn_def f) = do
    params' ← fold_params consts f.params
    ret' ← fold_ret consts f.ret
    body' ← fold_block array_lens symbols consts f.body
    some (fn_def (record f { params = params'; ret = ret'; body = body' }))
  fold_item consts (extern_fn_def f) = do
    params' ← fold_params consts f.params
    ret' ← fold_ret consts f.ret
    some (extern_fn_def (record f { params = params'; ret = ret' }))
  fold_item consts (static_def s) = do
    t' ← fold_type array_lens symbols consts s.ty
    init' ← fold_init consts s.init
    some (static_def (record s { ty = t'; init = init' }))
  fold_item consts (const_def c) = do
    t' ← fold_type array_lens symbols consts c.ty
    value' ← fold_expr array_lens symbols consts c.value
    some (const_def (record c { ty = t'; value = value' }))
  fold_item consts (struct_def s) = do
    fields' ← fold_struct_fields consts s.fields
    some (struct_def (record s { fields = fields' }))
  fold_item consts item = some item
