-- ===== src/Stack/Info.antt =====
-- What the stack analysis finds out about each function: `compute_fn_info` of bml-core/src/stack.rs.
use beemel.Prelude.{
  ℕ, ◌+◌, Text, Bool, true, false, ◌&&◌, ◌||◌, not, Option, some, List, [], ◌∷◌, map_or, Map,
  insert, contains, contains_key, is_empty, ltb, ◌==◌, text_eq, if◌then◌else◌,
}
use beemel.Ast.Items.{Item, fn_def, FnDef, Param, IsrAnnotation}
use beemel.Types.Layout.{◌>>=◌, checked_u32, element_size}
use beemel.Types.Resolve.{resolve_type_expr}
use beemel.Symbols.{SymbolTable}
use beemel.Stack.Frame.{block_contribution}

pub record FnFrameInfo : Type 0 where
  pub frame : ℕ
  pub direct_callees : List Text
  pub has_indirect_calls : Bool

unfoldable pub build_defined_fn_set : List Item → List Text
build_defined_fn_set [] = []
build_defined_fn_set (fn_def f ∷ items) = f.name.name ∷ build_defined_fn_set items
build_defined_fn_set (_ ∷ items) = build_defined_fn_set items

-- The order of code points, which is that of their UTF-8 bytes.
unfoldable pub text_before : Text → Text → Bool
text_before [] [] = false
text_before [] (d ∷ t) = true
text_before (c ∷ s) [] = false
text_before (c ∷ s) (d ∷ t) = ltb c d || (c == d) && text_before s t

-- `sort` and `dedup`.
unfoldable pub place_name : Text → List Text → List Text
unfolding text_before
place_name n [] = n ∷ []
place_name n (m ∷ ms) =
    let later = m ∷ place_name n ms in
    if text_eq n m then m ∷ ms else (if text_before n m then n ∷ m ∷ ms else later)

unfoldable pub sort_names : List Text → List Text
unfolding place_name
sort_names [] = []
sort_names (n ∷ ns) = place_name n (sort_names ns)

unfoldable pub retain : (Text → Bool) → List Text → List Text
retain keep [] = []
retain keep (n ∷ ns) = let more = retain keep ns in if keep n then n ∷ more else more

module _ (symbols : SymbolTable) (defined_fns : List Text) where
  unfoldable pub param_frames : ℕ → List Param → Option ℕ
  unfolding resolve_type_expr element_size checked_u32
  param_frames frame [] = some frame
  param_frames frame (p ∷ ps) =
      checked_u32 (frame + element_size (resolve_type_expr symbols.structs symbols.enums p.ty))
      >>= λ sum. param_frames sum ps

  -- The link register, and the frame that the hardware pushes for an exception.
  unfoldable pub fixed_overhead : Bool → Option IsrAnnotation → ℕ → Option ℕ
  unfolding checked_u32
  fixed_overhead has_calls annotation frame = do
    pushed ← if has_calls then checked_u32 (frame + 4) else some frame
    map_or annotation (some pushed) λ _. checked_u32 (pushed + 32)

  unfoldable pub compute_fn_info : FnDef → Option FnFrameInfo
  unfolding param_frames block_contribution sort_names retain fixed_overhead checked_u32
  compute_fn_info f = do
    params ← param_frames 0 f.params
    body ← block_contribution symbols defined_fns f.body
    frame ← checked_u32 (params + body.frame)
    let callees =
        retain (λ n. contains defined_fns n || contains_key symbols.functions n)
          (sort_names body.callees)
    total ← fixed_overhead (not (is_empty callees) || body.has_indirect) f.isr frame
    some
        (record { frame = total; direct_callees = callees; has_indirect_calls = body.has_indirect })

  unfoldable pub collect_infos : List Item → Map FnFrameInfo → Option (Map FnFrameInfo)
  unfolding compute_fn_info insert
  collect_infos [] infos = some infos
  collect_infos (fn_def f ∷ items) infos =
      compute_fn_info f >>= λ info. collect_infos items (insert f.name.name info infos)
  collect_infos (_ ∷ items) infos = collect_infos items infos
