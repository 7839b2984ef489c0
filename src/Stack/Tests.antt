-- ===== src/Stack/Tests.antt =====
-- The depth of a function that calls another.
use beemel.Prelude.{
  ℕ, ◌<◌, ◌≡◌, ◌↔◌, ◌≢◌, refl, sym, subst, Text, true, false, none, some, List, [], ◌∷◌, Map, get,
  text_eq, text_eq_iff, Elem, contains_key, if◌then◌else◌, Bool-cases, inl, inr, arith, codes,
}
use beemel.Ast.Names.{Ident, no_int_suffix}
use beemel.Ast.Syntax.{
  Block, ident, call, no_exprs, int_literal, block, no_stmts, stmt_then, var_decl, some_type, named,
  some_expr, no_expr,
}
use beemel.Ast.Items.{Item, FnDef, Program, fn_def, any_context}
use beemel.Symbols.{SymbolTable}
use beemel.Stack.Run.{ok, out_of_fuel, Ensures}
use beemel.Ceiling.Propagate.{pointer_call_facts}
use beemel.Ceiling.Pointers.Exact.{SomeItem, TakesIn, CallsIn, pointer_call_facts-Holds}
use beemel.Stack.Indirect.{indirect-Elem}
use beemel.Stack.Info.{FnFrameInfo, compute_fn_info, build_defined_fn_set, collect_infos}
use beemel.Stack.Depth.{StackEntry, all_callees, analyze, thread_root}
use beemel.Stack.Fuel.{analyze_ends}
use beemel.Stack.Chains.{IsDepth, IsRanked}
use beemel.Stack.Search.{analyze-IsDepth}

abbrev called : Text → Ident
called t = record { name = t; span = record { file = 0; start = 0; end = 1 } }

abbrev function : Text → Block → Item
function t b = fn_def (record {
  exported = false;
  name = called t;
  params = [];
  ret = none;
  context = any_context;
  isr = none;
  naked = false;
  section = none;
  body = b;
})

abbrev program : Program
program = record {
  items =
      function (codes "main") (
        block no_stmts (some_expr (call (ident (called (codes "leaf"))) no_exprs)) (called []).span)
      ∷ function (codes "leaf") (
          block
            (stmt_then
              (var_decl true (called (codes "x")) (some_type (named (called (codes "u64"))))
                (int_literal 1 no_int_suffix (called []).span))
              no_stmts)
            no_expr (called []).span)
      ∷ [];
  wrap_spans = [];
}

abbrev table : SymbolTable
table = record { functions = []; statics = []; structs = []; enums = []; fn_possible_contexts = [] }

abbrev main_info : FnFrameInfo
main_info = record { frame = 4; direct_callees = codes "leaf" ∷ []; has_indirect_calls = false }

abbrev leaf_info : FnFrameInfo
leaf_info = record { frame = 8; direct_callees = []; has_indirect_calls = false }

abbrev infos : Map FnFrameInfo
infos = (codes "main", main_info) ∷ (codes "leaf", leaf_info) ∷ []

infos_collected :
    collect_infos table (build_defined_fn_set program.items) program.items [] ≡ some infos
unfolding collect_infos build_defined_fn_set
infos_collected = refl

abbrev rank : Text → ℕ
rank t = if text_eq t (codes "main") then 1 else 0

abbrev fns : List Text
fns = codes "main" ∷ codes "leaf" ∷ []

main_ranked :
    (i : FnFrameInfo) (c : Text)
    → main_info ≡ i
    → Elem c (all_callees fns (codes "main") i)
    → rank c < 1
unfolding all_callees
main_ranked i c e m =
    below (subst (λ (j : FnFrameInfo). Elem c (all_callees fns (codes "main") j)) (sym e) m)
  where
    below : Elem c (codes "leaf" ∷ []) → rank c < 1
    below (inl q) = subst (λ (x : Text). rank x < 1) q (omega arith)
    below (inr q) = absurd q

leaf_ranked :
    (i : FnFrameInfo) (c : Text) → leaf_info ≡ i → ¬ Elem c (all_callees fns (codes "leaf") i)
unfolding all_callees
leaf_ranked i c e m =
    subst (λ (j : FnFrameInfo). Elem c (all_callees fns (codes "leaf") j)) (sym e) m

infos-IsRanked : IsRanked infos fns rank
infos-IsRanked n info c e m = elim (Bool-cases (text_eq (codes "main") n)) [
  | inl q ↦ subst Ranked ((text_eq_iff (codes "main") n).0 q) at_main info e m
  | inr q ↦ elim (Bool-cases (text_eq (codes "leaf") n)) [
    | inl r ↦ subst Ranked ((text_eq_iff (codes "leaf") n).0 r) at_leaf info e m
    | inr r ↦ absurd (nowhere info (rw (q, r) at e))
  ]
]
  where
    Ranked : Text → Type 0
    Ranked x =
        (i : FnFrameInfo) → get infos x ≡ some i → Elem c (all_callees fns x i) → rank c < rank x

    same : (i j : FnFrameInfo) → some i ≡ some j → i ≡ j
    same i j h = cc

    at_main : Ranked (codes "main")
    at_main i h k = main_ranked i c (same main_info i h) k

    at_leaf : Ranked (codes "leaf")
    at_leaf i h k = absurd (leaf_ranked i c (same leaf_info i h) k)

    nowhere : (i : FnFrameInfo) → ¬ (none ≡ some i)
    nowhere i h = cc

analyze_ends_example : analyze program table ≢ out_of_fuel
analyze_ends_example = analyze_ends program table

analyze-IsDepth_example :
    Ensures
      (λ report.
        (n : Text) (entry : StackEntry)
        → get report.entries n ≡ some entry
        → IsDepth infos (build_defined_fn_set program.items) n entry.max_depth)
      (analyze program table)
analyze-IsDepth_example = analyze-IsDepth program table infos rank infos_collected ranked_there
  where
    ranked_there : IsRanked infos (build_defined_fn_set program.items) rank
    ranked_there = unfold build_defined_fn_set in infos-IsRanked

main_depth :
    analyze program table
    ≡ ok (record {
      entries =
          (codes "main", record { frame = 4; callees = codes "leaf" ∷ []; max_depth = 12 })
          ∷ (codes "leaf", record { frame = 8; callees = []; max_depth = 8 })
          ∷ [];
      roots = record { name = codes "main"; kind = thread_root; total_depth = 12 } ∷ [];
    })
unfolding analyze
main_depth = refl

-- `run` calls a parameter of its own.
abbrev callback : Block
callback = block no_stmts (some_expr (call (ident (called (codes "cb"))) no_exprs)) (called []).span

abbrev run_def : FnDef
run_def = record {
  exported = false;
  name = called (codes "run");
  params = [];
  ret = none;
  context = any_context;
  isr = none;
  naked = false;
  section = none;
  body = callback;
}

abbrev run_info : FnFrameInfo
run_info = record { frame = 4; direct_callees = []; has_indirect_calls = true }

run_computed : compute_fn_info table [] run_def ≡ some run_info
unfolding compute_fn_info
run_computed = refl

indirect-Elem_example :
    Elem
      (codes "run")
      (pointer_call_facts (fn_def run_def ∷ []) (contains_key table.functions)).indirect_callers
indirect-Elem_example =
    indirect-Elem table [] (fn_def run_def ∷ []) run_def run_info (inl refl) run_computed refl

pointer_call_facts-Holds_example :
    (Elem
        (codes "run")
        (pointer_call_facts (fn_def run_def ∷ []) (contains_key table.functions)).address_taken
      ↔ SomeItem (TakesIn (contains_key table.functions) (codes "run")) (fn_def run_def ∷ []))
    × (Elem
          (codes "run")
          (pointer_call_facts (fn_def run_def ∷ []) (contains_key table.functions)).indirect_callers
        ↔ SomeItem (CallsIn (contains_key table.functions) (codes "run")) (fn_def run_def ∷ []))
pointer_call_facts-Holds_example =
    pointer_call_facts-Holds (fn_def run_def ∷ []) (contains_key table.functions) (codes "run")
