-- ===== src/Stack/Depth.antt =====
-- Depths over the call graph: `propagate_depth`, `find_roots` and `analyze` of
-- bml-core/src/stack.rs. A loop over a hash map or set takes its members in the order of the list.
use beemel.Prelude.{
  ℕ, zero, suc, ◌+◌, Text, not, List, [], ◌∷◌, ◌++◌, map_or, Map, get, insert, contains, length,
  ltb, text_eq, codes, if◌then◌else◌,
}
use beemel.Ast.Items.{Item, fn_def, Program, IsrAnnotation}
use beemel.Symbols.{SymbolTable}
use beemel.Stack.Run.{Run, out_of_fuel, ◌>>=◌, u32_of, checked, ok}
use beemel.Stack.Info.{FnFrameInfo, retain, build_defined_fn_set, collect_infos}

pub record StackEntry : Type 0 where
  pub frame : ℕ
  pub callees : List Text
  pub max_depth : ℕ

pub data RootKind : Type 0 where
  thread_root : RootKind
  isr_root : ℕ → RootKind

pub record RootInfo : Type 0 where
  pub name : Text
  pub kind : RootKind
  pub total_depth : ℕ

pub record StackReport : Type 0 where
  pub entries : Map StackEntry
  pub roots : List RootInfo

-- The depths of the functions that are done.
abbrev pub Visited : Type 0
Visited = Map ℕ

abbrev pub Visit : Type 0
Visit = Text → Visited → Run (ℕ × Visited)

-- The loops over callees: the greatest depth.
unfoldable pub deepest : Visit → List Text → ℕ → Visited → Run (ℕ × Visited)
deepest visit [] most visited = ok (most, visited)
deepest visit (c ∷ cs) most visited =
    visit c visited >>= λ r. deepest visit cs (if ltb most r.0 then r.0 else most) r.1

unfoldable pub all_callees : List Text → Text → FnFrameInfo → List Text
unfolding retain
all_callees defined_fns name info =
    info.direct_callees
    ++ (if info.has_indirect_calls then retain (λ n. not (text_eq n name)) defined_fns else [])

module _ (infos : Map FnFrameInfo) (defined_fns : List Text) where
  -- What a function with these callees visits, behind the memo and the test for recursion.
  unfoldable pub visit_callees : Visit → Text → FnFrameInfo → Visited → Run (ℕ × Visited)
  unfolding deepest all_callees u32_of insert
  visit_callees visit name info visited = do
    r ← deepest visit (all_callees defined_fns name info) 0 visited
    total ← u32_of (info.frame + r.0)
    ok (total, insert name total r.1)

  -- `in_path` is as it was when a call returns, so it is an argument. The warning of recursion is
  -- output.
  unfoldable pub propagate_depth : ℕ → List Text → Text → Visited → Run (ℕ × Visited)
  unfolding visit_callees
  propagate_depth zero in_path name visited = out_of_fuel
  propagate_depth (suc fuel) in_path name visited =
      map_or (get visited name)
        (map_or (get infos name) (ok (0, visited)) λ (info : FnFrameInfo).
          if contains in_path name
          then ok (info.frame, visited)
          else visit_callees (propagate_depth fuel (name ∷ in_path)) name info visited)
        λ depth. ok (depth, visited)

  unfoldable pub propagate_all : ℕ → Map FnFrameInfo → Visited → Run Visited
  unfolding propagate_depth
  propagate_all fuel [] visited = ok visited
  propagate_all fuel ((name, _) ∷ rest) visited =
      propagate_depth fuel [] name visited >>= λ r. propagate_all fuel rest r.1

unfoldable pub build_entries : Visited → Map FnFrameInfo → Map StackEntry
build_entries visited [] = []
build_entries visited ((name, info) ∷ infos) =
    (
      name,
      record {
        frame = info.frame;
        callees = info.direct_callees;
        max_depth = map_or (get visited name) info.frame λ d. d;
      },
    )
    ∷ build_entries visited infos

unfoldable pub find_roots : List Item → Map StackEntry → List RootInfo
find_roots [] entries = []
find_roots (fn_def f ∷ items) entries =
    let depth = map_or (get entries f.name.name) 0 λ (e : StackEntry). e.max_depth in
    let roots = find_roots items entries in
    map_or f.isr
      (if text_eq f.name.name (codes "main")
        then record { name = f.name.name; kind = thread_root; total_depth = depth } ∷ roots
        else roots)
      λ (a : IsrAnnotation).
        record { name = f.name.name; kind = isr_root a.priority; total_depth = depth } ∷ roots
find_roots (_ ∷ items) entries = find_roots items entries

-- A path of calls without recursion has each function once.
unfoldable pub analyze : Program → SymbolTable → Run StackReport
unfolding build_defined_fn_set collect_infos checked propagate_all build_entries find_roots
analyze program symbols = do
  let defined_fns = build_defined_fn_set program.items
  infos ← checked (collect_infos symbols defined_fns program.items [])
  visited ← propagate_all infos defined_fns (suc (length infos)) infos []
  let entries = build_entries visited infos
  ok (record { entries = entries; roots = find_roots program.items entries })
