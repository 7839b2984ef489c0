-- ===== src/Borrow/Tests.antt =====
-- A static that a helper names, which an ISR calls.
use beemel.Prelude.{
  ◌≡◌, ◌↔◌, refl, subst, Text, true, false, none, some, [], ◌∷◌, Map, get, All, contains,
  contains_key, text_eq, text_eq_iff, Bool-cases, inl, inr, codes,
}
use beemel.Ast.Names.{Ident}
use beemel.Ast.Syntax.{Block, Expr, ident, call, no_exprs, block, no_stmts, some_expr, named}
use beemel.Ast.Items.{Item, Program, fn_def, static_def, shared, exclusive, any_context}
use beemel.Context.{Context, Contexts, thread, isr, any}
use beemel.Types.Syntax.{u32_type}
use beemel.Symbols.{FnSymbol, StaticSymbol, SymbolTable}
use beemel.Resolver.{assign_ceilings}
use beemel.Ceiling.{any_shared, shared_statics}
use beemel.Ceiling.Propagate.{fn_mentions, pointer_call_facts, propagate_contexts}
use beemel.Ceiling.Propagate.Moves.{runs_in}
use beemel.Ceiling.Propagate.Rounds.{RunsIn}
use beemel.Ceiling.Propagate.Exact.{propagate_contexts-RunsIn}
use beemel.Borrow.{check}
use beemel.Borrow.Access.{accepted, check_static_access}
use beemel.Borrow.Permits.{Permitted, check_static_access-Permitted}
use beemel.Borrow.Walk.{Holds}
use beemel.Borrow.Ceilings.{CeilingHolds, IsBare}
use beemel.Borrow.Derived.{LeavesCeilings, check-CeilingHolds}

abbrev called : Text → Ident
called t = record { name = t; span = record { file = 0; start = 0; end = 1 } }

abbrev body_of : Expr → Block
body_of e = block no_stmts (some_expr e) (called []).span

abbrev function : Text → Expr → Item
function t e = fn_def (record {
  exported = false;
  name = called t;
  params = [];
  ret = none;
  context = any_context;
  isr = none;
  naked = false;
  section = none;
  body = body_of e;
})

abbrev symbol : Context → FnSymbol
symbol c = record {
  context = c;
  params = [];
  comptime = [];
  ret = none;
  isr_label = none;
  naked = false;
  section = none;
  tailchain = false;
  has_calls = false;
  local_frame = 0;
  callees = [];
  max_depth = 0;
}

abbrev program : Program
program = record {
  items =
      function (codes "main") (ident (called (codes "ticks")))
      ∷ function (codes "tick") (call (ident (called (codes "help"))) no_exprs)
      ∷ function (codes "help") (ident (called (codes "ticks")))
      ∷ static_def (record {
        exported = false;
        name = called (codes "ticks");
        ty = named (called (codes "u32"));
        storage = shared none ∷ [];
        region = none;
        init = none;
      })
      ∷ [];
  wrap_spans = [];
}

abbrev ticks : StaticSymbol
ticks = record { ty = u32_type; storage = shared none ∷ [] }

abbrev functions : Map FnSymbol
functions =
    (codes "main", symbol thread) ∷ (codes "tick", symbol (isr 3)) ∷ (codes "help", symbol any) ∷ []

abbrev table : SymbolTable
table = record {
  functions = functions;
  statics = (codes "ticks", ticks) ∷ [];
  structs = [];
  enums = [];
  fn_possible_contexts = [];
}

help_runs_in :
    propagate_contexts program.items functions
    ≡ some
        ((codes "main", thread ∷ []) ∷ (codes "tick", isr 3 ∷ []) ∷ (codes "help", isr 3 ∷ []) ∷ [])
unfolding propagate_contexts
help_runs_in = refl

propagate_contexts-RunsIn_example :
    (p : Contexts) × (propagate_contexts program.items functions ≡ some p)
    × ((f : Text) (c : Context)
        → (runs_in p f c ≡ true)
          ↔ RunsIn functions
              (fn_mentions program.items (contains_key functions))
              (pointer_call_facts program.items (contains_key functions))
              f
              c)
propagate_contexts-RunsIn_example = propagate_contexts-RunsIn program.items functions

found_ticks :
    (n : Text) (s : StaticSymbol) → get table.statics n ≡ some s → (ticks ≡ s) × (codes "ticks" ≡ n)
found_ticks n s h = elim (Bool-cases (text_eq (codes "ticks") n)) [
  | inl e ↦ (same (rw e at h), (text_eq_iff (codes "ticks") n).0 e)
  | inr e ↦ absurd (nowhere (rw e at h))
]
  where
    same : some ticks ≡ some s → ticks ≡ s
    same h = cc

    nowhere : ¬ (none ≡ some s)
    nowhere h = cc

table-LeavesCeilings : LeavesCeilings program.items table
unfolding any_shared shared_statics
table-LeavesCeilings = record {
  bare = λ n s h. subst (λ (t : StaticSymbol). All IsBare t.storage) (found_ticks n s h).0 (tt, tt);
  listed = λ n s h a.
      subst (λ (m : Text). contains (shared_statics program.items) m ≡ true) (found_ticks n s h).1
        refl;
}

check-CeilingHolds_example :
    (t : SymbolTable) × (assign_ceilings program.items table ≡ some t)
    × Holds CeilingHolds (check program t)
check-CeilingHolds_example = check-CeilingHolds program table table-LeavesCeilings

abbrev owned : StaticSymbol
owned = record { ty = u32_type; storage = exclusive (called (codes "main")) ∷ shared (some 3) ∷ [] }

check_static_access-Permitted_example :
    (check_static_access table (codes "main") (isr 2) (called (codes "ticks")) owned ≡ accepted)
    ↔ Permitted table (codes "main") (isr 2) owned
check_static_access-Permitted_example =
    check_static_access-Permitted table (codes "main") (isr 2) (called (codes "ticks")) owned
