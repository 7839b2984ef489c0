-- ===== src/Ceiling/Tests.antt =====
-- The derived ceiling of a static that an ISR and a thread function share.
use beemel.Prelude.{contains, ◌↔◌, All, Elem, ◌≡◌, refl, Text, false, none, List, [], ◌∷◌, codes}
use beemel.Ast.Names.{Ident}
use beemel.Ast.Syntax.{ident, block, no_stmts, some_expr, named}
use beemel.Ast.Items.{Item, fn_def, static_def, FnDef, shared, any_context}
use beemel.Context.{Contexts, thread, isr, any}
use beemel.Ceiling.{shared_statics, derive_shared_ceilings}
use beemel.Ceiling.Scan.{scan_block}
use beemel.Ceiling.Pointers.Inside.{a_block}
use beemel.Ceiling.Scan.Occurs.{Mentions}
use beemel.Ceiling.Scan.Exact.{scan_block-Mentions}
use beemel.Ceiling.Access.{Admits, derive_shared_ceilings-Admits}
use beemel.Ceiling.Names.{names, IsShared}
use beemel.Ceiling.Exact.{HasSource, derive_shared_ceilings-HasSource}

abbrev called : Text → Ident
called t = record { name = t; span = record { file = 0; start = 0; end = 1 } }

abbrev reader : Text → FnDef
reader t = record {
  exported = false;
  name = called t;
  params = [];
  ret = none;
  context = any_context;
  isr = none;
  naked = false;
  section = none;
  body = block no_stmts (some_expr (ident (called (codes "ticks")))) (called t).span;
}

abbrev ticks : Item
ticks = static_def (record {
  exported = false;
  name = called (codes "ticks");
  ty = named (called (codes "u32"));
  storage = shared none ∷ [];
  region = none;
  init = none;
})

abbrev program : List Item
program = fn_def (reader (codes "main")) ∷ ticks ∷ fn_def (reader (codes "tick")) ∷ []

abbrev possible : Contexts
possible = (codes "main", thread ∷ []) ∷ (codes "tick", any ∷ isr 3 ∷ isr 5 ∷ []) ∷ []

ticks_ceiling : derive_shared_ceilings program possible ≡ (codes "ticks", 3) ∷ []
unfolding derive_shared_ceilings
ticks_ceiling = refl

derive_shared_ceilings-Admits_example :
    Admits (isr 5) (codes "ticks") (derive_shared_ceilings program possible)
unfolding scan_block shared_statics
derive_shared_ceilings-Admits_example =
    derive_shared_ceilings-Admits possible (fn_def (reader (codes "main")) ∷ ticks ∷ []) []
      (reader (codes "tick")) (any ∷ isr 3 ∷ []) [] (isr 5) (codes "ticks") refl refl

derive_shared_ceilings-HasSource_example :
    ((n : Text) → Elem n (names (derive_shared_ceilings program possible)) ↔ IsShared program n)
    × All (λ e. HasSource program possible e.0 e.1) (derive_shared_ceilings program possible)
derive_shared_ceilings-HasSource_example = derive_shared_ceilings-HasSource program possible

scan_block-Mentions_example :
    Elem
      (codes "ticks")
      (scan_block (contains (shared_statics program)) (reader (codes "tick")).body)
    ↔ Mentions
        (contains (shared_statics program))
        (codes "ticks")
        (a_block (reader (codes "tick")).body)
scan_block-Mentions_example =
    scan_block-Mentions (contains (shared_statics program)) (codes "ticks")
      (reader (codes "tick")).body
