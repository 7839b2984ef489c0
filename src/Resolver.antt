-- ===== src/Resolver.antt =====
-- The ceilings that name resolution gives to shared statics: the part of `Resolver::resolve` in
-- bml-core/src/resolver.rs between the collection of names and the resolution of types.
use beemel.Prelude.{Text, Option, none, some, List, [], ◌∷◌, map, map_or, Map, get}
use beemel.Context.{Contexts, thread, level}
use beemel.Ast.Items.{Item, StorageAnnotation, shared}
use beemel.Symbols.{StaticSymbol, SymbolTable}
use beemel.Ceiling.{Ceilings, derive_shared_ceilings}
use beemel.Ceiling.Propagate.{propagate_contexts}

-- `if let StorageAnnotation::Shared(ceiling @ None) = ann`.
unfoldable pub set_ceiling : Ceilings → Text → StorageAnnotation → StorageAnnotation
unfolding level
set_ceiling derived name (shared none) =
    shared (some (map_or (get derived name) (level thread) λ ceiling. ceiling))
set_ceiling derived name ann = ann

unfoldable pub set_ceilings : Ceilings → Map StaticSymbol → Map StaticSymbol
unfolding set_ceiling
set_ceilings derived [] = []
set_ceilings derived ((name, sym) ∷ statics) =
    (name, record sym { storage = map (set_ceiling derived name) sym.storage })
    ∷ set_ceilings derived statics

unfoldable pub assign_ceilings : List Item → SymbolTable → Option SymbolTable
unfolding propagate_contexts derive_shared_ceilings set_ceilings
assign_ceilings items table =
    map_or (propagate_contexts items table.functions) none λ (possible : Contexts).
      some (record table {
        fn_possible_contexts = possible;
        statics = set_ceilings (derive_shared_ceilings items possible) table.statics;
      })
