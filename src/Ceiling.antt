-- ===== src/Ceiling.antt =====
-- Derived ceilings of shared statics: `derive_shared_ceilings` of bml-core/src/ceiling.rs.
pub mod Scan
pub mod Access
pub mod Names
pub mod Exact
pub mod Pointers
pub mod Propagate
mod Tests
use beemel.Prelude.{
  contains, get, Map, ℕ, Text, Bool, true, false, ◌||◌, Option, none, some, List, [], ◌∷◌, min,
  text_eq, map, map_or, if◌then◌else◌,
}
use beemel.Ast.Items.{Item, fn_def, static_def, FnDef, StorageAnnotation, shared}
use beemel.Context.{Context, Contexts, thread, isr, any, level}
use beemel.Ceiling.Scan.{scan_block}

unfoldable pub any_shared : List StorageAnnotation → Bool
any_shared [] = false
any_shared (shared _ ∷ more) = true
any_shared (_ ∷ more) = any_shared more

unfoldable pub shared_statics : List Item → List Text
unfolding any_shared
shared_statics [] = []
shared_statics (static_def s ∷ items) =
    let later = shared_statics items in if any_shared s.storage then s.name.name ∷ later else later
shared_statics (_ ∷ items) = shared_statics items

-- The ceiling of each static: `HashMap<String, u8>`.
abbrev pub Ceilings : Type 0
Ceilings = Map ℕ

abbrev pub min_option : ℕ → Option ℕ → ℕ
min_option l none = l
min_option l (some k) = min l k

-- The least level of the contexts that are not `Any`.
unfoldable pub min_level : List Context → Option ℕ
unfolding level
min_level [] = none
min_level (any ∷ cs) = min_level cs
min_level (thread ∷ cs) = some (min_option (level thread) (min_level cs))
min_level (isr p ∷ cs) = some (min_option (level (isr p)) (min_level cs))

unfoldable pub lower : Text → ℕ → Ceilings → Ceilings
lower name l [] = []
lower name l ((n, v) ∷ rest) = (n, (if text_eq n name then min v l else v)) ∷ lower name l rest

unfoldable pub lower_all : List Text → ℕ → Ceilings → Ceilings
unfolding lower
lower_all [] l ceilings = ceilings
lower_all (name ∷ names) l ceilings = lower_all names l (lower name l ceilings)

unfoldable pub lower_option : List Text → Option ℕ → Ceilings → Ceilings
unfolding lower_all
lower_option names none ceilings = ceilings
lower_option names (some l) ceilings = lower_all names l ceilings

-- One item of the loop.
unfoldable pub lower_item : List Text → Contexts → Item → Ceilings → Ceilings
unfolding min_level lower_option scan_block
lower_item statics possible (fn_def f) ceilings =
    map_or (get possible f.name.name) ceilings
      λ contexts. lower_option (scan_block (contains statics) f.body) (min_level contexts) ceilings
lower_item statics possible _ ceilings = ceilings

unfoldable pub lower_items : List Text → Contexts → List Item → Ceilings → Ceilings
unfolding lower_item
lower_items statics possible [] ceilings = ceilings
lower_items statics possible (i ∷ items) ceilings =
    lower_items statics possible items (lower_item statics possible i ceilings)

-- `if shared.is_empty() { return ceilings; }` returns what the loop over nothing gives.
unfoldable pub derive_shared_ceilings : List Item → Contexts → Ceilings
unfolding shared_statics lower_items level
derive_shared_ceilings items possible =
    let statics = shared_statics items in
    lower_items statics possible items (map (λ n. (n, level thread)) statics)
