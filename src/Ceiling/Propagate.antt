-- ===== src/Ceiling/Propagate.antt =====
-- Context propagation: `propagate_contexts`, `fn_mentions` and `pointer_call_facts` of
-- bml-core/src/ceiling.rs. A hash set is a list in which nothing stands twice or a list of names, and
-- a loop over a hash map takes the entries in the order of the list.
pub mod Moves
pub mod Rounds
pub mod Closed
pub mod Settled
pub mod Exact
use beemel.Prelude.{
  ℕ, zero, suc, ◌+◌, ◌*◌, Text, Bool, true, false, ◌||◌, Option, none, some, List, [], ◌∷◌, ◌++◌,
  map, map_or, Map, get, insert, contains_key, is_empty, leb, ◌==◌, length, if◌then◌else◌,
}
use beemel.Ast.Items.{Item, fn_def, static_def, const_def, FnDef}
use beemel.Context.{Context, Contexts, thread, any, isr, level}
use beemel.Symbols.{FnSymbol}
use beemel.Ceiling.Scan.{scan_block}
use beemel.Ceiling.Pointers.{Facts, nothing, ◌⊕◌, pcf_block, pcf_expr}

-- Mentions of each function, by its name.
unfoldable pub fn_mentions_from : (Text → Bool) → List Item → Map (List Text) → Map (List Text)
unfolding scan_block insert
fn_mentions_from names [] out = out
fn_mentions_from names (fn_def f ∷ items) out =
    fn_mentions_from names items (insert f.name.name (scan_block names f.body) out)
fn_mentions_from names (_ ∷ items) out = fn_mentions_from names items out

unfoldable pub fn_mentions : List Item → (Text → Bool) → Map (List Text)
unfolding fn_mentions_from
fn_mentions items names = fn_mentions_from names items []

-- The functions with their address taken, and those with an indirect call.
pub record PointerCalls : Type 0 where
  pub address_taken : List Text
  pub indirect_callers : List Text

-- What an item takes, and who calls indirectly in it.
unfoldable pub item_facts : (Text → Bool) → Item → PointerCalls
unfolding pcf_block pcf_expr
item_facts fn_names (fn_def f) =
    let facts = pcf_block fn_names f.body in
    record {
      address_taken = facts.taken;
      indirect_callers = if facts.indirect then f.name.name ∷ [] else [];
    }
item_facts fn_names (static_def s) = record {
  address_taken = map_or s.init [] λ init. (pcf_expr fn_names init).taken;
  indirect_callers = [];
}
item_facts fn_names (const_def c) = record {
  address_taken = (pcf_expr fn_names c.value).taken;
  indirect_callers = [];
}
item_facts fn_names _ = record { address_taken = []; indirect_callers = [] }

unfoldable pub pointer_call_facts : List Item → (Text → Bool) → PointerCalls
unfolding item_facts
pointer_call_facts [] fn_names = record { address_taken = []; indirect_callers = [] }
pointer_call_facts (i ∷ items) fn_names =
    let facts = item_facts fn_names i in
    let rest = pointer_call_facts items fn_names in
    record {
      address_taken = facts.address_taken ++ rest.address_taken;
      indirect_callers = facts.indirect_callers ++ rest.indirect_callers;
    }

unfoldable pub context_eq : Context → Context → Bool
context_eq thread thread = true
context_eq any any = true
context_eq (isr p) (isr q) = p == q
context_eq _ _ = false

unfoldable pub has : List Context → Context → Bool
unfolding context_eq
has [] c = false
has (d ∷ ds) c = context_eq d c || has ds c

-- The contexts so far, and whether this round has changed them.
abbrev pub Progress : Type 0
Progress = Contexts × Bool

-- `changed |= set.insert(*c)`, on the set of `k`.
unfoldable pub add_context : Text → Context → Progress → Progress
unfolding has insert
add_context k c (possible, changed) =
    map_or (get possible k) (possible, changed)
      λ (set : List Context).
        if has set c then (possible, changed) else (insert k (c ∷ set) possible, true)

unfoldable pub add_contexts : Text → List Context → Progress → Progress
unfolding add_context
add_contexts k [] s = s
add_contexts k (c ∷ cs) s = add_contexts k cs (add_context k c s)

-- The contexts of the functions with an indirect call.
unfoldable pub pool : List Text → Contexts → List Context
pool [] possible = []
pool (caller ∷ callers) possible =
    map_or (get possible caller) [] (λ cs. cs) ++ pool callers possible

-- `if !changed { break; }`; nothing, where the fuel is short.
unfoldable pub unless_changed : Progress → (Contexts → Option Contexts) → Option Contexts
unless_changed (possible, true) again = again possible
unless_changed (possible, false) again = some possible

module _ (functions : Map FnSymbol) where
  -- The body of both inner loops: a function of known context is passed over.
  unfoldable pub spread_to : Text → List Context → Progress → Progress
  unfolding add_contexts context_eq
  spread_to callee cs s =
      map_or (get functions callee) s
        λ (sym : FnSymbol). if context_eq sym.context any then add_contexts callee cs s else s

  unfoldable pub spread : List Text → List Context → Progress → Progress
  unfolding spread_to
  spread [] cs s = s
  spread (callee ∷ callees) cs s = spread callees cs (spread_to callee cs s)

  unfoldable pub follow_edges : Map (List Text) → Progress → Progress
  unfolding spread
  follow_edges [] s = s
  follow_edges ((caller, callees) ∷ edges) s =
      follow_edges edges (map_or (get s.0 caller) s λ cs. spread callees cs s)

  unfoldable pub close_pointers : PointerCalls → Progress → Progress
  unfolding pool spread
  close_pointers calls s =
      let cs = pool calls.indirect_callers s.0 in
      if is_empty cs then s else spread calls.address_taken cs s

  unfoldable pub round : Map (List Text) → PointerCalls → Contexts → Progress
  unfolding follow_edges close_pointers
  round edges calls possible = close_pointers calls (follow_edges edges (possible, false))

  unfoldable pub rounds : Map (List Text) → PointerCalls → ℕ → Contexts → Option Contexts
  unfolding round unless_changed
  rounds edges calls zero possible = none
  rounds edges calls (suc fuel) possible =
      unless_changed (round edges calls possible) (rounds edges calls fuel)

unfoldable pub starts_in : FnSymbol → List Context
unfolding context_eq
starts_in f = if context_eq f.context any then [] else f.context ∷ []

unfoldable pub initial : Map FnSymbol → Contexts
unfolding starts_in
initial [] = []
initial ((name, f) ∷ functions) = (name, starts_in f) ∷ initial functions

-- `sort_by_key(|c| c.level())`.
unfoldable pub place : Context → List Context → List Context
unfolding level
place c [] = c ∷ []
place c (d ∷ ds) = if leb (level c) (level d) then c ∷ d ∷ ds else d ∷ place c ds

unfoldable pub sort : List Context → List Context
unfolding place
sort [] = []
sort (c ∷ cs) = place c (sort cs)

unfoldable pub sort_all : Contexts → Contexts
unfolding sort
sort_all [] = []
sort_all ((n, cs) ∷ possible) = (n, sort cs) ∷ sort_all possible

-- A round that changes something adds a declared context to a function that lacks it.
unfoldable pub enough : Map FnSymbol → ℕ
enough functions = suc (length functions * length functions)

unfoldable pub propagate_contexts : List Item → Map FnSymbol → Option Contexts
unfolding fn_mentions pointer_call_facts rounds initial sort_all enough
propagate_contexts items functions =
    let fn_names = contains_key functions in
    map_or
      (rounds functions (fn_mentions items fn_names) (pointer_call_facts items fn_names)
        (enough functions) (initial functions))
      none λ possible. some (sort_all possible)
