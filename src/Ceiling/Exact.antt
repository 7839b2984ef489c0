-- ===== src/Ceiling/Exact.antt =====
-- Where the ceilings of `derive_shared_ceilings` of bml-core/src/ceiling.rs come from.
use beemel.Prelude.{
  get, contains, ℕ, ◌≡◌, ◌≢◌, ◌↔◌, refl, sym, subst, Text, Bool, true, false, Option, none, some,
  List, [], ◌∷◌, map, min, leb, text_eq, text_eq_iff, All, Elem, Elem→All, Option-cases, ◌⊎◌, inl,
  inr, arith, if◌then◌else◌, Bool-cases,
}
use beemel.Ast.Items.{Item, fn_def, FnDef}
use beemel.Context.{Contexts, Context, thread, isr, any, level}
use beemel.Ceiling.Scan.{scan_block}
use beemel.Ceiling.{
  shared_statics, Ceilings, min_option, min_level, lower, lower_all, lower_option, lower_item,
  lower_items, derive_shared_ceilings,
}
use beemel.Ceiling.Names.{
  IsShared, Elem-IsShared, IsShared-Elem, names, names-derive_shared_ceilings,
}

-- The context of the list that a level comes from.
record ComesFrom (cs : List Context) (l : ℕ) : Type 0 where
  context : Context
  among : Elem context cs
  concrete : context ≢ any
  at : level context ≡ l

ComesFrom-there : (c : Context) (cs : List Context) (l : ℕ) → ComesFrom cs l → ComesFrom (c ∷ cs) l
ComesFrom-there c cs l h = record {
  context = h.context;
  among = inr h.among;
  concrete = h.concrete;
  at = h.at;
}

min-either : (P : ℕ → Type 0) (a b : ℕ) → P a → P b → P (min a b)
min-either P a b ha hb = elim (Bool-cases (leb a b)) [
  | inl h ↦ subst P (ground arith) ha
  | inr h ↦ subst P (ground arith) hb
]

abbrev IfLevel : (ℕ → Type 0) → Option ℕ → Type 0
IfLevel P none = Unit
IfLevel P (some l) = P l

least_with :
    (c : Context) (cs : List Context) (o : Option ℕ)
    → c ≢ any
    → IfLevel (ComesFrom cs) o
    → ComesFrom (c ∷ cs) (min_option (level c) o)
least_with c cs none n h = record { context = c; among = inl refl; concrete = n; at = refl }
least_with c cs (some l) n h =
    min-either (ComesFrom (c ∷ cs)) (level c) l
      (record { context = c; among = inl refl; concrete = n; at = refl }) (ComesFrom-there c cs l h)

skipped :
    (cs : List Context) (o : Option ℕ) → IfLevel (ComesFrom cs) o → IfLevel (ComesFrom (any ∷ cs)) o
skipped cs none h = tt
skipped cs (some l) h = ComesFrom-there any cs l h

min_level-ComesFrom : (cs : List Context) → IfLevel (ComesFrom cs) (min_level cs)
unfolding min_level
min_level-ComesFrom [] = tt
min_level-ComesFrom (any ∷ cs) = skipped cs (min_level cs) (min_level-ComesFrom cs)
min_level-ComesFrom (thread ∷ cs) =
    least_with thread cs (min_level cs) (λ e. cc) (min_level-ComesFrom cs)
min_level-ComesFrom (isr p ∷ cs) =
    least_with (isr p) cs (min_level cs) (λ e. cc) (min_level-ComesFrom cs)

-- Lowering keeps what holds of each ceiling and of the level it lowers to.
module _ (Q : Text → ℕ → Type 0) where
  abbrev Each : Ceilings → Type 0
  Each cs = All (λ e. Q e.0 e.1) cs

  lowered-Each :
      (n m : Text) (v l : ℕ) (b : Bool)
      → text_eq n m ≡ b
      → Q m l
      → Q n v
      → Q n (if b then min v l else v)
  lowered-Each n m v l true e q h =
      min-either (Q n) v l h (subst (λ t. Q t l) (sym ((text_eq_iff n m).0 e)) q)
  lowered-Each n m v l false e q h = h

  lower-Each : (m : Text) (l : ℕ) (cs : Ceilings) → Q m l → Each cs → Each (lower m l cs)
  unfolding lower
  lower-Each m l [] q h = tt
  lower-Each m l ((n, v) ∷ cs) q h =
      (lowered-Each n m v l (text_eq n m) refl q h.0, lower-Each m l cs q h.1)

  lower_all-Each :
      (ms : List Text) (l : ℕ) (cs : Ceilings)
      → All (λ m. Q m l) ms
      → Each cs
      → Each (lower_all ms l cs)
  unfolding lower_all
  lower_all-Each [] l cs q h = h
  lower_all-Each (m ∷ ms) l cs q h =
      lower_all-Each ms l (lower m l cs) q.1 (lower-Each m l cs q.0 h)

  lower_option-Each :
      (ms : List Text) (o : Option ℕ) (cs : Ceilings)
      → IfLevel (λ l. All (λ m. Q m l) ms) o
      → Each cs
      → Each (lower_option ms o cs)
  unfolding lower_option
  lower_option-Each ms none cs q h = h
  lower_option-Each ms (some l) cs q h = lower_all-Each ms l cs q h

-- A function that mentions the static has a context at this level.
pub record IsFrom (items : List Item) (possible : Contexts) (name : Text) (l : ℕ) : Type 0 where
  by : FnDef
  contexts : List Context
  context : Context
  listed : Elem (fn_def by) items
  runs : get possible by.name.name ≡ some contexts
  among : Elem context contexts
  concrete : context ≢ any
  mentions : Elem name (scan_block (contains (shared_statics items)) by.body)
  at : level context ≡ l

-- The level of thread code, or that of a context of a function that mentions the static.
abbrev pub HasSource : List Item → Contexts → Text → ℕ → Type 0
HasSource items possible name l = (l ≡ level thread) ⊎ IsFrom items possible name l

module _ (items : List Item) (possible : Contexts) where
  abbrev AllSourced : Ceilings → Type 0
  AllSourced cs = All (λ e. HasSource items possible e.0 e.1) cs

  mentions-HasSource :
      (f : FnDef) (contexts : List Context) (o : Option ℕ)
      → Elem (fn_def f) items
      → get possible f.name.name ≡ some contexts
      → IfLevel (ComesFrom contexts) o
      → IfLevel
          (λ l.
            All
              (λ m. HasSource items possible m l)
              (scan_block (contains (shared_statics items)) f.body))
          o
  mentions-HasSource f contexts none e r h = tt
  mentions-HasSource f contexts (some l) e r h =
      Elem→All _ (scan_block (contains (shared_statics items)) f.body) λ m mentions. inr (record {
        by = f;
        contexts = contexts;
        context = h.context;
        listed = e;
        runs = r;
        among = h.among;
        concrete = h.concrete;
        mentions = mentions;
        at = h.at;
      })

  lower_item-HasSource :
      (i : Item) (cs : Ceilings)
      → Elem i items
      → AllSourced cs
      → AllSourced (lower_item (shared_statics items) possible i cs)
  unfolding lower_item
  lower_item-HasSource (fn_def f) cs e h = elim (Option-cases (get possible f.name.name)) [
    | inl r ↦ rw r h
    | inr (contexts, r) ↦ rw r (
        lower_option-Each (HasSource items possible) _ (min_level contexts) cs
          (mentions-HasSource f contexts (min_level contexts) e r (min_level-ComesFrom contexts)) h)
  ]
  lower_item-HasSource _ cs e h = h

  lower_items-HasSource :
      (some_items : List Item) (cs : Ceilings)
      → All (λ i. Elem i items) some_items
      → AllSourced cs
      → AllSourced (lower_items (shared_statics items) possible some_items cs)
  unfolding lower_items
  lower_items-HasSource [] cs e h = h
  lower_items-HasSource (i ∷ rest) cs e h =
      lower_items-HasSource rest (lower_item (shared_statics items) possible i cs) e.1
        (lower_item-HasSource i cs e.0 h)

  started-HasSource : (ns : List Text) → AllSourced (map (λ n. (n, level thread)) ns)
  started-HasSource [] = tt
  started-HasSource (n ∷ ns) = (inl refl, started-HasSource ns)

-- The statics with a derived ceiling are those that the program annotates `@shared`, and each
-- ceiling is the level of thread code or that of a context, not `Any`, of a function that mentions
-- the static.
pub derive_shared_ceilings-HasSource :
    (items : List Item) (possible : Contexts)
    → ((n : Text) → Elem n (names (derive_shared_ceilings items possible)) ↔ IsShared items n)
      × All (λ e. HasSource items possible e.0 e.1) (derive_shared_ceilings items possible)
unfolding derive_shared_ceilings
derive_shared_ceilings-HasSource items possible = (
  λ n.
      rw (names-derive_shared_ceilings items possible)
        (Elem-IsShared items n, IsShared-Elem items n),
  lower_items-HasSource items possible items _ (Elem→All _ items λ i e. e)
      (started-HasSource items possible (shared_statics items)),
)
