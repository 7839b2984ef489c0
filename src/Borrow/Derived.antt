-- ===== src/Borrow/Derived.antt =====
-- Bare `@shared` statics, from bml-core/src/resolver.rs and bml-core/src/ceiling.rs to the access
-- checks of bml-core/src/borrow.rs.
use beemel.Prelude.{
  ℕ, ◌≤◌, ◌≡◌, refl, sym, subst, ◌∙◌, Text, Bool, true, false, some, List, [], ◌∷◌, ◌++◌, map,
  map_or, get, contains, contains_key, All, Option-cases, inl, inr, ap,
}
use mathlib.Core.List.{append_assoc}
use beemel.Ast.Names.{Ident}
use beemel.Ast.Items.{Item, fn_def, FnDef, Program, shared}
use beemel.Context.{Context, Contexts, thread, isr}
use beemel.Symbols.{StaticSymbol, SymbolTable}
use beemel.Resolver.{set_ceiling, set_ceilings, assign_ceilings}
use beemel.Ceiling.{any_shared, shared_statics, derive_shared_ceilings}
use beemel.Ceiling.Scan.{scan_block}
use beemel.Ceiling.Access.{Admits, derive_shared_ceilings-Admits}
use beemel.Ceiling.Names.{names-derive_shared_ceilings}
use beemel.Ceiling.Propagate.{fn_mentions, pointer_call_facts}
use beemel.Ceiling.Propagate.Moves.{runs_in}
use beemel.Ceiling.Propagate.Rounds.{RunsIn, declared}
use beemel.Ceiling.Propagate.Closed.{has→Elem}
use beemel.Ceiling.Propagate.Exact.{propagate_contexts-RunsIn, Elem→has}
use beemel.Borrow.Access.{accepted, check_name}
use beemel.Borrow.{check_fn_body, context_of, check_item, check_items, check}
use beemel.Borrow.Permits.{MayRunAs, own, through, AllowedBy}
use beemel.Borrow.Walk.{Holds, Holds-⨟, Admitted, check_fn_body-Holds}
use beemel.Borrow.Ceilings.{
  CeilingHolds, IsBare, contains→All, Elem-split, named_ceiling, Admits-le, get-set_ceilings,
  check_callee-Holds, check_static_access-Holds, check_annotations-Holds, ceiling,
}

-- Every ceiling is left to be derived, and the shared statics of the table are those of the program.
pub record LeavesCeilings (items : List Item) (table : SymbolTable) : Type 0 where
  pub bare : (n : Text) (s : StaticSymbol) → get table.statics n ≡ some s → All IsBare s.storage
  pub listed :
      (n : Text) (s : StaticSymbol)
      → get table.statics n ≡ some s
      → any_shared s.storage ≡ true
      → contains (shared_statics items) n ≡ true

runs_in-split :
    (p : Contexts) (f : Text) (c : Context)
    → runs_in p f c ≡ true
    → (xs : List Context) × (ys : List Context) × (get p f ≡ some (xs ++ c ∷ ys))
runs_in-split p f c h = elim (Option-cases (get p f)) [
  | inl e ↦ absurd (nowhere (rw e at h))
  | inr (set, e) ↦
      let (xs, ys, q) = Elem-split c set (has→Elem c set (rw e at h)) in
      (xs, ys, e ∙ ap (λ zs. some zs) q)
]
  where
    nowhere : ¬ (false ≡ true)
    nowhere q = cc

module _ (items : List Item) (table : SymbolTable) (p : Contexts)
    (exact : (f : Text) (c : Context)
      → RunsIn table.functions
          (fn_mentions items (contains_key table.functions))
          (pointer_call_facts items (contains_key table.functions))
          f
          c
      → runs_in p f c ≡ true) where
  abbrev resolved : SymbolTable
  resolved = record table {
    fn_possible_contexts = p;
    statics = set_ceilings (derive_shared_ceilings items p) table.statics;
  }

  own_context : (f : Text) (q : ℕ) → context_of resolved f ≡ isr q → runs_in p f (isr q) ≡ true
  unfolding context_of
  own_context f q h = elim (Option-cases (get table.functions f)) [
    | inl e ↦ absurd (not_thread (rw e at h))
    | inr (s, e) ↦ exact f (isr q) (declared f s (isr q) e (rw e at h) λ i. cc)
  ]
    where
      not_thread : ¬ (thread ≡ isr q)
      not_thread i = cc

  may_run :
      (f : Text) {c : Context} {q : ℕ}
      → MayRunAs resolved f c q
      → context_of resolved f ≡ c
      → runs_in p f (isr q) ≡ true
  may_run f (own q) e = own_context f q e
  may_run f (through q cs known m) e = rw known (Elem→has (isr q) cs m)

  module _ (leaves : LeavesCeilings items table) (before after : List Item) (f : FnDef)
      (whole : items ≡ before ++ fn_def f ∷ after) where
    abbrev sh : Text → Bool
    sh = contains (shared_statics items)

    admits :
        (n : Text) (q : ℕ)
        → contains (scan_block sh f.body) n ≡ true
        → runs_in p f.name.name (isr q) ≡ true
        → Admits (isr q) n (derive_shared_ceilings items p)
    admits n q m r =
        let (xs, ys, e) = runs_in-split p f.name.name (isr q) r in
        subst
          (λ (is : List Item).
            contains (scan_block (contains (shared_statics is)) f.body) n ≡ true
            → Admits (isr q) n (derive_shared_ceilings is p))
          (sym whole) (derive_shared_ceilings-Admits p before after f xs ys (isr q) n e) m

    abbrev ctx : Context
    ctx = context_of resolved f.name.name

    check_name-Holds :
        (x : Ident)
        → ((s : StaticSymbol)
            → get table.statics x.name ≡ some s
            → any_shared s.storage ≡ true
            → AllowedBy resolved f.name.name ctx (
                shared
                  (some (ceiling resolved f.name.name ctx (derive_shared_ceilings items p) x))))
        → Holds CeilingHolds (check_name resolved f.name.name ctx x)
    unfolding check_name
    check_name-Holds x h = elim (Option-cases (get table.statics x.name)) [
      | inl e ↦ rw (get-set_ceilings (derive_shared_ceilings items p) table.statics x.name, e) tt
      | inr (s, e) ↦
          rw (get-set_ceilings (derive_shared_ceilings items p) table.statics x.name, e)
            (check_static_access-Holds resolved f.name.name ctx x
              (record s {
                storage = map (set_ceiling (derive_shared_ceilings items p) x.name) s.storage;
              })
              (check_annotations-Holds resolved f.name.name ctx (derive_shared_ceilings items p) x
                s.storage (leaves.bare x.name s e) (h s e)))
    ]

    others : (n : Text) → sh n ≡ false → Admitted resolved f.name.name ctx sh CeilingHolds n
    others n absent s =
        check_name-Holds (record { name = n; span = s })
          λ sym' e a. absurd (clash (leaves.listed n sym' e a))
      where
        clash : ¬ (sh n ≡ true)
        clash q = cc

    derived_le :
        (n : Text) (q : ℕ)
        → sh n ≡ true
        → Admits (isr q) n (derive_shared_ceilings items p)
        → map_or (get (derive_shared_ceilings items p) n) 255 (λ v. v) ≤ q
    derived_le n q shared_n a =
        let (v, e) =
          named_ceiling n (derive_shared_ceilings items p)
            (rw (names-derive_shared_ceilings items p) shared_n) in
        rw e (Admits-le q n (derive_shared_ceilings items p) v a e)

    mentioned-Admitted :
        (n : Text)
        → contains (scan_block sh f.body) n ≡ true
        → Admitted resolved f.name.name ctx sh CeilingHolds n
    mentioned-Admitted n m s =
        check_name-Holds (record { name = n; span = s })
          λ sym' e a q runs.
            derived_le n q (leaves.listed n sym' e a) (admits n q m (may_run f.name.name runs refl))

    body-Holds : Holds CeilingHolds (check_fn_body resolved f.name.name ctx f.body)
    body-Holds =
        check_fn_body-Holds resolved f.name.name ctx sh CeilingHolds others
          (check_callee-Holds resolved f.name.name ctx) f.body
          (contains→All (Admitted resolved f.name.name ctx sh CeilingHolds) (scan_block sh f.body)
            mentioned-Admitted)

  module _ (leaves : LeavesCeilings items table) where
    items_hold :
        (before after : List Item)
        → items ≡ before ++ after
        → Holds CeilingHolds (check_items resolved after)
    unfolding check_items check_item
    items_hold before [] e = tt
    items_hold before (fn_def f ∷ after) e =
        Holds-⨟ CeilingHolds _ _ (body-Holds leaves before after f e) (
          items_hold (before ++ fn_def f ∷ []) after
            (e ∙ sym (append_assoc before (fn_def f ∷ []) after)))
    items_hold before (i ∷ after) e =
        Holds-⨟ CeilingHolds accepted _ tt
          (items_hold (before ++ i ∷ []) after (e ∙ sym (append_assoc before (i ∷ []) after)))

-- In a program that leaves every ceiling to be derived, resolution assigns the ceilings, and then the
-- borrow check does not panic and reports no access as above a ceiling (E402): whatever context a
-- function runs in, by its own or through callers and pointers, the ceilings of the statics that it
-- names are low enough.
pub check-CeilingHolds :
    (program : Program) (table : SymbolTable)
    → LeavesCeilings program.items table
    → (resolved_table : SymbolTable) × (assign_ceilings program.items table ≡ some resolved_table)
      × Holds CeilingHolds (check program resolved_table)
unfolding assign_ceilings check
check-CeilingHolds program table leaves =
    let (p, ends, exact) = propagate_contexts-RunsIn program.items table.functions in
    (
      resolved program.items table p (λ f c. (exact f c).1),
      rw ends refl,
      items_hold program.items table p (λ f c. (exact f c).1) leaves [] program.items refl,
    )
