-- ===== src/Borrow/Ceilings.antt =====
-- The borrow checker of bml-core/src/borrow.rs on the ceilings that bml-core/src/ceiling.rs derives.
use beemel.Prelude.{
  ℕ, ◌≤◌, ◌≡◌, ◌≢◌, refl, Text, true, none, some, List, [], ◌∷◌, ◌++◌, map, map_or, Map, get,
  contains, text_eq, text_eq_iff, All, Elem, Bool-cases, inl, inr, arith, leb→le, if_holds,
  or_right, ap, map_or_holds, is_empty, not, ◌&&◌,
}
use beemel.Ast.Names.{Ident}
use beemel.Ast.Syntax.{ident}
use beemel.Ast.Items.{StorageAnnotation, exclusive, shared, dma, external, section_name, align}
use beemel.Context.{Context, thread, any, isr, can_access}
use beemel.Symbols.{StaticSymbol, SymbolTable}
use beemel.Resolver.{set_ceiling, set_ceilings}
use beemel.Ceiling.{Ceilings, any_shared}
use beemel.Ceiling.Access.{Admits}
use beemel.Ceiling.Names.{names}
use beemel.Borrow.Access.{
  Diagnostic, code, e402, accepted, check_annotation, check_annotations, check_static_access,
  check_context_compat, check_context_compat_context, isr_contexts, thread_only,
  thread_only_by_caller,
}
use beemel.Borrow.{check_callee}
use beemel.Borrow.Permits.{AllowedBy, AllowedBy→check_shared}
use beemel.Borrow.Walk.{Holds, Holds-⨟}

-- Not the diagnostic that a ceiling is too low.
abbrev pub CeilingHolds : Diagnostic → Type 0
CeilingHolds d = code d.problem ≢ e402

-- No ceiling is written out.
abbrev pub IsBare : StorageAnnotation → Type 0
IsBare (shared (some _)) = ⊥
IsBare _ = Unit

pub contains→All :
    (P : Text → Type 0) (xs : List Text) → ((n : Text) → contains xs n ≡ true → P n) → All P xs
contains→All P [] h = tt
contains→All P (x ∷ xs) h =
    (h x (rw ((text_eq_iff x x).1 refl) refl), contains→All P xs λ n c. h n (later n c))
  where
    later : (n : Text) → contains xs n ≡ true → contains (x ∷ xs) n ≡ true
    later n c = or_right (text_eq x n) c

pub Elem-split :
    (c : Context) (cs : List Context)
    → Elem c cs
    → (xs : List Context) × (ys : List Context) × (cs ≡ xs ++ c ∷ ys)
Elem-split c [] e = absurd e
Elem-split c (d ∷ ds) (inl e) = ([], ds, ap (λ x. x ∷ ds) e)
Elem-split c (d ∷ ds) (inr e) =
    let (xs, ys, q) = Elem-split c ds e in (d ∷ xs, ys, ap (λ zs. d ∷ zs) q)

check_context_compat_context-Holds :
    (symbols : SymbolTable) (f : Text) (c : Context) (x : Ident) (d : Context)
    → Holds CeilingHolds (check_context_compat_context symbols f c x d)
unfolding check_context_compat_context code
check_context_compat_context-Holds symbols f c x any = tt
check_context_compat_context-Holds symbols f (isr p) x thread = (λ q. cc, tt)
check_context_compat_context-Holds symbols f thread x thread = tt
check_context_compat_context-Holds symbols f any x thread = tt
check_context_compat_context-Holds symbols f thread x (isr q) = (λ q. cc, tt)
check_context_compat_context-Holds symbols f (isr p) x (isr q) = tt
check_context_compat_context-Holds symbols f any x (isr q) = tt

module _ (symbols : SymbolTable) (f : Text) (c : Context) where
  pub check_callee-Holds : (x : Ident) → Holds CeilingHolds (check_callee symbols f c (ident x))
  unfolding check_callee
  check_callee-Holds x =
      map_or_holds (Holds CeilingHolds) (get symbols.functions x.name) accepted _ tt λ g.
        unfold check_context_compat in check_context_compat_context-Holds symbols f c x g.context

  pub check_static_access-Holds :
      (x : Ident) (s : StaticSymbol)
      → Holds CeilingHolds (check_annotations symbols f c x s.storage)
      → Holds CeilingHolds (check_static_access symbols f c x s)
  unfolding check_static_access code
  check_static_access-Holds x s h =
      if_holds (Holds CeilingHolds)
        (is_empty s.storage && not (is_empty (isr_contexts symbols f c))) _ _
        (
          if_holds (λ r. code r ≢ e402) _ (thread_only x.name f) (thread_only_by_caller x.name f)
              (λ q. cc) (λ q. cc),
          tt,
        )
        h

  module _ (derived : Ceilings) (x : Ident) where
    abbrev pub ceiling : ℕ
    ceiling = map_or (get derived x.name) 255 λ v. v

    pub check_annotations-Holds :
        (storage : List StorageAnnotation)
        → All IsBare storage
        → (any_shared storage ≡ true → AllowedBy symbols f c (shared (some ceiling)))
        → Holds CeilingHolds
            (check_annotations symbols f c x (map (set_ceiling derived x.name) storage))
    unfolding check_annotations check_annotation set_ceiling any_shared code
    check_annotations-Holds [] b h = tt
    check_annotations-Holds (shared (some _) ∷ more) b h = absurd b.0
    check_annotations-Holds (shared none ∷ more) b h =
        rw (AllowedBy→check_shared symbols f c x ceiling (h refl))
          (Holds-⨟ CeilingHolds accepted _ tt (check_annotations-Holds more b.1 λ e. h refl))
    check_annotations-Holds (exclusive owner ∷ more) b h =
        Holds-⨟ CeilingHolds _ _
          (if_holds (Holds CeilingHolds) (text_eq owner.name f) _ _ tt (λ q. cc, tt))
          (check_annotations-Holds more b.1 h)
    check_annotations-Holds (dma ∷ more) b h =
        Holds-⨟ CeilingHolds accepted _ tt (check_annotations-Holds more b.1 h)
    check_annotations-Holds (external ∷ more) b h =
        Holds-⨟ CeilingHolds accepted _ tt (check_annotations-Holds more b.1 h)
    check_annotations-Holds (section_name _ ∷ more) b h =
        Holds-⨟ CeilingHolds accepted _ tt (check_annotations-Holds more b.1 h)
    check_annotations-Holds (align _ ∷ more) b h =
        Holds-⨟ CeilingHolds accepted _ tt (check_annotations-Holds more b.1 h)

pub named_ceiling :
    (n : Text) (cs : Ceilings) → contains (names cs) n ≡ true → (v : ℕ) × (get cs n ≡ some v)
named_ceiling n [] h = cc
named_ceiling n ((m, v) ∷ cs) h = elim (Bool-cases (text_eq m n)) [
  | inl e ↦ (v, rw e refl)
  | inr e ↦ let (w, q) = named_ceiling n cs (rw e at h) in (w, rw e q)
]

pub Admits-le :
    (p : ℕ) (n : Text) (cs : Ceilings) (v : ℕ) → Admits (isr p) n cs → get cs n ≡ some v → v ≤ p
Admits-le p n [] v h e = cc
Admits-le p n ((m, w) ∷ cs) v h e = elim (Bool-cases (text_eq m n)) [
  | inl q ↦ below (h.0 q) (rw q at e)
  | inr q ↦ Admits-le p n cs v h.1 (rw q at e)
]
  where
    below : can_access (isr p) w ≡ true → some w ≡ some v → v ≤ p
    below a i = unfold can_access in ground (arith, leb→le w p a)

pub get-set_ceilings :
    (derived : Ceilings) (statics : Map StaticSymbol) (n : Text)
    → get (set_ceilings derived statics) n
      ≡ map_or
          (get statics n)
          none
          (λ s. some (record s { storage = map (set_ceiling derived n) s.storage }))
unfolding set_ceilings
get-set_ceilings derived [] n = refl
get-set_ceilings derived ((m, s) ∷ statics) n = elim (Bool-cases (text_eq m n)) [
  | inl e ↦ rw (e, (text_eq_iff m n).0 e) refl
  | inr e ↦ rw e (get-set_ceilings derived statics n)
]
