-- ===== src/Borrow/Permits.antt =====
-- When bml-core/src/borrow.rs lets an access through, said without its tests.
use beemel.Prelude.{
  ℕ, List-cases, leb→le, ◌≤◌, ◌≡◌, ◌↔◌, inl, inr, refl, sym, subst, Text, true, Option, none, some,
  List, [], ◌∷◌, text_eq_iff, get, map_or, arith, All, Elem, All-Elem, Elem→All, Bool-cases,
  Option-cases,
}
use beemel.Ast.Names.{Ident}
use beemel.Ast.Items.{StorageAnnotation, exclusive, shared, dma, external, section_name, align}
use beemel.Context.{Context, thread, any, isr, is_isr, can_access}
use beemel.Symbols.{StaticSymbol, SymbolTable}
use beemel.Borrow.Access.{
  Report, accepted, ◌⨟◌, only_isr, find_denied, isr_contexts, check_shared, check_annotation,
  check_annotations, check_static_access,
}

-- The function may run as an ISR of priority `p`: it is one, or it is of unknown context and has
-- one among its possible contexts.
pub data MayRunAs (symbols : SymbolTable) (current_fn : Text) : Context → ℕ → Type 0 where
  own : (p : ℕ) → MayRunAs symbols current_fn (isr p) p
  through :
      (p : ℕ) (cs : List Context)
      → get symbols.fn_possible_contexts current_fn ≡ some cs
      → Elem (isr p) cs
      → MayRunAs symbols current_fn any p

Elem-only_isr : (p : ℕ) (cs : List Context) → Elem (isr p) cs → Elem (isr p) (only_isr cs)
unfolding only_isr is_isr
Elem-only_isr p (thread ∷ cs) (inr e) = Elem-only_isr p cs e
Elem-only_isr p (any ∷ cs) (inr e) = Elem-only_isr p cs e
Elem-only_isr p (isr q ∷ cs) (inl e) = inl e
Elem-only_isr p (isr q ∷ cs) (inr e) = inr (Elem-only_isr p cs e)
Elem-only_isr p (thread ∷ cs) (inl e) = cc
Elem-only_isr p (any ∷ cs) (inl e) = cc
Elem-only_isr p [] e = absurd e

only_isr-Elem :
    (c : Context) (cs : List Context)
    → Elem c (only_isr cs)
    → (p : ℕ) × (c ≡ isr p) × Elem (isr p) cs
unfolding only_isr is_isr
only_isr-Elem c [] e = absurd e
only_isr-Elem c (thread ∷ cs) e = let r = only_isr-Elem c cs e in (r.0, r.1, inr r.2)
only_isr-Elem c (any ∷ cs) e = let r = only_isr-Elem c cs e in (r.0, r.1, inr r.2)
only_isr-Elem c (isr q ∷ cs) (inl e) = (q, sym e, inl refl)
only_isr-Elem c (isr q ∷ cs) (inr e) = let r = only_isr-Elem c cs e in (r.0, r.1, inr r.2)

module _ (symbols : SymbolTable) (current_fn : Text) where
  MayRunAs→Elem :
      {c : Context} {p : ℕ}
      → MayRunAs symbols current_fn c p
      → Elem (isr p) (isr_contexts symbols current_fn c)
  unfolding isr_contexts
  MayRunAs→Elem (own p) = inl refl
  MayRunAs→Elem (through p cs known e) = rw known (Elem-only_isr p cs e)

  from_any :
      (d : Context) (o : Option (List Context))
      → get symbols.fn_possible_contexts current_fn ≡ o
      → Elem d (map_or o [] only_isr)
      → (p : ℕ) × (d ≡ isr p) × MayRunAs symbols current_fn any p
  from_any d none known e = absurd e
  from_any d (some cs) known e =
      let r = only_isr-Elem d cs e in (r.0, r.1, through r.0 cs known r.2)

  Elem→MayRunAs :
      (c d : Context)
      → Elem d (isr_contexts symbols current_fn c)
      → (p : ℕ) × (d ≡ isr p) × MayRunAs symbols current_fn c p
  unfolding isr_contexts
  Elem→MayRunAs thread d e = absurd e
  Elem→MayRunAs (isr p) d (inl e) = (p, sym e, own p)
  Elem→MayRunAs (isr p) d (inr x') = elim x' [ ]
  Elem→MayRunAs any d e = from_any d (get symbols.fn_possible_contexts current_fn) refl e

  module _ (current_ctx : Context) where
    -- What an annotation asks of the function.
    abbrev pub AllowedBy : StorageAnnotation → Type 0
    AllowedBy (exclusive owner) = owner.name ≡ current_fn
    AllowedBy (shared none) = ⊥
    AllowedBy (shared (some ceiling)) =
        (p : ℕ) → MayRunAs symbols current_fn current_ctx p → ceiling ≤ p
    AllowedBy dma = Unit
    AllowedBy external = Unit
    AllowedBy (section_name _) = Unit
    AllowedBy (align _) = Unit

    -- What the static asks of it: without annotations, that it is no ISR's.
    pub record Permitted (sym : StaticSymbol) : Type 0 where
      pub unannotated : sym.storage ≡ [] → (p : ℕ) → ¬ MayRunAs symbols current_fn current_ctx p
      pub annotated : All AllowedBy sym.storage

find_denied→All :
    (ceiling : ℕ) (cs : List Context)
    → find_denied ceiling cs ≡ none
    → All (λ c. can_access c ceiling ≡ true) cs
unfolding find_denied
find_denied→All ceiling [] h = tt
find_denied→All ceiling (c ∷ cs) h = elim (Bool-cases (can_access c ceiling)) [
  | inl e ↦ (e, find_denied→All ceiling cs (rw e at h))
  | inr e ↦ absurd (not_none c (rw e at h))
]
  where
    not_none : (d : Context) → ¬ (some d ≡ none)
    not_none d k = cc

All→find_denied :
    (ceiling : ℕ) (cs : List Context)
    → All (λ c. can_access c ceiling ≡ true) cs
    → find_denied ceiling cs ≡ none
unfolding find_denied
All→find_denied ceiling [] h = refl
All→find_denied ceiling (c ∷ cs) h = rw h.0 (All→find_denied ceiling cs h.1)

⨟-accepted : (r s : Report) → (r ⨟ s ≡ accepted) ↔ ((r ≡ accepted) × (s ≡ accepted))
unfolding ◌⨟◌
⨟-accepted none s = (λ h. cc, λ h. cc)
⨟-accepted (some ds) none = (λ h. cc, λ h. cc)
⨟-accepted (some []) (some es) = (λ h. (refl, h), λ h. h.1)
⨟-accepted (some (d ∷ ds)) (some es) = (λ h. cc, λ h. cc)

module _ (symbols : SymbolTable) (current_fn : Text) where
  own-can_access :
      (c : Context) (ceiling : ℕ)
      → AllowedBy symbols current_fn c (shared (some ceiling))
      → can_access c ceiling ≡ true
  unfolding can_access
  own-can_access thread ceiling h = refl
  own-can_access any ceiling h = refl
  own-can_access (isr p) ceiling h = let le = h p (own p) in ground arith

  everything_allowed :
      (c : Context) (ceiling : ℕ)
      → AllowedBy symbols current_fn c (shared (some ceiling))
      → All (λ d. can_access d ceiling ≡ true) (isr_contexts symbols current_fn c)
  everything_allowed c ceiling h = Elem→All (λ d. can_access d ceiling ≡ true) _ admitted
    where
      admitted :
          (d : Context) → Elem d (isr_contexts symbols current_fn c) → can_access d ceiling ≡ true
      admitted d e =
          let r = Elem→MayRunAs symbols current_fn c d e in
          let le = h r.0 r.2 in unfold can_access in rw r.1 (ground arith)

  denied_none :
      (c : Context) (x : Ident) (ceiling : ℕ)
      → check_shared symbols current_fn c x ceiling ≡ accepted
      → find_denied ceiling (isr_contexts symbols current_fn c) ≡ none
  unfolding check_shared
  denied_none c x ceiling h =
      elim (Option-cases (find_denied ceiling (isr_contexts symbols current_fn c))) [
        | inl e ↦ e
        | inr (bad, e) ↦ ground (arith, e, h)
      ]

  check_shared→AllowedBy :
      (c : Context) (x : Ident) (ceiling : ℕ)
      → check_shared symbols current_fn c x ceiling ≡ accepted
      → AllowedBy symbols current_fn c (shared (some ceiling))
  check_shared→AllowedBy c x ceiling h p m =
      let admitted =
        All-Elem (λ d. can_access d ceiling ≡ true) (isr p) _
          (find_denied→All ceiling _ (denied_none c x ceiling h))
          (MayRunAs→Elem symbols current_fn m) in
      below admitted
    where
      below : can_access (isr p) ceiling ≡ true → ceiling ≤ p
      below a = unfold can_access in leb→le ceiling p a

  pub AllowedBy→check_shared :
      (c : Context) (x : Ident) (ceiling : ℕ)
      → AllowedBy symbols current_fn c (shared (some ceiling))
      → check_shared symbols current_fn c x ceiling ≡ accepted
  unfolding check_shared
  AllowedBy→check_shared c x ceiling h =
      rw (own-can_access c ceiling h, All→find_denied ceiling _ (everything_allowed c ceiling h))
        refl

  module _ (c : Context) (x : Ident) where
    check_annotation-AllowedBy :
        (a : StorageAnnotation)
        → (check_annotation symbols current_fn c x a ≡ accepted) ↔ AllowedBy symbols current_fn c a
    unfolding check_annotation
    check_annotation-AllowedBy (exclusive owner) = ground (arith, text_eq_iff owner.name current_fn)
    check_annotation-AllowedBy (shared none) = (λ h. cc, λ h. absurd h)
    check_annotation-AllowedBy (shared (some ceiling)) =
        (check_shared→AllowedBy c x ceiling, AllowedBy→check_shared c x ceiling)
    check_annotation-AllowedBy dma = (λ h. tt, λ h. refl)
    check_annotation-AllowedBy external = (λ h. tt, λ h. refl)
    check_annotation-AllowedBy (section_name _) = (λ h. tt, λ h. refl)
    check_annotation-AllowedBy (align _) = (λ h. tt, λ h. refl)

    check_annotations-AllowedBy :
        (as' : List StorageAnnotation)
        → (check_annotations symbols current_fn c x as' ≡ accepted)
          ↔ All (AllowedBy symbols current_fn c) as'
    unfolding check_annotations
    check_annotations-AllowedBy [] = (λ h. tt, λ h. refl)
    check_annotations-AllowedBy (a ∷ more) =
        let one = check_annotation-AllowedBy a in
        let rest = check_annotations-AllowedBy more in
        let both =
          ⨟-accepted (check_annotation symbols current_fn c x a)
            (check_annotations symbols current_fn c x more) in
        (λ h. (one.0 (both.0 h).0, rest.0 (both.0 h).1), λ h. both.1 (one.1 h.0, rest.1 h.1))

  no_isrs :
      (c : Context)
      → ((p : ℕ) → ¬ MayRunAs symbols current_fn c p)
      → isr_contexts symbols current_fn c ≡ []
  no_isrs c h = elim (List-cases (isr_contexts symbols current_fn c)) [
    | inl e ↦ e
    | inr (d, ds, e) ↦
        let r = Elem→MayRunAs symbols current_fn c d (subst (Elem d) (sym e) (inl refl)) in
        absurd (h r.0 r.2)
  ]

  module _ (c : Context) (x : Ident) (sym : StaticSymbol) where
    accepted→annotations :
        check_static_access symbols current_fn c x sym ≡ accepted
        → check_annotations symbols current_fn c x sym.storage ≡ accepted
    unfolding check_static_access
    accepted→annotations h = ground (arith, h)

    accepted→no_isr :
        check_static_access symbols current_fn c x sym ≡ accepted
        → sym.storage ≡ []
        → isr_contexts symbols current_fn c ≡ []
    unfolding check_static_access
    accepted→no_isr h e = elim (List-cases (isr_contexts symbols current_fn c)) [
      | inl none_there ↦ none_there
      | inr (d, ds, some_there) ↦ cc (rw (e, some_there) at h)
    ]

    accepted→Permitted :
        check_static_access symbols current_fn c x sym ≡ accepted
        → Permitted symbols current_fn c sym
    accepted→Permitted h = record {
      unannotated =
          λ e p m. subst (Elem (isr p)) (accepted→no_isr h e) (MayRunAs→Elem symbols current_fn m);
      annotated = (check_annotations-AllowedBy c x sym.storage).0 (accepted→annotations h);
    }

    Permitted→accepted :
        Permitted symbols current_fn c sym
        → check_static_access symbols current_fn c x sym ≡ accepted
    unfolding check_static_access
    Permitted→accepted h = elim (List-cases sym.storage) [
      | inl e ↦ rw (e, no_isrs c (h.unannotated e)) (unfold check_annotations in refl)
      | inr (a, more, e) ↦
          let all = (check_annotations-AllowedBy c x sym.storage).1 h.annotated in
          rw e (rw e at all)
    ]

    -- An access of a static is accepted exactly when it is permitted: a static without annotations is
    -- accessed by no function that may run as an ISR, and every annotation allows the function, an
    -- `@exclusive` one its owner, and a `@shared` one whatever runs at no priority above its ceiling.
    pub check_static_access-Permitted :
        (check_static_access symbols current_fn c x sym ≡ accepted)
        ↔ Permitted symbols current_fn c sym
    check_static_access-Permitted = (accepted→Permitted, Permitted→accepted)
