-- ===== src/Ceiling/Names.antt =====
-- Which statics `derive_shared_ceilings` of bml-core/src/ceiling.rs gives a ceiling.
use beemel.Prelude.{
  sym, subst, Bool-cases, true, Elem, inl, inr, get, contains, ℕ, ◌≡◌, refl, ap, ◌∙◌, Text, Option,
  none, some, List, [], ◌∷◌, map, map_or_holds,
}
use beemel.Ast.Items.{
  Item, fn_def, static_def, StaticDef, StorageAnnotation, shared, exclusive, dma, external,
  section_name, align,
}
use beemel.Context.{Contexts}
use beemel.Ceiling.Scan.{scan_block}
use beemel.Ceiling.{
  any_shared, shared_statics, Ceilings, min_level, lower, lower_all, lower_option, lower_item,
  lower_items, derive_shared_ceilings,
}

-- A static of this name stands in the program with a `@shared` annotation, bare or pinned.
pub record IsShared (items : List Item) (name : Text) : Type 0 where
  decl : StaticDef
  ceiling : Option ℕ
  listed : Elem (static_def decl) items
  annotated : Elem (shared ceiling) decl.storage
  called : decl.name.name ≡ name

any_shared-Elem :
    (ann : List StorageAnnotation) → any_shared ann ≡ true → (o : Option ℕ) × Elem (shared o) ann
unfolding any_shared
any_shared-Elem [] h = cc
any_shared-Elem (shared o ∷ ann) h = (o, inl refl)
any_shared-Elem (exclusive x ∷ ann) h = let (o, e) = any_shared-Elem ann h in (o, inr e)
any_shared-Elem (dma ∷ ann) h = let (o, e) = any_shared-Elem ann h in (o, inr e)
any_shared-Elem (external ∷ ann) h = let (o, e) = any_shared-Elem ann h in (o, inr e)
any_shared-Elem (section_name t ∷ ann) h = let (o, e) = any_shared-Elem ann h in (o, inr e)
any_shared-Elem (align n ∷ ann) h = let (o, e) = any_shared-Elem ann h in (o, inr e)

Elem-any_shared :
    (ann : List StorageAnnotation) (o : Option ℕ) → Elem (shared o) ann → any_shared ann ≡ true
unfolding any_shared
Elem-any_shared [] o e = absurd e
Elem-any_shared (a ∷ ann) o (inl e) =
    subst (λ (b : StorageAnnotation). any_shared (b ∷ ann) ≡ true) (sym e) refl
Elem-any_shared (shared p ∷ ann) o (inr e) = refl
Elem-any_shared (exclusive x ∷ ann) o (inr e) = Elem-any_shared ann o e
Elem-any_shared (dma ∷ ann) o (inr e) = Elem-any_shared ann o e
Elem-any_shared (external ∷ ann) o (inr e) = Elem-any_shared ann o e
Elem-any_shared (section_name t ∷ ann) o (inr e) = Elem-any_shared ann o e
Elem-any_shared (align n ∷ ann) o (inr e) = Elem-any_shared ann o e

IsShared-there :
    (i : Item) (items : List Item) (n : Text) → IsShared items n → IsShared (i ∷ items) n
IsShared-there i items n h = record {
  decl = h.decl;
  ceiling = h.ceiling;
  listed = inr h.listed;
  annotated = h.annotated;
  called = h.called;
}

pub Elem-IsShared :
    (items : List Item) (n : Text) → Elem n (shared_statics items) → IsShared items n
unfolding shared_statics
Elem-IsShared [] n e = absurd e
Elem-IsShared (static_def s ∷ items) n e = elim (Bool-cases (any_shared s.storage)) [
  | inl h ↦ elim (rw h at e) [
    | inl called ↦
        let (o, annotated) = any_shared-Elem s.storage h in
        record { decl = s; ceiling = o; listed = inl refl; annotated = annotated; called = called }
    | inr later ↦ IsShared-there (static_def s) items n (Elem-IsShared items n later)
  ]
  | inr h ↦ IsShared-there (static_def s) items n (Elem-IsShared items n (rw h at e))
]
Elem-IsShared (i ∷ items) n e = IsShared-there i items n (Elem-IsShared items n e)

Elem-later :
    (i : Item) (items : List Item) (n : Text)
    → Elem n (shared_statics items)
    → Elem n (shared_statics (i ∷ items))
unfolding shared_statics
Elem-later (static_def t) items n e = elim (Bool-cases (any_shared t.storage)) [
  | inl m ↦ rw m (inr e)
  | inr m ↦ rw m e
]
Elem-later _ items n e = e

Elem-first :
    (s : StaticDef) (i : Item) (items : List Item)
    → i ≡ static_def s
    → any_shared s.storage ≡ true
    → Elem s.name.name (shared_statics (i ∷ items))
unfolding shared_statics
Elem-first s i items e h =
    subst (λ (j : Item). Elem s.name.name (shared_statics (j ∷ items))) (sym e) (rw h (inl refl))

static-Elem :
    (items : List Item) (s : StaticDef)
    → Elem (static_def s) items
    → any_shared s.storage ≡ true
    → Elem s.name.name (shared_statics items)
static-Elem [] s e h = absurd e
static-Elem (i ∷ items) s (inl e) h = Elem-first s i items e h
static-Elem (i ∷ items) s (inr e) h = Elem-later i items s.name.name (static-Elem items s e h)

pub IsShared-Elem :
    (items : List Item) (n : Text) → IsShared items n → Elem n (shared_statics items)
IsShared-Elem items n h =
    subst (λ (t : Text). Elem t (shared_statics items)) h.called
      (static-Elem items h.decl h.listed (Elem-any_shared h.decl.storage h.ceiling h.annotated))

abbrev pub names : Ceilings → List Text
names [] = []
names ((n, v) ∷ cs) = n ∷ names cs

names-lower : (m : Text) (l : ℕ) (cs : Ceilings) → names (lower m l cs) ≡ names cs
unfolding lower
names-lower m l [] = refl
names-lower m l ((n, v) ∷ cs) = ap (λ ns. n ∷ ns) (names-lower m l cs)

names-lower_all : (ms : List Text) (l : ℕ) (cs : Ceilings) → names (lower_all ms l cs) ≡ names cs
unfolding lower_all
names-lower_all [] l cs = refl
names-lower_all (m ∷ ms) l cs = names-lower_all ms l (lower m l cs) ∙ names-lower m l cs

names-lower_option :
    (ms : List Text) (o : Option ℕ) (cs : Ceilings) → names (lower_option ms o cs) ≡ names cs
unfolding lower_option
names-lower_option ms none cs = refl
names-lower_option ms (some l) cs = names-lower_all ms l cs

module _ (statics : List Text) (possible : Contexts) where
  names-lower_item :
      (i : Item) (cs : Ceilings) → names (lower_item statics possible i cs) ≡ names cs
  unfolding lower_item
  names-lower_item (fn_def f) cs =
      map_or_holds (λ d. names d ≡ names cs) (get possible f.name.name) cs _ refl
        λ contexts.
          names-lower_option (scan_block (contains statics) f.body) (min_level contexts) cs
  names-lower_item _ cs = refl

  names-lower_items :
      (items : List Item) (cs : Ceilings) → names (lower_items statics possible items cs) ≡ names cs
  unfolding lower_items
  names-lower_items [] cs = refl
  names-lower_items (i ∷ items) cs =
      names-lower_items items (lower_item statics possible i cs) ∙ names-lower_item i cs

names-at : (k : ℕ) (ns : List Text) → names (map (λ n. (n, k)) ns) ≡ ns
names-at k [] = refl
names-at k (n ∷ ns) = ap (λ ms. n ∷ ms) (names-at k ns)

-- Every shared static has a ceiling, and nothing else has one.
pub names-derive_shared_ceilings :
    (items : List Item) (possible : Contexts)
    → names (derive_shared_ceilings items possible) ≡ shared_statics items
unfolding derive_shared_ceilings
names-derive_shared_ceilings items possible =
    names-lower_items (shared_statics items) possible items _ ∙ names-at 255 (shared_statics items)
