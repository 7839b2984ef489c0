-- ===== src/Ceiling/Access.antt =====
-- `derive_shared_ceilings` of bml-core/src/ceiling.rs against `can_access` of bml-core/src/context.rs.
use beemel.Prelude.{
  get, contains, ℕ, ◌≤◌, ◌≡◌, refl, sym, ◌∙◌, Text, Bool, true, Option, none, some, List, [], ◌∷◌,
  ◌++◌, min, text_eq, text_eq_iff, All, arith, if◌then◌else◌, map_or_holds, Bool-cases, inl, inr,
}
use beemel.Ast.Items.{Item, fn_def, FnDef}
use beemel.Context.{Contexts, Context, thread, isr, any, level, can_access}
use beemel.Ceiling.Scan.{scan_block}
use beemel.Ceiling.{
  shared_statics, Ceilings, min_option, min_level, lower, lower_all, lower_option, lower_item,
  lower_items, derive_shared_ceilings,
}

-- The ceilings of `name` are at most `k`.
abbrev AtMost : Text → ℕ → Ceilings → Type 0
AtMost name k ceilings = All (λ e. text_eq e.0 name ≡ true → e.1 ≤ k) ceilings

lowered : (b : Bool) (v l k : ℕ) → v ≤ k → (if b then min v l else v) ≤ k
lowered b v l k h = ground arith

lower-AtMost :
    (name : Text) (k : ℕ) (m : Text) (l : ℕ) (cs : Ceilings)
    → AtMost name k cs
    → AtMost name k (lower m l cs)
unfolding lower
lower-AtMost name k m l [] h = tt
lower-AtMost name k m l ((n, v) ∷ cs) h =
    (λ e. lowered (text_eq n m) v l k (h.0 e), lower-AtMost name k m l cs h.1)

lower_all-AtMost :
    (name : Text) (k : ℕ) (ms : List Text) (l : ℕ) (cs : Ceilings)
    → AtMost name k cs
    → AtMost name k (lower_all ms l cs)
unfolding lower_all
lower_all-AtMost name k [] l cs h = h
lower_all-AtMost name k (m ∷ ms) l cs h =
    lower_all-AtMost name k ms l (lower m l cs) (lower-AtMost name k m l cs h)

lower_option-AtMost :
    (name : Text) (k : ℕ) (ms : List Text) (o : Option ℕ) (cs : Ceilings)
    → AtMost name k cs
    → AtMost name k (lower_option ms o cs)
unfolding lower_option
lower_option-AtMost name k ms none cs h = h
lower_option-AtMost name k ms (some l) cs h = lower_all-AtMost name k ms l cs h

module _ (name : Text) (l : ℕ) where
  lower-reaches : (m : Text) (cs : Ceilings) → text_eq m name ≡ true → AtMost name l (lower m l cs)
  unfolding lower
  lower-reaches m [] h = tt
  lower-reaches m ((n, v) ∷ cs) h = (reached, lower-reaches m cs h)
    where
      same : text_eq n name ≡ true → text_eq n m ≡ true
      same e = (text_eq_iff n m).1 (((text_eq_iff n name).0 e) ∙ sym ((text_eq_iff m name).0 h))

      reached : text_eq n name ≡ true → (if text_eq n m then min v l else v) ≤ l
      reached e = rw (same e) (omega arith)

  lower_all-reaches :
      (ms : List Text) (cs : Ceilings) → contains ms name ≡ true → AtMost name l (lower_all ms l cs)
  unfolding lower_all
  lower_all-reaches [] cs h = cc
  lower_all-reaches (m ∷ ms) cs h = elim (Bool-cases (text_eq m name)) [
    | inl e ↦ lower_all-AtMost name l ms l (lower m l cs) (lower-reaches m cs e)
    | inr e ↦ lower_all-reaches ms (lower m l cs) (rw e at h)
  ]

module _ (statics : List Text) (possible : Contexts) (name : Text) (k : ℕ) where
  lower_item-AtMost :
      (i : Item) (cs : Ceilings)
      → AtMost name k cs
      → AtMost name k (lower_item statics possible i cs)
  unfolding lower_item
  lower_item-AtMost (fn_def f) cs h =
      map_or_holds (AtMost name k) (get possible f.name.name) cs _ h λ contexts.
        lower_option-AtMost name k (scan_block (contains statics) f.body) (min_level contexts) cs h
  lower_item-AtMost _ cs h = h

  lower_items-AtMost :
      (items : List Item) (cs : Ceilings)
      → AtMost name k cs
      → AtMost name k (lower_items statics possible items cs)
  unfolding lower_items
  lower_items-AtMost [] cs h = h
  lower_items-AtMost (i ∷ items) cs h =
      lower_items-AtMost items (lower_item statics possible i cs) (lower_item-AtMost i cs h)

-- A least level, and it is at most `k`.
abbrev LeastBelow : Option ℕ → ℕ → Type 0
LeastBelow none k = ⊥
LeastBelow (some l) k = l ≤ k

least_with : (j k : ℕ) (o : Option ℕ) → LeastBelow o k → LeastBelow (some (min_option j o)) k
least_with j k none h = absurd h
least_with j k (some l) h = omega arith

least_first : (p : ℕ) (o : Option ℕ) → LeastBelow (some (min_option p o)) p
least_first p none = omega arith
least_first p (some l) = omega arith

min_level-LeastBelow :
    (xs : List Context) (p : ℕ) (ys : List Context) → LeastBelow (min_level (xs ++ isr p ∷ ys)) p
unfolding min_level level
min_level-LeastBelow [] p ys = least_first p (min_level ys)
min_level-LeastBelow (any ∷ xs) p ys = min_level-LeastBelow xs p ys
min_level-LeastBelow (thread ∷ xs) p ys =
    least_with 255 p (min_level (xs ++ isr p ∷ ys)) (min_level-LeastBelow xs p ys)
min_level-LeastBelow (isr q ∷ xs) p ys =
    least_with q p (min_level (xs ++ isr p ∷ ys)) (min_level-LeastBelow xs p ys)

AtMost-mono : (name : Text) (j k : ℕ) (cs : Ceilings) → j ≤ k → AtMost name j cs → AtMost name k cs
AtMost-mono name j k [] le h = tt
AtMost-mono name j k ((n, v) ∷ cs) le h = (λ e. wider (h.0 e), AtMost-mono name j k cs le h.1)
  where
    wider : v ≤ j → v ≤ k
    wider p = omega arith

lower_option-reaches :
    (name : Text) (k : ℕ) (ms : List Text) (o : Option ℕ) (cs : Ceilings)
    → LeastBelow o k
    → contains ms name ≡ true
    → AtMost name k (lower_option ms o cs)
unfolding lower_option
lower_option-reaches name k ms none cs le h = absurd le
lower_option-reaches name k ms (some l) cs le h =
    AtMost-mono name l k (lower_all ms l cs) le (lower_all-reaches name l ms cs h)

-- A ceiling of `name` lets `c` in.
abbrev pub Admits : Context → Text → Ceilings → Type 0
Admits c name ceilings = All (λ e. text_eq e.0 name ≡ true → can_access c e.1 ≡ true) ceilings

AtMost-Admits : (name : Text) (p : ℕ) (cs : Ceilings) → AtMost name p cs → Admits (isr p) name cs
AtMost-Admits name p [] h = tt
AtMost-Admits name p ((n, v) ∷ cs) h = (λ e. admitted (h.0 e), AtMost-Admits name p cs h.1)
  where
    admitted : v ≤ p → can_access (isr p) v ≡ true
    admitted le = unfold can_access in ground arith

everyone :
    (c : Context) (name : Text) (cs : Ceilings)
    → ((v : ℕ) → can_access c v ≡ true)
    → Admits c name cs
everyone c name [] h = tt
everyone c name ((n, v) ∷ cs) h = (λ e. h v, everyone c name cs h)

module _ (statics : List Text) (possible : Contexts) (f : FnDef) (xs ys : List Context)
    (name : Text) where
  module _ (p : ℕ) (known : get possible f.name.name ≡ some (xs ++ isr p ∷ ys))
      (mentioned : contains (scan_block (contains statics) f.body) name ≡ true) where
    lower_item-reaches : (cs : Ceilings) → AtMost name p (lower_item statics possible (fn_def f) cs)
    unfolding lower_item
    lower_item-reaches cs = rw known (
        lower_option-reaches name p (scan_block (contains statics) f.body)
          (min_level (xs ++ isr p ∷ ys)) cs (min_level-LeastBelow xs p ys) mentioned)

    lower_items-reaches :
        (before after : List Item) (cs : Ceilings)
        → AtMost name p (lower_items statics possible (before ++ fn_def f ∷ after) cs)
    unfolding lower_items
    lower_items-reaches [] after cs =
        lower_items-AtMost statics possible name p after (lower_item statics possible (fn_def f) cs)
          (lower_item-reaches cs)
    lower_items-reaches (i ∷ before) after cs =
        lower_items-reaches before after (lower_item statics possible i cs)

-- A context in which a function may run passes the access check of the derived ceiling of every
-- shared static that the function's body mentions.
pub derive_shared_ceilings-Admits :
    (possible : Contexts) (before after : List Item) (f : FnDef) (xs ys : List Context)
    (c : Context) (name : Text)
    → get possible f.name.name ≡ some (xs ++ c ∷ ys)
    → contains (scan_block (contains (shared_statics (before ++ fn_def f ∷ after))) f.body) name
      ≡ true
    → Admits c name (derive_shared_ceilings (before ++ fn_def f ∷ after) possible)
unfolding derive_shared_ceilings can_access
derive_shared_ceilings-Admits possible before after f xs ys thread name known mentioned =
    everyone thread name _ λ v. refl
derive_shared_ceilings-Admits possible before after f xs ys any name known mentioned =
    everyone any name _ λ v. refl
derive_shared_ceilings-Admits possible before after f xs ys (isr p) name known mentioned =
    AtMost-Admits name p _ (
      lower_items-reaches (shared_statics (before ++ fn_def f ∷ after)) possible f xs ys name p
        known mentioned before after _)
