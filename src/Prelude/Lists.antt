-- ===== src/Prelude/Lists.antt =====
-- Lists measured by native numbers, under the library's names.
use Prim.Native.Nat.{ℕ, suc, ◌+◌}
use mathlib.Core.Path.{◌≡◌, refl, subst}
use mathlib.Core.Logic.{◌⊎◌, inl, inr}
use mathlib.Core.List.{List, [], ◌∷◌, ◌++◌}
use mathlib.Core.Option.{Option, none, some}
use native.Mathlib.Omega.{arith}

module _ {ℓ} {A : Type ℓ} where
  abbrev pub length : List A → ℕ
  length [] = 0
  length (x ∷ xs) = suc (length xs)

  pub length-append : (xs ys : List A) → length (xs ++ ys) ≡ length xs + length ys
  length-append [] ys = omega arith
  length-append (x ∷ xs) ys = omega (arith, length-append xs ys)

  abbrev pub head? : List A → Option A
  head? [] = none
  head? (x ∷ xs) = some x

  abbrev pub last? : List A → Option A
  last? [] = none
  last? (x ∷ []) = some x
  last? (x ∷ y ∷ ys) = last? (y ∷ ys)

  -- A property of every element, as a tuple.
  abbrev pub All {κ} : (A → Type κ) → List A → Type κ
  All P [] = Unit
  All P (x ∷ xs) = P x × All P xs

  pub All-append {κ} : (P : A → Type κ) (xs ys : List A) → All P xs → All P ys → All P (xs ++ ys)
  All-append P [] ys h k = k
  All-append P (x ∷ xs) ys h k = (h.0, All-append P xs ys h.1 k)

  pub All-split {κ} : (P : A → Type κ) (xs ys : List A) → All P (xs ++ ys) → All P xs × All P ys
  All-split P [] ys h = (tt, h)
  All-split P (x ∷ xs) ys h = let r = All-split P xs ys h.1 in ((h.0, r.0), r.1)

module _ {A : Type 0} where
  -- Membership, as a sum.
  abbrev pub Elem : A → List A → Type 0
  Elem x [] = ⊥
  Elem x (y ∷ ys) = (y ≡ x) ⊎ Elem x ys

  pub All-Elem : (P : A → Type 0) (x : A) (xs : List A) → All P xs → Elem x xs → P x
  All-Elem P x [] h e = absurd e
  All-Elem P x (y ∷ ys) h (inl e) = subst P e h.0
  All-Elem P x (y ∷ ys) h (inr e) = All-Elem P x ys h.1 e

  pub Elem→All : (P : A → Type 0) (xs : List A) → ((x : A) → Elem x xs → P x) → All P xs
  Elem→All P [] h = tt
  Elem→All P (x ∷ xs) h = (h x (inl refl), Elem→All P xs (λ y e. h y (inr e)))

module _ {A : Type 0} (x : A) where
  pub Elem-append_left : (xs ys : List A) → Elem x xs → Elem x (xs ++ ys)
  Elem-append_left [] ys e = absurd e
  Elem-append_left (y ∷ xs) ys (inl e) = inl e
  Elem-append_left (y ∷ xs) ys (inr e) = inr (Elem-append_left xs ys e)

  pub Elem-append_right : (xs ys : List A) → Elem x ys → Elem x (xs ++ ys)
  Elem-append_right [] ys e = e
  Elem-append_right (y ∷ xs) ys e = inr (Elem-append_right xs ys e)

  pub Elem-split : (xs ys : List A) → Elem x (xs ++ ys) → Elem x xs ⊎ Elem x ys
  Elem-split [] ys e = inr e
  Elem-split (y ∷ xs) ys (inl e) = inl (inl e)
  Elem-split (y ∷ xs) ys (inr e) = elim (Elem-split xs ys e) [ inl p ↦ inl (inr p) | inr q ↦ inr q ]

pub List-cases {ℓ} :
    {A : Type ℓ} (xs : List A) → (xs ≡ []) ⊎ ((x : A) × (ys : List A) × (xs ≡ x ∷ ys))
List-cases [] = inl refl
List-cases (x ∷ xs) = inr (x, xs, refl)

-- A case on an option; the branch for a value is a function, so it waits.
abbrev pub map_or {ℓ κ} : {A : Type ℓ} {B : Type κ} → Option A → B → (A → B) → B
map_or none b f = b
map_or (some a) b f = f a

pub map_or_holds {ℓ κ} :
    {A : Type ℓ} {B : Type κ} (P : B → Type 0) (o : Option A) (b : B) (f : A → B)
    → P b
    → ((a : A) → P (f a))
    → P (map_or o b f)
map_or_holds P none b f h k = h
map_or_holds P (some a) b f h k = k a
