-- ===== src/Pio/Ensures.antt =====
-- Postconditions on the outcome of a fallible function of the assembler.
use beemel.Prelude.{◌≡◌, refl, ◌≢◌, Bool, true, false, Option, none, some, map_or, if◌then◌else◌}
use mathlib.Core.Path.{subst}
use beemel.Pio.Error.{Outcome, ok, err, panic, out_of_fuel, ◌>>=◌}

-- The run kept within its fuel, and `P` holds of what it returned.
abbrev pub Ensures {ℓ} : {A : Type ℓ} → (A → Type 0) → Outcome A → Type 0
Ensures P (ok a) = P a
Ensures P (err e) = Unit
Ensures P panic = Unit
Ensures P out_of_fuel = ⊥

pub Ensures-bind {ℓ κ} :
    {A : Type ℓ} {B : Type κ} (P : A → Type 0) (Q : B → Type 0) (m : Outcome A) (f : A → Outcome B)
    → Ensures P m
    → ((a : A) → P a → Ensures Q (f a))
    → Ensures Q (m >>= f)
Ensures-bind P Q (ok a) f h k = k a h
Ensures-bind P Q (err e) f h k = tt
Ensures-bind P Q panic f h k = tt
Ensures-bind P Q out_of_fuel f h k = h

pub Ensures-ne {ℓ} : {A : Type ℓ} (P : A → Type 0) (m : Outcome A) → Ensures P m → m ≢ out_of_fuel
Ensures-ne P (ok a) h = cc
Ensures-ne P (err e) h = cc
Ensures-ne P panic h = cc
Ensures-ne P out_of_fuel h = absurd h

pub Ensures-map {ℓ} :
    {A : Type ℓ} (P Q : A → Type 0) (m : Outcome A)
    → ((a : A) → P a → Q a)
    → Ensures P m
    → Ensures Q m
Ensures-map P Q (ok a) k h = k a h
Ensures-map P Q (err e) k h = tt
Ensures-map P Q panic k h = tt
Ensures-map P Q out_of_fuel k h = h

pub Ensures-map_or {ℓ κ} :
    {A : Type ℓ} {B : Type κ} (P : B → Type 0) (o : Option A) (m : Outcome B) (f : A → Outcome B)
    → Ensures P m
    → ((a : A) → Ensures P (f a))
    → Ensures P (map_or o m f)
Ensures-map_or P none m f hm hf = hm
Ensures-map_or P (some a) m f hm hf = hf a

pub Ensures-if {ℓ} :
    {A : Type ℓ} (P : A → Type 0) (b : Bool) (m n : Outcome A)
    → Ensures P m
    → Ensures P n
    → Ensures P (if b then m else n)
Ensures-if P true m n hm hn = hm
Ensures-if P false m n hm hn = hn

pub Ensures-ok {ℓ} :
    {A : Type ℓ} (P : A → Type 0) (m : Outcome A) {a : A} → Ensures P m → m ≡ ok a → P a
Ensures-ok P m {a} h e = subst (Ensures P) e h

-- Two continuations that agree on what `P` admits.
pub bind_ext {ℓ κ} :
    {A : Type ℓ} {B : Type κ} (P : A → Type 0) (m : Outcome A) (f g : A → Outcome B)
    → Ensures P m
    → ((a : A) → P a → f a ≡ g a)
    → (m >>= f) ≡ (m >>= g)
bind_ext P (ok a) f g h k = k a h
bind_ext P (err e) f g h k = refl
bind_ext P panic f g h k = refl
bind_ext P out_of_fuel f g h k = refl

pub bind_assoc {ℓ κ μ} :
    {A : Type ℓ} {B : Type κ} {C : Type μ} (m : Outcome A) (f : A → Outcome B) (g : B → Outcome C)
    → ((m >>= f) >>= g) ≡ (m >>= λ a. f a >>= g)
bind_assoc (ok a) f g = refl
bind_assoc (err e) f g = refl
bind_assoc panic f g = refl
bind_assoc out_of_fuel f g = refl

-- Inversion of a successful bind.
pub bind-eq-ok {ℓ κ} :
    {A : Type ℓ} {B : Type κ} (m : Outcome A) (f : A → Outcome B) {b : B}
    → (m >>= f) ≡ ok b
    → (a : A) × (m ≡ ok a) × (f a ≡ ok b)
bind-eq-ok (ok a) f h = (a, refl, h)
bind-eq-ok (err e) f h = cc
bind-eq-ok panic f h = cc
bind-eq-ok out_of_fuel f h = cc
