-- ===== src/Stack/Run.antt =====
-- Outcomes of the stack analysis, bml-core/src/stack.rs: a panic where a sum of sizes is no `u32`, in
-- a build that checks for it, and spent fuel.
use beemel.Prelude.{Option, none, some, ℕ, ◌^◌, ◌≡◌, refl, ltb, if◌then◌else◌, Bool-cases, inl, inr}

pub data Run {ℓ} (A : Type ℓ) : Type ℓ where
  ok : A → Run A
  overflow out_of_fuel : Run A

infixl 5 ◌>>=◌
abbrev pub ◌>>=◌ {ℓ κ} : {A : Type ℓ} {B : Type κ} → Run A → (A → Run B) → Run B
ok a >>= f = f a
overflow >>= f = overflow
out_of_fuel >>= f = out_of_fuel

-- A `u32` that a sum or product gives.
unfoldable pub u32_of : ℕ → Run ℕ
u32_of n = if ltb n (2 ^ 32) then ok n else overflow

unfoldable pub checked {ℓ} : {A : Type ℓ} → Option A → Run A
checked none = overflow
checked (some a) = ok a

-- The run kept within its fuel, and `P` holds of what it returned.
abbrev pub Ensures {ℓ} : {A : Type ℓ} → (A → Type 0) → Run A → Type 0
Ensures P (ok a) = P a
Ensures P overflow = Unit
Ensures P out_of_fuel = ⊥

pub Ensures-bind {ℓ κ} :
    {A : Type ℓ} {B : Type κ} (P : A → Type 0) (Q : B → Type 0) (m : Run A) (f : A → Run B)
    → Ensures P m
    → ((a : A) → P a → Ensures Q (f a))
    → Ensures Q (m >>= f)
Ensures-bind P Q (ok a) f h k = k a h
Ensures-bind P Q overflow f h k = tt
Ensures-bind P Q out_of_fuel f h k = absurd h

-- What a run returns, if it does.
abbrev pub Yields {ℓ} : {A : Type ℓ} → (A → Type 0) → Run A → Type 0
Yields P (ok a) = P a
Yields P overflow = Unit
Yields P out_of_fuel = Unit

pub Yields-bind {ℓ κ} :
    {A : Type ℓ} {B : Type κ} (P : A → Type 0) (Q : B → Type 0) (m : Run A) (f : A → Run B)
    → Yields P m
    → ((a : A) → P a → Yields Q (f a))
    → Yields Q (m >>= f)
Yields-bind P Q (ok a) f h k = k a h
Yields-bind P Q overflow f h k = tt
Yields-bind P Q out_of_fuel f h k = tt

pub Yields-map {ℓ} :
    {A : Type ℓ} (P Q : A → Type 0) (m : Run A) → ((a : A) → P a → Q a) → Yields P m → Yields Q m
Yields-map P Q (ok a) k h = k a h
Yields-map P Q overflow k h = tt
Yields-map P Q out_of_fuel k h = tt

abbrev pub Ends {ℓ} : {A : Type ℓ} → Run A → Type 0
Ends m = Ensures (λ _. Unit) m

pub Ensures-u32_of : (n : ℕ) → Ensures (λ m. m ≡ n) (u32_of n)
unfolding u32_of
Ensures-u32_of n = elim (Bool-cases (ltb n (2 ^ 32))) [ inl e ↦ rw e refl | inr e ↦ rw e tt ]

pub Yields-u32_of : (n : ℕ) → Yields (λ m. m ≡ n) (u32_of n)
unfolding u32_of
Yields-u32_of n = elim (Bool-cases (ltb n (2 ^ 32))) [ inl e ↦ rw e refl | inr e ↦ rw e tt ]

-- A run that keeps within its fuel ensures what it yields.
pub Ends-Yields {ℓ} : {A : Type ℓ} (P : A → Type 0) (m : Run A) → Ends m → Yields P m → Ensures P m
Ends-Yields P (ok a) e h = h
Ends-Yields P overflow e h = tt
Ends-Yields P out_of_fuel e h = absurd e
