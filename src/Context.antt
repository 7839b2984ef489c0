-- ===== src/Context.antt =====
-- Execution contexts and priority ceilings: bml-core/src/context.rs.
mod Tests
use beemel.Prelude.{
  ℕ, ◌≤◌, ◌<◌, ◌≡◌, Bool, true, false, leb, ltb, ◌⊎◌, inl, inr, arith, List, [], ◌∷◌, All, min,
  refl, ◌↔◌, Map,
}

-- The priority of an ISR is its NVIC priority: the lower the number, the higher the priority.
pub data Context : Type 0 where
  thread any : Context
  isr : ℕ → Context

-- The possible contexts of each function: `HashMap<String, Vec<Context>>`.
abbrev pub Contexts : Type 0
Contexts = Map (List Context)

unfoldable pub level : Context → ℕ
level thread = 255
level (isr p) = p
level any = 0

unfoldable pub is_isr : Context → Bool
is_isr (isr p) = true
is_isr _ = false

unfoldable pub can_access : Context → ℕ → Bool
can_access thread ceiling = true
can_access any ceiling = true
can_access (isr p) ceiling = leb ceiling p

unfoldable pub needs_critical_section : Context → ℕ → Bool
needs_critical_section thread ceiling = true
needs_critical_section (isr p) ceiling = ltb ceiling p
needs_critical_section any ceiling = true

-- `b` can preempt `a`: an ISR of a priority above that of `a`. A function of unknown context runs
-- at any priority, and preempts whatever it is not masked from.
abbrev pub Preempts : Context → Context → Type 0
Preempts (isr q) a = q < level a
Preempts thread a = ⊥
Preempts any a = Unit

-- A context with access that takes no critical section is an ISR at the ceiling itself, and no ISR with
-- access preempts it.
pub no_section-exclusive :
    (ceiling : ℕ) (a : Context) (q : ℕ)
    → can_access a ceiling ≡ true
    → needs_critical_section a ceiling ≡ false
    → can_access (isr q) ceiling ≡ true
    → (a ≡ isr ceiling) × ¬ Preempts (isr q) a
unfolding can_access needs_critical_section level
no_section-exclusive ceiling thread q h n k = cc
no_section-exclusive ceiling any q h n k = cc
no_section-exclusive ceiling (isr p) q h n k =
    let e : p ≡ ceiling = ground arith in rw e (refl, ground arith)
