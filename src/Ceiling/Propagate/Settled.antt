-- ===== src/Ceiling/Propagate/Settled.antt =====
-- The rounds of `propagate_contexts` of bml-core/src/ceiling.rs come to an end.
use beemel.Prelude.{
  ℕ, zero, suc, ◌*◌, ◌<◌, ◌≡◌, ◌≢◌, refl, ap, ◌∙◌, Text, true, false, Option, none, some, List, [],
  ◌∷◌, map_or, Map, get, length, Bool-cases, inl, inr, arith,
}
use beemel.Context.{Context, Contexts, any}
use beemel.Symbols.{FnSymbol}
use beemel.Ceiling.Propagate.{
  context_eq, Progress, PointerCalls, round, rounds, unless_changed, initial, starts_in, enough,
}
use beemel.Ceiling.Propagate.Moves.{
  context_eq_iff, is_known, runs_in, total, total-length, SoundAt, IsSound,
}
use beemel.Ceiling.Propagate.Rounds.{declared, declared_contexts, Runs, universe, round-Goes}
use beemel.Ceiling.Propagate.Closed.{IsClosed, round-IsClosed}

pub get-initial :
    (functions : Map FnSymbol) (k : Text)
    → get (initial functions) k ≡ map_or (get functions k) none (λ s. some (starts_in s))
unfolding initial starts_in
get-initial [] k = refl
get-initial ((n, s) ∷ functions) k = ground (arith, get-initial functions k)

length-initial : (functions : Map FnSymbol) → length (initial functions) ≡ length functions
unfolding initial
length-initial [] = refl
length-initial (f ∷ functions) = ap suc (length-initial functions)

length-declared_contexts :
    (functions : Map FnSymbol) → length (declared_contexts functions) ≡ length functions
length-declared_contexts [] = refl
length-declared_contexts (f ∷ functions) = ap suc (length-declared_contexts functions)

unless_changed-false :
    (s : Progress) (again : Contexts → Option Contexts)
    → s.1 ≡ false
    → unless_changed s again ≡ some s.0
unfolding unless_changed
unless_changed-false (p, true) again h = cc
unless_changed-false (p, false) again h = refl

unless_changed-true :
    (s : Progress) (again : Contexts → Option Contexts)
    → s.1 ≡ true
    → unless_changed s again ≡ again s.0
unfolding unless_changed
unless_changed-true (p, true) again h = refl
unless_changed-true (p, false) again h = cc

module _ (functions : Map FnSymbol) (edges : Map (List Text)) (calls : PointerCalls) where
  abbrev Sound : Contexts → Type 0
  Sound = IsSound (Runs functions edges calls) (universe functions edges calls)

  -- What the rounds from `p` arrive at.
  pub record Settles (p q : Contexts) : Type 0 where
    pub sound : IsSound (Runs functions edges calls) (universe functions edges calls) q
    pub closed : IsClosed functions edges calls q
    pub keys : (k : Text) → is_known q k ≡ is_known p k
    pub grows : (k : Text) (c : Context) → runs_in p k c ≡ true → runs_in q k c ≡ true

  rounds-Settles :
      (fuel : ℕ) (p : Contexts)
      → Sound p
      → total (universe functions edges calls) p < fuel
      → (q : Contexts) × (rounds functions edges calls fuel p ≡ some q) × Settles p q
  unfolding rounds
  rounds-Settles zero p sound lt = absurd (omega arith)
  rounds-Settles (suc fuel) p sound lt =
      let goes = round-Goes functions edges calls p sound in
      let s : Progress = round functions edges calls p in
      elim (Bool-cases s.1) [
        | inl e ↦
            let (q, ends, r) =
              rounds-Settles fuel s.0 (goes.sound sound) (omega (arith, goes.strict refl e)) in
            (
              q,
              unless_changed-true s (rounds functions edges calls fuel) e ∙ ends,
              record {
                sound = r.sound;
                closed = r.closed;
                keys = λ k. r.keys k ∙ goes.keys k;
                grows = λ k c h. r.grows k c (goes.grows k c h);
              },
            )
        | inr e ↦ (
          p,
          unless_changed-false s (rounds functions edges calls fuel) e
              ∙ ap (λ (q : Contexts). some q) (goes.quiet e).1,
          record {
            sound = sound;
            closed = round-IsClosed functions edges calls p sound e;
            keys = λ k. refl;
            grows = λ k c h. h;
          },
        )
      ]

  initial-SoundAt :
      (k : Text) (o : Option FnSymbol)
      → get functions k ≡ o
      → SoundAt
          (Runs functions edges calls)
          (universe functions edges calls)
          k
          (map_or o none λ s. some (starts_in s))
  unfolding starts_in
  initial-SoundAt k none e = tt
  initial-SoundAt k (some s) e = elim (Bool-cases (context_eq s.context any)) [
    | inl a ↦ rw a tt
    | inr a ↦ rw a (declared k s s.context e refl (concrete a), tt)
  ]
    where
      concrete : context_eq s.context any ≡ false → s.context ≢ any
      concrete a h = let t = (context_eq_iff s.context any).1 h in cc

  initial-IsSound : Sound (initial functions)
  initial-IsSound k = rw (get-initial functions k) (initial-SoundAt k (get functions k) refl)

  small : total (universe functions edges calls) (initial functions) < enough functions
  unfolding enough
  small =
      let bound = total-length (declared_contexts functions) (initial functions) in
      let same : length (initial functions) * length (declared_contexts functions)
          ≡ length functions * length functions =
        rw (length-initial functions, length-declared_contexts functions) refl in
      omega arith

  pub settled :
      (q : Contexts) × (rounds functions edges calls (enough functions) (initial functions)
        ≡ some q)
      × Settles (initial functions) q
  settled = rounds-Settles (enough functions) (initial functions) initial-IsSound small
