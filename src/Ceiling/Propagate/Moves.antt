-- ===== src/Ceiling/Propagate/Moves.antt =====
-- Steps of context propagation, bml-core/src/ceiling.rs: what a loop body does to the contexts
-- found so far.
use beemel.Prelude.{
  ◌*◌, ℕ, ◌+◌, ◌≤◌, ◌<◌, ◌≡◌, refl, subst, ◌∙◌, Text, Bool, true, false, Option, none, some, List,
  [], ◌∷◌, map_or, get, insert, get-insert, text_eq, text_eq_iff, All, Elem, if◌then◌else◌, length,
  Bool-cases, or_right, Option-cases, inl, inr, arith, ==_iff, ◌↔◌,
}
use beemel.Context.{Context, Contexts, thread, any, isr}
use beemel.Ceiling.Propagate.{context_eq, has, Progress, add_context, add_contexts}

pub context_eq_iff : (c d : Context) → (context_eq c d ≡ true) ↔ (c ≡ d)
unfolding context_eq
context_eq_iff thread thread = (λ h. refl, λ h. refl)
context_eq_iff any any = (λ h. refl, λ h. refl)
context_eq_iff (isr p) (isr q) = ground (arith, ==_iff p q)
context_eq_iff thread any = (λ h. cc, λ h. cc)
context_eq_iff thread (isr q) = (λ h. cc, λ h. cc)
context_eq_iff any thread = (λ h. cc, λ h. cc)
context_eq_iff any (isr q) = (λ h. cc, λ h. cc)
context_eq_iff (isr p) thread = (λ h. cc, λ h. cc)
context_eq_iff (isr p) any = (λ h. cc, λ h. cc)

-- A function is in the map; it has the context.
abbrev pub is_known : Contexts → Text → Bool
is_known p k = map_or (get p k) false λ _. true

abbrev pub runs_in : Contexts → Text → Context → Bool
runs_in p k c = map_or (get p k) false λ set. has set c

-- How many of `universe` a set lacks, and all sets together.
pub missing : List Context → List Context → ℕ
missing [] set = 0
missing (u ∷ us) set = (if has set u then 0 else 1) + missing us set

pub total : List Context → Contexts → ℕ
total universe [] = 0
total universe ((n, set) ∷ p) = missing universe set + total universe p

missing-le :
    (us : List Context) (c : Context) (set : List Context) → missing us (c ∷ set) ≤ missing us set
unfolding missing has
missing-le [] c set = omega arith
missing-le (u ∷ us) c set = ground (arith, missing-le us c set)

missing-lt :
    (us : List Context) (c : Context) (set : List Context)
    → Elem c us
    → has set c ≡ false
    → missing us (c ∷ set) < missing us set
unfolding missing has
missing-lt [] c set e h = absurd e
missing-lt (u ∷ us) c set (inl e) h =
    rw (e, (context_eq_iff c c).1 refl, h) (omega (arith, missing-le us c set))
missing-lt (u ∷ us) c set (inr e) h = ground (arith, missing-lt us c set e h)

total-insert :
    (us : List Context) (k : Text) (set new : List Context) (p : Contexts)
    → get p k ≡ some set
    → total us (insert k new p) + missing us set ≡ total us p + missing us new
unfolding total insert
total-insert us k set new [] h = cc
total-insert us k set new ((n, old) ∷ p) h = ground (arith, total-insert us k set new p)

missing-length : (us set : List Context) → missing us set ≤ length us
unfolding missing
missing-length [] set = omega arith
missing-length (u ∷ us) set = ground (arith, missing-length us set)

pub total-length : (us : List Context) (p : Contexts) → total us p ≤ length p * length us
unfolding total
total-length us [] = omega arith
total-length us ((n, set) ∷ p) = grind (arith, missing-length us set, total-length us p)

module _ (J : Text → Context → Type 0) (universe : List Context) where
  -- Every context found for a function is one of `J`.
  abbrev pub SoundAt : Text → Option (List Context) → Type 0
  SoundAt k none = Unit
  SoundAt k (some set) = All (J k) set

  abbrev pub IsSound : Contexts → Type 0
  IsSound p = (k : Text) → SoundAt k (get p k)

  -- What every step does: nothing is lost, and a change adds what was missing.
  pub record Moves (s t : Progress) : Type 0 where
    pub sound : IsSound s.0 → IsSound t.0
    pub less : total universe t.0 ≤ total universe s.0
    pub strict : s.1 ≡ false → t.1 ≡ true → total universe t.0 < total universe s.0
    pub quiet : t.1 ≡ false → (s.1 ≡ false) × (t.0 ≡ s.0)
    pub keys : (k : Text) → is_known t.0 k ≡ is_known s.0 k
    pub grows : (k : Text) (c : Context) → runs_in s.0 k c ≡ true → runs_in t.0 k c ≡ true

  pub Moves-refl : (s : Progress) → Moves s s
  Moves-refl s = record {
    sound = λ h. h;
    less = omega arith;
    strict = λ h k. cc;
    quiet = λ h. (h, refl);
    keys = λ k. refl;
    grows = λ k c h. h;
  }

  pub Moves-trans : (s t u : Progress) → Moves s t → Moves t u → Moves s u
  Moves-trans s t u a b = record {
    sound = λ h. b.sound (a.sound h);
    less = omega (arith, a.less, b.less);
    strict = strictly;
    quiet = λ h. ((a.quiet (b.quiet h).0).0, (b.quiet h).1 ∙ (a.quiet (b.quiet h).0).1);
    keys = λ k. b.keys k ∙ a.keys k;
    grows = λ k c h. b.grows k c (a.grows k c h);
  }
    where
      strictly : s.1 ≡ false → u.1 ≡ true → total universe u.0 < total universe s.0
      strictly e f = elim (Bool-cases t.1) [
        | inl g ↦ omega (arith, a.strict e g, b.less)
        | inr g ↦ omega (arith, b.strict g f, a.less)
      ]

  module _ (k : Text) (c : Context) (justified : J k c) (usual : Elem c universe) (p : Contexts)
      (set : List Context) (known : get p k ≡ some set) (lacks : has set c ≡ false) where
    known_at : (j : Text) → text_eq k j ≡ true → get p j ≡ some set
    known_at j e = subst (λ (m : Text). get p m ≡ some set) ((text_eq_iff k j).0 e) known

    inserted-IsSound : IsSound p → IsSound (insert k (c ∷ set) p)
    inserted-IsSound h j = elim (Bool-cases (text_eq k j)) [
      | inl e ↦
          let same = (text_eq_iff k j).0 e in
          let old = subst (SoundAt k) known (h k) in
          rw (get-insert k j (c ∷ set) p, e)
            (subst (λ (m : Text). J m c × All (J m) set) same (justified, old))
      | inr e ↦ rw (get-insert k j (c ∷ set) p, e) (h j)
    ]

    inserted_keys : (j : Text) → is_known (insert k (c ∷ set) p) j ≡ is_known p j
    inserted_keys j = elim (Bool-cases (text_eq k j)) [
      | inl e ↦ rw (get-insert k j (c ∷ set) p, e, known_at j e) refl
      | inr e ↦ rw (get-insert k j (c ∷ set) p, e) refl
    ]

    inserted_grows :
        (j : Text) (d : Context) → runs_in p j d ≡ true → runs_in (insert k (c ∷ set) p) j d ≡ true
    unfolding has
    inserted_grows j d h = elim (Bool-cases (text_eq k j)) [
      | inl e ↦
          rw (get-insert k j (c ∷ set) p, e) (or_right (context_eq c d) (rw (known_at j e) at h))
      | inr e ↦ rw (get-insert k j (c ∷ set) p, e) h
    ]

    inserted-Moves : (b : Bool) → Moves (p, b) (insert k (c ∷ set) p, true)
    inserted-Moves b =
        let now = total-insert universe k set (c ∷ set) p known in
        let fewer = missing-lt universe c set usual lacks in
        record {
          sound = inserted-IsSound;
          less = omega arith;
          strict = λ h e. omega arith;
          quiet = λ h. cc;
          keys = inserted_keys;
          grows = inserted_grows;
        }

  module _ (k : Text) where
    pub add_context-Moves :
        (c : Context) → J k c → Elem c universe → (s : Progress) → Moves s (add_context k c s)
    unfolding add_context
    add_context-Moves c j u (p, b) = elim (Option-cases (get p k)) [
      | inl e ↦ rw e (Moves-refl (p, b))
      | inr (set, e) ↦ elim (Bool-cases (has set c)) [
        | inl h ↦ rw (e, h) (Moves-refl (p, b))
        | inr h ↦ rw (e, h) (inserted-Moves k c j u p set e h b)
      ]
    ]

    pub add_contexts-Moves :
        (cs : List Context)
        → All (J k) cs
        → All (λ c. Elem c universe) cs
        → (s : Progress) → Moves s (add_contexts k cs s)
    unfolding add_contexts
    add_contexts-Moves [] j u s = Moves-refl s
    add_contexts-Moves (c ∷ cs) j u s =
        Moves-trans s (add_context k c s) (add_contexts k cs (add_context k c s))
          (add_context-Moves c j.0 u.0 s) (add_contexts-Moves cs j.1 u.1 (add_context k c s))

-- Where nothing has changed, the function had the contexts.
pub add_context_had :
    (k : Text) (c : Context) (p : Contexts) (b : Bool)
    → is_known p k ≡ true
    → (add_context k c (p, b)).1 ≡ false
    → runs_in p k c ≡ true
unfolding add_context
add_context_had k c p b known h = ground (arith, known, h)
