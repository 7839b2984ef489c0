-- ===== src/Ceiling/Propagate/Closed.antt =====
-- A round of the propagation of bml-core/src/ceiling.rs that changes nothing has nothing left to do.
use beemel.Prelude.{
  or-true, Elem-append_left, Elem-append_right, ◌≡◌, refl, sym, subst, ◌∙◌, Text, true, false,
  Option, none, some, List, [], ◌∷◌, map_or, Map, get, is_empty, All, Elem, All-Elem, Bool-cases,
  Option-cases, inl, inr,
}
use beemel.Context.{Context, Contexts, any}
use beemel.Symbols.{FnSymbol}
use beemel.Ceiling.Propagate.{
  context_eq, has, Progress, PointerCalls, add_context, add_contexts, spread_to, spread,
  follow_edges, pool, close_pointers, round,
}
use beemel.Ceiling.Propagate.Moves.{
  context_eq_iff, is_known, runs_in, SoundAt, IsSound, add_context-Moves, add_contexts-Moves,
  add_context_had,
}
use beemel.Ceiling.Propagate.Rounds.{
  FollowsCallers, Runs, universe, AtCallee, spread_to-Goes, spread-Goes, Among, along,
  follow_one-Goes, follow_edges-Goes, pool-AtTaken, at_taken, close_pointers-Goes, usual,
}

pub has→Elem : (c : Context) (cs : List Context) → has cs c ≡ true → Elem c cs
unfolding has
has→Elem c [] h = cc
has→Elem c (d ∷ ds) h = elim (or-true (context_eq d c) (has ds c) h) [
  | inl e ↦ inl ((context_eq_iff d c).0 e)
  | inr e ↦ inr (has→Elem c ds e)
]

not_empty : (cs : List Context) (c : Context) → is_empty cs ≡ true → ¬ Elem c cs
not_empty [] c h e = absurd e
not_empty (d ∷ ds) c h e = cc

module _ (functions : Map FnSymbol) (edges : Map (List Text)) (calls : PointerCalls) where
  -- The function has the contexts.
  abbrev Had : Progress → Text → List Context → Type 0
  Had s f cs = All (λ c. runs_in s.0 f c ≡ true) cs

  Had-still : (s t : Progress) (f : Text) (cs : List Context) → t.0 ≡ s.0 → Had t f cs → Had s f cs
  Had-still s t f cs e h = subst (λ (p : Contexts). All (λ c. runs_in p f c ≡ true) cs) e h

  add_contexts-Had :
      (f : Text) (cs : List Context)
      → All (Runs functions edges calls f) cs
      → (s : Progress) → is_known s.0 f ≡ true
      → (add_contexts f cs s).1 ≡ false
      → Had s f cs
  unfolding add_contexts
  add_contexts-Had f [] j s k h = tt
  add_contexts-Had f (c ∷ cs) j s k h =
      let us = usual functions edges calls f (c ∷ cs) j in
      let R = Runs functions edges calls in
      let t = add_context f c s in
      let one = add_context-Moves R (universe functions edges calls) f c j.0 us.0 s in
      let rest = add_contexts-Moves R (universe functions edges calls) f cs j.1 us.1 t in
      let quiet = (rest.quiet h).0 in
      (
        add_context_had f c s.0 s.1 k quiet,
        Had-still s t f cs (one.quiet quiet).1 (add_contexts-Had f cs j.1 t (one.keys f ∙ k) h),
      )

  spread_to-Had :
      (f : Text) (cs : List Context)
      → AtCallee functions edges calls f cs
      → (s : Progress) → (spread_to functions f cs s).1 ≡ false
      → FollowsCallers functions f
      → is_known s.0 f ≡ true
      → Had s f cs
  unfolding spread_to
  spread_to-Had f cs j s h (r, e, a) k =
      add_contexts-Had f cs (j (r, e, a)) s k (rw (e, (context_eq_iff r.context any).1 a) at h)

  spread-Had :
      (fs : List Text) (cs : List Context)
      → All (λ f. AtCallee functions edges calls f cs) fs
      → (s : Progress) → (spread functions fs cs s).1 ≡ false
      → (f : Text) → Elem f fs
      → FollowsCallers functions f
      → is_known s.0 f ≡ true
      → Had s f cs
  unfolding spread
  spread-Had [] cs j s h f e a k = absurd e
  spread-Had (g ∷ fs) cs j s h f (inl e) a k =
      let t = spread_to functions g cs s in
      let quiet = ((spread-Goes functions edges calls fs cs j.1 t).quiet h).0 in
      subst (λ (x : Text). FollowsCallers functions x → is_known s.0 x ≡ true → Had s x cs) e
        (spread_to-Had g cs j.0 s quiet) a k
  spread-Had (g ∷ fs) cs j s h f (inr e) a k =
      let t = spread_to functions g cs s in
      let one = spread_to-Goes functions edges calls g cs j.0 s in
      let quiet = ((spread-Goes functions edges calls fs cs j.1 t).quiet h).0 in
      Had-still s t f cs (one.quiet quiet).1 (spread-Had fs cs j.1 t h f e a (one.keys f ∙ k))

  -- A function of unknown context among `fs` has the contexts of the caller.
  abbrev pub Followed : Contexts → Text → List Text → Type 0
  Followed p caller fs =
      (f : Text) (c : Context)
      → Elem f fs
      → FollowsCallers functions f
      → is_known p f ≡ true
      → runs_in p caller c ≡ true
      → runs_in p f c ≡ true

  abbrev Sound : Contexts → Type 0
  Sound = IsSound (Runs functions edges calls) (universe functions edges calls)

  follow_one_had :
      (caller : Text) (callees : List Text)
      → Elem (caller, callees) edges
      → (s : Progress) → Sound s.0
      → (map_or (get s.0 caller) s λ cs. spread functions callees cs s).1 ≡ false
      → Followed s.0 caller callees
  follow_one_had caller callees e s sound h f c m a k r = elim (Option-cases (get s.0 caller)) [
    | inl n ↦ absurd (nowhere (rw n at r))
    | inr (cs, n) ↦
        let runs =
          subst (SoundAt (Runs functions edges calls) (universe functions edges calls) caller) n
            (sound caller) in
        let had =
          spread-Had callees cs (along functions edges calls caller callees cs e runs) s (rw n at h)
            f m a k in
        All-Elem (λ d. runs_in s.0 f d ≡ true) c cs had (has→Elem c cs (rw n at r))
  ]
    where
      nowhere : ¬ (false ≡ true)
      nowhere q = cc

  follow_edges_had :
      (es : Map (List Text))
      → Among functions edges calls es
      → (s : Progress) → Sound s.0
      → (follow_edges functions es s).1 ≡ false
      → (caller : Text) (callees : List Text) → Elem (caller, callees) es
      → Followed s.0 caller callees
  unfolding follow_edges
  follow_edges_had [] w s sound h caller callees e = absurd e
  follow_edges_had ((x, xs) ∷ es) w s sound h caller callees e =
      let one = follow_one-Goes functions edges calls x xs (w x xs (inl refl)) s sound in
      let w' = λ (y : Text) (ys : List Text) (i : Elem (y, ys) es). w y ys (inr i) in
      let t : Progress = map_or (get s.0 x) s λ cs. spread functions xs cs s in
      let quiet = ((follow_edges-Goes functions edges calls es w' t (one.sound sound)).quiet h).0 in
      elim e [
        | inl here ↦
            subst (λ (y : Text × List Text). Followed s.0 y.0 y.1) here
              (follow_one_had x xs (w x xs (inl refl)) s sound quiet)
        | inr later ↦
            subst (λ (p : Contexts). Followed p caller callees) (one.quiet quiet).1
              (follow_edges_had es w' t (one.sound sound) h caller callees later)
      ]

  pool-Elem :
      (callers : List Text) (p : Contexts) (caller : Text) (c : Context)
      → Elem caller callers
      → runs_in p caller c ≡ true
      → Elem c (pool callers p)
  unfolding pool
  pool-Elem [] p caller c e r = absurd e
  pool-Elem (x ∷ xs) p caller c (inr e) r =
      Elem-append_right c (map_or (get p x) [] λ cs. cs) _ (pool-Elem xs p caller c e r)
  pool-Elem (x ∷ xs) p caller c (inl e) r =
      Elem-append_left c _ (pool xs p) (of_entry (get p x) refl)
    where
      of_entry : (o : Option (List Context)) → get p x ≡ o → Elem c (map_or o [] λ cs. cs)
      of_entry none n = cc (rw (sym e, n) at r)
      of_entry (some cs) n = has→Elem c cs (rw (sym e, n) at r)

  close_pointers_had :
      (s : Progress)
      → Sound s.0
      → (close_pointers functions calls s).1 ≡ false
      → (caller : Text) → Elem caller calls.indirect_callers
      → Followed s.0 caller calls.address_taken
  unfolding close_pointers
  close_pointers_had s sound h caller e f c m a k r =
      let cs : List Context = pool calls.indirect_callers s.0 in
      let here = pool-Elem calls.indirect_callers s.0 caller c e r in
      let runs =
        at_taken functions edges calls cs
          (pool-AtTaken functions edges calls calls.indirect_callers s.0 (λ x i. i) sound) in
      elim (Bool-cases (is_empty cs)) [
        | inl n ↦ absurd (not_empty cs c n here)
        | inr n ↦
            All-Elem (λ d. runs_in s.0 f d ≡ true) c cs
              (spread-Had calls.address_taken cs runs s (rw n at h) f m a k) here
      ]

  -- Nothing is left to do along an edge, or through a pointer.
  pub record IsClosed (p : Contexts) : Type 0 where
    pub by_edge :
        (caller : Text) (callees : List Text)
        → Elem (caller, callees) edges
        → Followed p caller callees
    pub through_pointer :
        (caller : Text) → Elem caller calls.indirect_callers → Followed p caller calls.address_taken

  pub round-IsClosed :
      (p : Contexts) → Sound p → (round functions edges calls p).1 ≡ false → IsClosed p
  unfolding round
  round-IsClosed p sound h =
      let followed = follow_edges-Goes functions edges calls edges (λ c cs e. e) (p, false) sound in
      let t = follow_edges functions edges (p, false) in
      let now = followed.sound sound in
      let quiet = ((close_pointers-Goes functions edges calls t now).quiet h).0 in
      let still = (followed.quiet quiet).1 in
      record {
        by_edge = follow_edges_had edges (λ c cs e. e) (p, false) sound quiet;
        through_pointer = λ caller e.
            subst (λ (q : Contexts). Followed q caller calls.address_taken) still
              (close_pointers_had t now h caller e);
      }
