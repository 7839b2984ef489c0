-- ===== src/Ceiling/Propagate/Rounds.antt =====
-- In which contexts a function can run by the edges and pointer facts of bml-core/src/ceiling.rs,
-- and what a round of the propagation does about it. The doc comment of `propagate_contexts` leaves
-- pointer calls out; the comment on the pointer-call closure in its body, which they are taken from
-- here, has them in.
use beemel.Prelude.{
  ◌≡◌, ◌≢◌, refl, ap, subst, Text, false, Option, none, some, List, [], ◌∷◌, map_or, Map, get,
  text_eq, is_empty, All, All-append, Elem, All-Elem, Elem→All, Bool-cases, if_holds, Option-cases,
  inl, inr,
}
use beemel.Context.{Context, Contexts, any}
use beemel.Symbols.{FnSymbol}
use beemel.Ceiling.Propagate.{
  context_eq, Progress, PointerCalls, spread_to, spread, follow_edges, pool, close_pointers, round,
}
use beemel.Ceiling.Propagate.Moves.{
  context_eq_iff, SoundAt, IsSound, Moves, Moves-refl, Moves-trans, add_contexts-Moves,
}

-- The contexts that functions are declared with.
abbrev pub declared_contexts : Map FnSymbol → List Context
declared_contexts [] = []
declared_contexts ((n, s) ∷ functions) = s.context ∷ declared_contexts functions

-- A function of unknown context, which runs in the contexts of its callers.
abbrev pub FollowsCallers : Map FnSymbol → Text → Type 0
FollowsCallers functions f = (s : FnSymbol) × (get functions f ≡ some s) × (s.context ≡ any)

-- The function runs in its declared context; one of unknown context runs in those of the functions
-- that mention it and, if its address is taken, in those of every function with an indirect call.
pub data RunsIn (functions : Map FnSymbol) (edges : Map (List Text)) (calls : PointerCalls)
    : Text → Context → Type 0 where
  declared :
      (f : Text) (s : FnSymbol) (c : Context)
      → get functions f ≡ some s
      → s.context ≡ c
      → c ≢ any
      → RunsIn functions edges calls f c
  mentioned :
      (caller : Text) (callees : List Text) (f : Text) (c : Context)
      → Elem (caller, callees) edges
      → Elem f callees
      → FollowsCallers functions f
      → RunsIn functions edges calls caller c
      → RunsIn functions edges calls f c
  by_pointer :
      (caller f : Text) (c : Context)
      → Elem caller calls.indirect_callers
      → Elem f calls.address_taken
      → FollowsCallers functions f
      → RunsIn functions edges calls caller c
      → RunsIn functions edges calls f c

declared-Elem :
    (functions : Map FnSymbol) (f : Text) (s : FnSymbol)
    → get functions f ≡ some s
    → Elem s.context (declared_contexts functions)
declared-Elem [] f s h = cc
declared-Elem ((n, t) ∷ functions) f s h = elim (Bool-cases (text_eq n f)) [
  | inl e ↦ inl (ap (λ (o : Option FnSymbol). map_or o any λ r. r.context) (rw e at h))
  | inr e ↦ inr (declared-Elem functions f s (rw e at h))
]

module _ (functions : Map FnSymbol) (edges : Map (List Text)) (calls : PointerCalls) where
  abbrev pub Runs : Text → Context → Type 0
  Runs = RunsIn functions edges calls

  abbrev pub universe : List Context
  universe = declared_contexts functions

  RunsIn-Elem : {f : Text} {c : Context} → Runs f c → Elem c universe
  RunsIn-Elem (declared f s c e d n) =
      subst (λ (c' : Context). Elem c' universe) d (declared-Elem functions f s e)
  RunsIn-Elem (mentioned caller callees f c e m a r) = RunsIn-Elem r
  RunsIn-Elem (by_pointer caller f c e m a r) = RunsIn-Elem r

  abbrev pub Goes : Progress → Progress → Type 0
  Goes = Moves Runs universe

  -- All of a list of contexts, at the function if it has those of its callers.
  abbrev pub AtCallee : Text → List Context → Type 0
  AtCallee f cs = FollowsCallers functions f → All (Runs f) cs

  pub usual : (f : Text) (cs : List Context) → All (Runs f) cs → All (λ c. Elem c universe) cs
  usual f [] h = tt
  usual f (c ∷ cs) h = (RunsIn-Elem h.0, usual f cs h.1)

  pub spread_to-Goes :
      (f : Text) (cs : List Context)
      → AtCallee f cs
      → (s : Progress) → Goes s (spread_to functions f cs s)
  unfolding spread_to
  spread_to-Goes f cs h s = elim (Option-cases (get functions f)) [
    | inl e ↦ rw e (Moves-refl Runs universe s)
    | inr (sym', e) ↦ elim (Bool-cases (context_eq sym'.context any)) [
      | inl a ↦
          let runs = h (sym', e, (context_eq_iff sym'.context any).0 a) in
          rw (e, a) (add_contexts-Moves Runs universe f cs runs (usual f cs runs) s)
      | inr a ↦ rw (e, a) (Moves-refl Runs universe s)
    ]
  ]

  pub spread-Goes :
      (fs : List Text) (cs : List Context)
      → All (λ f. AtCallee f cs) fs
      → (s : Progress) → Goes s (spread functions fs cs s)
  unfolding spread
  spread-Goes [] cs h s = Moves-refl Runs universe s
  spread-Goes (f ∷ fs) cs h s =
      Moves-trans Runs universe s (spread_to functions f cs s) _ (spread_to-Goes f cs h.0 s)
        (spread-Goes fs cs h.1 (spread_to functions f cs s))

  -- The edges of the call graph that a loop still has to follow.
  abbrev pub Among : Map (List Text) → Type 0
  Among es =
      (caller : Text) (callees : List Text)
      → Elem (caller, callees) es
      → Elem (caller, callees) edges

  -- What an edge brings to its callees.
  pub along :
      (caller : Text) (callees : List Text) (cs : List Context)
      → Elem (caller, callees) edges
      → All (Runs caller) cs
      → All (λ f. AtCallee f cs) callees
  along caller callees cs e h =
      Elem→All (λ f. AtCallee f cs) callees
        λ f m a.
          Elem→All (Runs f) cs
            λ c i. mentioned caller callees f c e m a (All-Elem (Runs caller) c cs h i)

  pub follow_one-Goes :
      (caller : Text) (callees : List Text)
      → Elem (caller, callees) edges
      → (s : Progress) → IsSound Runs universe s.0
      → Goes s (map_or (get s.0 caller) s λ cs. spread functions callees cs s)
  follow_one-Goes caller callees e s h = elim (Option-cases (get s.0 caller)) [
    | inl n ↦ rw n (Moves-refl Runs universe s)
    | inr (cs, n) ↦
        let runs = subst (SoundAt Runs universe caller) n (h caller) in
        rw n (spread-Goes callees cs (along caller callees cs e runs) s)
  ]

  pub follow_edges-Goes :
      (es : Map (List Text))
      → Among es
      → (s : Progress) → IsSound Runs universe s.0
      → Goes s (follow_edges functions es s)
  unfolding follow_edges
  follow_edges-Goes [] a s h = Moves-refl Runs universe s
  follow_edges-Goes ((caller, callees) ∷ es) a s h =
      let one = follow_one-Goes caller callees (a caller callees (inl refl)) s h in
      Moves-trans Runs universe s _ _ one
        (follow_edges-Goes es (λ c cs e. a c cs (inr e)) _ (one.sound h))

  -- A context that a stored pointer brings wherever an address is taken.
  abbrev pub AtTaken : Context → Type 0
  AtTaken c = (f : Text) → Elem f calls.address_taken → FollowsCallers functions f → Runs f c

  caller_pool :
      (caller : Text)
      → Elem caller calls.indirect_callers
      → (o : Option (List Context)) → SoundAt Runs universe caller o
      → All AtTaken (map_or o [] λ cs. cs)
  caller_pool caller e none h = tt
  caller_pool caller e (some cs) h =
      Elem→All AtTaken cs λ c i f m a. by_pointer caller f c e m a (All-Elem (Runs caller) c cs h i)

  pub pool-AtTaken :
      (callers : List Text) (p : Contexts)
      → ((caller : Text) → Elem caller callers → Elem caller calls.indirect_callers)
      → IsSound Runs universe p
      → All AtTaken (pool callers p)
  unfolding pool
  pool-AtTaken [] p a h = tt
  pool-AtTaken (caller ∷ callers) p a h =
      All-append AtTaken (map_or (get p caller) [] λ cs. cs) (pool callers p)
        (caller_pool caller (a caller (inl refl)) (get p caller) (h caller))
        (pool-AtTaken callers p (λ c e. a c (inr e)) h)

  pub at_taken : (cs : List Context) → All AtTaken cs → All (λ f. AtCallee f cs) calls.address_taken
  at_taken cs h =
      Elem→All (λ f. AtCallee f cs) calls.address_taken
        λ f m a. Elem→All (Runs f) cs λ c i. All-Elem AtTaken c cs h i f m a

  pub close_pointers-Goes :
      (s : Progress) → IsSound Runs universe s.0 → Goes s (close_pointers functions calls s)
  unfolding close_pointers
  close_pointers-Goes s h =
      let cs : List Context = pool calls.indirect_callers s.0 in
      if_holds (Goes s) (is_empty cs) _ _ (Moves-refl Runs universe s) (
        spread-Goes calls.address_taken cs
          (at_taken cs (pool-AtTaken calls.indirect_callers s.0 (λ caller e. e) h)) s)

  pub round-Goes :
      (p : Contexts) → IsSound Runs universe p → Goes (p, false) (round functions edges calls p)
  unfolding round
  round-Goes p h =
      let followed = follow_edges-Goes edges (λ c cs e. e) (p, false) h in
      Moves-trans Runs universe (p, false) _ _ followed (close_pointers-Goes _ (followed.sound h))
