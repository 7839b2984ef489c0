-- ===== src/Stack/Chains.antt =====
-- Chains of calls, and the depths that bml-core/src/stack.rs computes for them.
use beemel.Prelude.{
  ℕ, ◌+◌, ◌≤◌, ◌<◌, ◌≡◌, ◌⊎◌, refl, sym, ap, subst, ◌∙◌, Text, Bool, true, false, none, some, List,
  [], ◌∷◌, map_or, Map, get, insert, get-insert, ltb, text_eq, text_eq_iff, Elem, if◌then◌else◌,
  Bool-cases, inl, inr, arith,
}
use beemel.Stack.Run.{Yields, Yields-bind, Yields-map, Yields-u32_of}
use beemel.Stack.Info.{FnFrameInfo}
use beemel.Stack.Depth.{Visited, Visit, deepest, all_callees, visit_callees}

greater :
    (m d : ℕ)
    → (m ≤ (if ltb m d then d else m))
      × (d ≤ (if ltb m d then d else m))
      × (((if ltb m d then d else m) ≡ m) ⊎ ((if ltb m d then d else m) ≡ d))
greater m d = ground arith

module _ (infos : Map FnFrameInfo) (defined_fns : List Text) where
  -- A chain of calls from a function and the sum of its frames: it ends anywhere, and a function
  -- that is not defined here, such as an external one, counts nothing.
  pub data Chain : Text → ℕ → Type 0 where
    unknown : (n : Text) → get infos n ≡ none → Chain n 0
    stop :
        (n : Text) (info : FnFrameInfo) (s : ℕ)
        → get infos n ≡ some info
        → s ≡ info.frame
        → Chain n s
    call :
        (n : Text) (info : FnFrameInfo) (c : Text) (t s : ℕ)
        → get infos n ≡ some info
        → Elem c (all_callees defined_fns n info)
        → Chain c t
        → s ≡ info.frame + t
        → Chain n s

  -- The greatest sum over the chains from a function.
  pub record IsDepth (n : Text) (d : ℕ) : Type 0 where
    pub reached : Chain n d
    pub greatest : (s : ℕ) → Chain n s → s ≤ d

  -- No function calls itself, directly or through others: calls go down in rank.
  abbrev pub IsRanked : (Text → ℕ) → Type 0
  IsRanked rank =
      (n : Text) (info : FnFrameInfo) (c : Text)
      → get infos n ≡ some info
      → Elem c (all_callees defined_fns n info)
      → rank c < rank n

  abbrev pub seen : Visited → Text → Bool
  seen v n = map_or (get v n) false λ _. true

  abbrev pub IsSound : Visited → Type 0
  IsSound v = (n : Text) (d : ℕ) → get v n ≡ some d → IsDepth n d

  -- What a visit brings.
  pub record Visits (n : Text) (v : Visited) (r : ℕ × Visited) : Type 0 where
    pub depth : IsDepth n r.0
    pub sound : IsSound r.1
    pub keeps : (m : Text) → seen v m ≡ true → seen r.1 m ≡ true
    pub done : (info : FnFrameInfo) → get infos n ≡ some info → seen r.1 n ≡ true

  -- What the loop over callees brings.
  record Collects (cs : List Text) (m : ℕ) (v : Visited) (r : ℕ × Visited) : Type 0 where
    sound : IsSound r.1
    keeps : (n : Text) → seen v n ≡ true → seen r.1 n ≡ true
    least : m ≤ r.0
    greatest : (c : Text) (s : ℕ) → Elem c cs → Chain c s → s ≤ r.0
    reached : (r.0 ≡ m) ⊎ ((c : Text) × Elem c cs × Chain c r.0)

  collect_step :
      (c : Text) (cs : List Text) (m : ℕ) (v : Visited) (r q : ℕ × Visited)
      → Visits c v r
      → Collects cs (if ltb m r.0 then r.0 else m) r.1 q
      → Collects (c ∷ cs) m v q
  collect_step c cs m v r q a b =
      let (above, over, which) = greater m r.0 in
      record {
        sound = b.sound;
        keeps = λ n k. b.keeps n (a.keeps n k);
        least = omega (arith, above, b.least);
        greatest = λ x s e k. elim e [
          | inl i ↦
              let small = a.depth.greatest s (subst (λ (y : Text). Chain y s) (sym i) k) in
              omega (arith, small, over, b.least)
          | inr i ↦ b.greatest x s i k
        ];
        reached = elim b.reached [
          | inl i ↦ elim which [
            | inl j ↦ inl (i ∙ j)
            | inr j ↦ inr (c, inl refl, subst (λ (y : ℕ). Chain c y) (sym (i ∙ j)) a.depth.reached)
          ]
          | inr (x, e, k) ↦ inr (x, inr e, k)
        ];
      }

  deepest-Collects :
      (visit : Visit) (cs : List Text)
      → ((c : Text) (v : Visited) → Elem c cs → IsSound v → Yields (Visits c v) (visit c v))
      → (m : ℕ) (v : Visited) → IsSound v
      → Yields (Collects cs m v) (deepest visit cs m v)
  unfolding deepest
  deepest-Collects visit [] h m v sound = record {
    sound = sound;
    keeps = λ n k. k;
    least = omega arith;
    greatest = λ c s e. absurd e;
    reached = inl refl;
  }
  deepest-Collects visit (c ∷ cs) h m v sound =
      Yields-bind (Visits c v) (Collects (c ∷ cs) m v) (visit c v) _ (h c v (inl refl) sound) λ r a.
        let more : ℕ = if ltb m r.0 then r.0 else m in
        Yields-map (Collects cs more r.1) (Collects (c ∷ cs) m v) _
          (λ q b. collect_step c cs m v r q a b)
          (deepest-Collects visit cs (λ x w e. h x w (inr e)) more r.1 a.sound)

  same_info : {i j : FnFrameInfo} (n : Text) → get infos n ≡ some i → get infos n ≡ some j → i ≡ j
  same_info {i} {j} n e h = some_injective (sym e ∙ h)
    where
      some_injective : some i ≡ some j → i ≡ j
      some_injective k = cc

  -- A chain from a known function stops there or goes on in a callee.
  Chain-goes :
      {n : Text} {s : ℕ}
      → Chain n s
      → (info : FnFrameInfo) → get infos n ≡ some info
      → (s ≡ info.frame)
        ⊎ ((c : Text) × (t : ℕ) × Elem c (all_callees defined_fns n info)
            × Chain c t
            × (s ≡ info.frame + t))
  Chain-goes (unknown n e) info h = absurd (nowhere (sym e ∙ h))
    where
      nowhere : ¬ (none ≡ some info)
      nowhere k = cc
  Chain-goes (stop n i s e f) info h = inl (f ∙ ap (λ (j : FnFrameInfo). j.frame) (same_info n e h))
  Chain-goes (call n i c t s e m k f) info h =
      let same = same_info n e h in
      inr (
        c,
        t,
        subst (λ (j : FnFrameInfo). Elem c (all_callees defined_fns n j)) same m,
        k,
        f ∙ ap (λ (j : FnFrameInfo). j.frame + t) same,
      )

  pub Chain-ends : {n : Text} {s : ℕ} → Chain n s → get infos n ≡ none → s ≡ 0
  Chain-ends (unknown n e) h = refl
  Chain-ends (stop n i s e f) h = absurd (nowhere (sym h ∙ e))
    where
      nowhere : ¬ (none ≡ some i)
      nowhere k = cc
  Chain-ends (call n i c t s e m k f) h = absurd (nowhere (sym h ∙ e))
    where
      nowhere : ¬ (none ≡ some i)
      nowhere q = cc

  total-IsDepth :
      (n : Text) (info : FnFrameInfo) (v : Visited) (r : ℕ × Visited) (total : ℕ)
      → get infos n ≡ some info
      → Collects (all_callees defined_fns n info) 0 v r
      → total ≡ info.frame + r.0
      → IsDepth n total
  total-IsDepth n info v r total known b e = record {
    reached = elim b.reached [
      | inl z ↦ stop n info total known (omega arith)
      | inr (c, m, k) ↦ call n info c r.0 total known m k e
    ];
    greatest = λ s k. elim (Chain-goes k info known) [
      | inl q ↦ omega arith
      | inr (c, t, m, k', q) ↦ omega (arith, b.greatest c t m k')
    ];
  }

  insert-IsSound :
      (n : Text) (d : ℕ) (v : Visited) → IsDepth n d → IsSound v → IsSound (insert n d v)
  insert-IsSound n d v good sound m e h = elim (Bool-cases (text_eq n m)) [
    | inl q ↦
        subst (λ (k : ℕ). IsDepth m k) (some_injective e (rw (get-insert n m d v, q) at h))
          (subst (λ (x : Text). IsDepth x d) ((text_eq_iff n m).0 q) good)
    | inr q ↦ sound m e (rw (get-insert n m d v, q) at h)
  ]
    where
      some_injective : (y : ℕ) → some d ≡ some y → d ≡ y
      some_injective y k = cc

  pub seen-insert :
      (n : Text) (d : ℕ) (v : Visited) (m : Text) → seen v m ≡ true → seen (insert n d v) m ≡ true
  seen-insert n d v m h = elim (Bool-cases (text_eq n m)) [
    | inl q ↦ rw (get-insert n m d v, q) refl
    | inr q ↦ rw (get-insert n m d v, q) h
  ]

  seen-insert_self : (n : Text) (d : ℕ) (v : Visited) → seen (insert n d v) n ≡ true
  seen-insert_self n d v = rw (get-insert n n d v, (text_eq_iff n n).1 refl) refl

  pub visit_callees-Visits :
      (visit : Visit) (n : Text) (info : FnFrameInfo) (v : Visited)
      → get infos n ≡ some info
      → ((c : Text) (w : Visited)
          → Elem c (all_callees defined_fns n info)
          → IsSound w
          → Yields (Visits c w) (visit c w))
      → IsSound v
      → Yields (Visits n v) (visit_callees infos defined_fns visit n info v)
  unfolding visit_callees
  visit_callees-Visits visit n info v known h sound =
      Yields-bind (Collects (all_callees defined_fns n info) 0 v) (Visits n v) _ _
        (deepest-Collects visit (all_callees defined_fns n info) h 0 v sound)
        λ r b.
          Yields-bind (λ t. t ≡ info.frame + r.0) (Visits n v) _ _
            (Yields-u32_of (info.frame + r.0))
            λ t e.
              let good = total-IsDepth n info v r t known b e in
              record {
                depth = good;
                sound = insert-IsSound n t r.1 good b.sound;
                keeps = λ m k. seen-insert n t r.1 m (b.keeps m k);
                done = λ i k. seen-insert_self n t r.1;
              }
