-- ===== src/Stack/Search.antt =====
-- The depths of bml-core/src/stack.rs where no function is recursive.
use beemel.Prelude.{
  ℕ, zero, suc, ◌≤◌, ◌<◌, ◌≡◌, refl, sym, ap, subst, ◌∙◌, Text, true, false, Option, none, some,
  List, [], ◌∷◌, map_or, Map, get, contains, length, text_eq, text_eq_iff, All, or-true, Bool-cases,
  Option-cases, inl, inr, arith,
}
use beemel.Ast.Items.{Program}
use beemel.Symbols.{SymbolTable}
use beemel.Stack.Run.{checked, Ensures, Yields, Yields-bind, Yields-map, Ends-Yields}
use beemel.Stack.Info.{FnFrameInfo, build_defined_fn_set, collect_infos}
use beemel.Stack.Depth.{
  Visited, propagate_depth, propagate_all, StackEntry, StackReport, build_entries, analyze,
}
use beemel.Stack.Fuel.{analyze-Ends}
use beemel.Stack.Chains.{
  unknown, IsDepth, IsRanked, seen, IsSound, Visits, Chain-ends, visit_callees-Visits,
}

contains-All :
    (P : Text → Type 0) (xs : List Text) (n : Text) → contains xs n ≡ true → All P xs → P n
contains-All P [] n h a = cc
contains-All P (x ∷ xs) n h a = elim (or-true (text_eq x n) (contains xs n) h) [
  | inl e ↦ subst P ((text_eq_iff x n).0 e) a.0
  | inr e ↦ contains-All P xs n e a.1
]

All-below :
    (rank : Text → ℕ) (a b : ℕ) (path : List Text)
    → a < b
    → All (λ p. b < rank p) path
    → All (λ p. a < rank p) path
All-below rank a b [] h k = tt
All-below rank a b (p ∷ path) h k = (less k.0, All-below rank a b path h k.1)
  where
    less : b < rank p → a < rank p
    less q = omega arith

module _ (infos : Map FnFrameInfo) (defined_fns : List Text) (rank : Text → ℕ)
    (ranked : IsRanked infos defined_fns rank) where
  propagate_depth-Visits :
      (fuel : ℕ) (path : List Text) (n : Text) (v : Visited)
      → All (λ p. rank n < rank p) path
      → IsSound infos defined_fns v
      → Yields (Visits infos defined_fns n v) (propagate_depth infos defined_fns fuel path n v)
  unfolding propagate_depth
  propagate_depth-Visits zero path n v above sound = tt
  propagate_depth-Visits (suc fuel) path n v above sound = elim (Option-cases (get v n)) [
    | inr (d, e) ↦
        rw e
          (record { depth = sound n d e; sound = sound; keeps = λ m k. k; done = λ i k. rw e refl })
    | inl e ↦ elim (Option-cases (get infos n)) [
      | inl i ↦
          rw (e, i)
            (record {
              depth = record {
                reached = unknown n i;
                greatest = λ s k. none_left s (Chain-ends infos defined_fns k i);
              };
              sound = sound;
              keeps = λ m k. k;
              done = λ info k. absurd (nowhere info (sym i ∙ k));
            })
      | inr (info, i) ↦ elim (Bool-cases (contains path n)) [
        | inl c ↦ absurd (not_below (contains-All (λ p. rank n < rank p) path n c above))
        | inr c ↦
            rw (e, i, c)
              (visit_callees-Visits infos defined_fns
                (propagate_depth infos defined_fns fuel (n ∷ path)) n info v i
                (λ x w m.
                  let down = ranked n info x i m in
                  propagate_depth-Visits fuel (n ∷ path) x w
                    (down, All-below rank (rank x) (rank n) path down above))
                sound)
      ]
    ]
  ]
    where
      not_below : ¬ (rank n < rank n)
      not_below q = omega arith

      none_left : (s : ℕ) → s ≡ 0 → s ≤ 0
      none_left s q = omega arith

      nowhere : (info : FnFrameInfo) → ¬ (none ≡ some info)
      nowhere info q = cc

  -- What the outer loop brings.
  record Finds (rest : Map FnFrameInfo) (v w : Visited) : Type 0 where
    sound : IsSound infos defined_fns w
    keeps : (m : Text) → seen infos defined_fns v m ≡ true → seen infos defined_fns w m ≡ true
    done : All (λ e. seen infos defined_fns w e.0 ≡ true) rest

  -- Defined functions.
  abbrev AreKnown : Map FnFrameInfo → Type 0
  AreKnown rest = All (λ e. (info : FnFrameInfo) × (get infos e.0 ≡ some info)) rest

  propagate_all-Finds :
      (fuel : ℕ) (rest : Map FnFrameInfo) (v : Visited)
      → AreKnown rest
      → IsSound infos defined_fns v
      → Yields (Finds rest v) (propagate_all infos defined_fns fuel rest v)
  unfolding propagate_all
  propagate_all-Finds fuel [] v known sound = record { sound = sound; keeps = λ m k. k; done = tt }
  propagate_all-Finds fuel ((n, i) ∷ rest) v ((info, e), known) sound =
      Yields-bind (Visits infos defined_fns n v) (Finds ((n, i) ∷ rest) v) _ _
        (propagate_depth-Visits fuel [] n v tt sound)
        λ r a.
          Yields-map (Finds rest r.1) (Finds ((n, i) ∷ rest) v) _
            (λ w b. record {
              sound = b.sound;
              keeps = λ m k. b.keeps m (a.keeps m k);
              done = (b.keeps n (a.done info e), b.done);
            })
            (propagate_all-Finds fuel rest r.1 known a.sound)

  entry-IsDepth :
      (visited : Visited)
      → IsSound infos defined_fns visited
      → (rest : Map FnFrameInfo) → All (λ e. seen infos defined_fns visited e.0 ≡ true) rest
      → (n : Text) (entry : StackEntry) → get (build_entries visited rest) n ≡ some entry
      → IsDepth infos defined_fns n entry.max_depth
  unfolding build_entries
  entry-IsDepth visited sound [] done n entry h = cc
  entry-IsDepth visited sound ((m, i) ∷ rest) done n entry h = elim (Bool-cases (text_eq m n)) [
    | inr e ↦ entry-IsDepth visited sound rest done.1 n entry (rw e at h)
    | inl e ↦ elim (Option-cases (get visited m)) [
      | inl k ↦ absurd (unseen (rw k at done.0))
      | inr (d, k) ↦
          subst (λ (x : Text). IsDepth infos defined_fns x entry.max_depth) ((text_eq_iff m n).0 e)
            (subst (λ (x : ℕ). IsDepth infos defined_fns m x)
              (depth_of (map_or (get visited m) i.frame λ x. x) d (rw k refl) (rw e at h))
              (sound m d k))
    ]
  ]
    where
      unseen : ¬ (false ≡ true)
      unseen q = cc

      depth_of :
          (x d : ℕ)
          → x ≡ d
          → some (record { frame = i.frame; callees = i.direct_callees; max_depth = x })
            ≡ some entry
          → d ≡ entry.max_depth
      depth_of x d q k = sym q ∙ ap (λ (o : Option StackEntry). map_or o x λ y. y.max_depth) k

keys-tail :
    (m : Map FnFrameInfo) (n : Text) (i : FnFrameInfo) (rest : Map FnFrameInfo)
    → All (λ e. (info : FnFrameInfo) × (get m e.0 ≡ some info)) rest
    → All (λ e. (info : FnFrameInfo) × (get ((n, i) ∷ m) e.0 ≡ some info)) rest
keys-tail m n i [] h = tt
keys-tail m n i ((k, j) ∷ rest) ((info, e), h) = (either, keys-tail m n i rest h)
  where
    either : (found : FnFrameInfo) × (get ((n, i) ∷ m) k ≡ some found)
    either = elim (Bool-cases (text_eq n k)) [ inl q ↦ (i, rw q refl) | inr q ↦ (info, rw q e) ]

keys-known : (m : Map FnFrameInfo) → All (λ e. (info : FnFrameInfo) × (get m e.0 ≡ some info)) m
keys-known [] = tt
keys-known ((n, i) ∷ m) =
    ((i, rw ((text_eq_iff n n).1 refl) refl), keys-tail m n i m (keys-known m))

-- Where no function is recursive, the analysis stays within its fuel, and unless a sum overflows, the
-- depth that it reports for a function is the greatest sum of frames over the chains of calls from it.
pub analyze-IsDepth :
    (program : Program) (symbols : SymbolTable) (infos : Map FnFrameInfo) (rank : Text → ℕ)
    → collect_infos symbols (build_defined_fn_set program.items) program.items [] ≡ some infos
    → IsRanked infos (build_defined_fn_set program.items) rank
    → Ensures
        (λ report.
          (n : Text) (entry : StackEntry)
          → get report.entries n ≡ some entry
          → IsDepth infos (build_defined_fn_set program.items) n entry.max_depth)
        (analyze program symbols)
unfolding analyze checked
analyze-IsDepth program symbols infos rank collected ranked =
    Ends-Yields _ (analyze program symbols) (analyze-Ends program symbols) found
  where
    reports : StackReport → Type 0
    reports report =
        (n : Text) (entry : StackEntry)
        → get report.entries n ≡ some entry
        → IsDepth infos (build_defined_fn_set program.items) n entry.max_depth

    found : Yields reports (analyze program symbols)
    found =
        let fns = build_defined_fn_set program.items in
        rw collected (
          Yields-bind (Finds infos fns rank ranked infos []) reports
            (propagate_all infos fns (suc (length infos)) infos []) _
            (propagate_all-Finds infos fns rank ranked (suc (length infos)) infos []
              (keys-known infos) λ n d h. cc)
            λ w b. entry-IsDepth infos fns rank ranked w b.sound infos b.done)
