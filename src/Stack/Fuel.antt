-- ===== src/Stack/Fuel.antt =====
-- The search of bml-core/src/stack.rs ends on every call graph, recursive ones too: a path of calls
-- has no function twice.
use beemel.Prelude.{
  ℕ, zero, suc, ◌+◌, ◌≤◌, ◌<◌, ◌≡◌, ◌≢◌, refl, Text, false, Option, none, some, List, [], ◌∷◌, Map,
  get, contains, length, ltb, text_eq, text_eq_iff, if◌then◌else◌, Bool-cases, Option-cases, inl,
  inr, arith,
}
use beemel.Ast.Items.{Program}
use beemel.Symbols.{SymbolTable}
use beemel.Stack.Run.{Run, ok, overflow, out_of_fuel, checked, Ends, Ensures-bind, Ensures-u32_of}
use beemel.Stack.Info.{FnFrameInfo, build_defined_fn_set, collect_infos}
use beemel.Stack.Depth.{
  Visited, Visit, deepest, all_callees, visit_callees, propagate_depth, propagate_all, analyze,
}

-- The functions that are not on the path.
remaining : Map FnFrameInfo → List Text → ℕ
remaining [] path = 0
remaining ((n, _) ∷ infos) path = (if contains path n then 0 else 1) + remaining infos path

remaining-le :
    (infos : Map FnFrameInfo) (n : Text) (path : List Text)
    → remaining infos (n ∷ path) ≤ remaining infos path
unfolding remaining
remaining-le [] n path = omega arith
remaining-le ((m, _) ∷ infos) n path = ground (arith, remaining-le infos n path)

remaining-lt :
    (infos : Map FnFrameInfo) (n : Text) (path : List Text) (info : FnFrameInfo)
    → get infos n ≡ some info
    → contains path n ≡ false
    → remaining infos (n ∷ path) < remaining infos path
unfolding remaining
remaining-lt [] n path info h c = cc
remaining-lt ((m, i) ∷ infos) n path info h c = elim (Bool-cases (text_eq m n)) [
  | inl e ↦
      rw ((text_eq_iff m n).0 e, (text_eq_iff n n).1 refl, c)
        (omega (arith, remaining-le infos n path))
  | inr e ↦ let rest = remaining-lt infos n path info (rw e at h) c in ground arith
]

remaining-length : (infos : Map FnFrameInfo) → remaining infos [] ≡ length infos
unfolding remaining
remaining-length [] = refl
remaining-length (_ ∷ infos) = omega (arith, remaining-length infos)

deepest-Ends :
    (visit : Visit)
    → ((c : Text) (v : Visited) → Ends (visit c v))
    → (cs : List Text) (m : ℕ) (v : Visited) → Ends (deepest visit cs m v)
unfolding deepest
deepest-Ends visit h [] m v = tt
deepest-Ends visit h (c ∷ cs) m v =
    Ensures-bind (λ _. Unit) (λ _. Unit) (visit c v) _ (h c v)
      λ r _. deepest-Ends visit h cs (if ltb m r.0 then r.0 else m) r.1

module _ (infos : Map FnFrameInfo) (defined_fns : List Text) where
  visit_callees-Ends :
      (visit : Visit)
      → ((c : Text) (v : Visited) → Ends (visit c v))
      → (n : Text) (info : FnFrameInfo) (v : Visited)
      → Ends (visit_callees infos defined_fns visit n info v)
  unfolding visit_callees
  visit_callees-Ends visit h n info v =
      Ensures-bind (λ _. Unit) (λ _. Unit) _ _
        (deepest-Ends visit h (all_callees defined_fns n info) 0 v)
        λ r _.
          Ensures-bind (λ t. t ≡ info.frame + r.0) (λ _. Unit) _ _
            (Ensures-u32_of (info.frame + r.0)) λ t _. tt

  propagate_depth-Ends :
      (fuel : ℕ) (path : List Text) (n : Text) (v : Visited)
      → remaining infos path < fuel
      → Ends (propagate_depth infos defined_fns fuel path n v)
  unfolding propagate_depth
  propagate_depth-Ends zero path n v h = absurd (omega arith)
  propagate_depth-Ends (suc fuel) path n v h = elim (Option-cases (get v n)) [
    | inr (d, e) ↦ rw e tt
    | inl e ↦ elim (Option-cases (get infos n)) [
      | inl i ↦ rw (e, i) tt
      | inr (info, i) ↦ elim (Bool-cases (contains path n)) [
        | inl c ↦ rw (e, i, c) tt
        | inr c ↦
            let less = remaining-lt infos n path info i c in
            rw (e, i, c)
              (visit_callees-Ends (propagate_depth infos defined_fns fuel (n ∷ path))
                (λ c' v'. propagate_depth-Ends fuel (n ∷ path) c' v' (omega arith)) n info v)
      ]
    ]
  ]

  propagate_all-Ends :
      (rest : Map FnFrameInfo) (v : Visited)
      → Ends (propagate_all infos defined_fns (suc (length infos)) rest v)
  unfolding propagate_all
  propagate_all-Ends [] v = tt
  propagate_all-Ends ((n, _) ∷ rest) v =
      Ensures-bind (λ _. Unit) (λ _. Unit) _ _
        (propagate_depth-Ends (suc (length infos)) [] n v (omega (arith, remaining-length infos)))
        λ r _. propagate_all-Ends rest r.1

Ends-ne {ℓ} : {A : Type ℓ} (m : Run A) → Ends m → m ≢ out_of_fuel
Ends-ne (ok a) h = cc
Ends-ne overflow h = cc
Ends-ne out_of_fuel h = absurd h

checked-Ends {ℓ} : {A : Type ℓ} (o : Option A) → Ends (checked o)
unfolding checked
checked-Ends none = tt
checked-Ends (some a) = tt

pub analyze-Ends : (program : Program) (symbols : SymbolTable) → Ends (analyze program symbols)
unfolding analyze
analyze-Ends program symbols =
    Ensures-bind (λ _. Unit) (λ _. Unit) _ _
      (checked-Ends (collect_infos symbols (build_defined_fn_set program.items) program.items []))
      λ infos _.
        Ensures-bind (λ _. Unit) (λ _. Unit) _ _
          (propagate_all-Ends infos (build_defined_fn_set program.items) infos []) λ visited _. tt

-- The analysis stays within its fuel on every program, also one with recursive functions.
pub analyze_ends :
    (program : Program) (symbols : SymbolTable) → analyze program symbols ≢ out_of_fuel
analyze_ends program symbols = Ends-ne (analyze program symbols) (analyze-Ends program symbols)
