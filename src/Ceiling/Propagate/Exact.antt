-- ===== src/Ceiling/Propagate/Exact.antt =====
-- The result of `propagate_contexts` of bml-core/src/ceiling.rs.
use beemel.Prelude.{
  ◌≡◌, ◌≢◌, ◌↔◌, refl, sym, ap, ◌∙◌, Text, true, false, ◌||◌, Option, none, some, List, [], ◌∷◌,
  map_or, Map, get, text_eq, contains_key, Elem, All-Elem, Bool-cases, inl, inr, arith, or_right,
}
use beemel.Context.{Context, Contexts, any}
use beemel.Ast.Items.{Item}
use beemel.Symbols.{FnSymbol}
use beemel.Ceiling.Propagate.{
  context_eq, has, PointerCalls, initial, starts_in, place, sort, sort_all, fn_mentions,
  pointer_call_facts, propagate_contexts,
}
use beemel.Ceiling.Propagate.Moves.{context_eq_iff, is_known, runs_in, SoundAt}
use beemel.Ceiling.Propagate.Rounds.{
  RunsIn, declared, mentioned, by_pointer, FollowsCallers, Runs, universe,
}
use beemel.Ceiling.Propagate.Closed.{has→Elem}
use beemel.Ceiling.Propagate.Settled.{Settles, settled, get-initial}

has-place : (d : Context) (cs : List Context) (c : Context) → has (place d cs) c ≡ has (d ∷ cs) c
unfolding has place
has-place d [] c = refl
has-place d (e ∷ cs) c = ground (arith, has-place d cs c)

has-sort : (cs : List Context) (c : Context) → has (sort cs) c ≡ has cs c
unfolding has sort
has-sort [] c = refl
has-sort (d ∷ cs) c = has-place d (sort cs) c ∙ ap (λ b. context_eq d c || b) (has-sort cs c)

runs_in-sort_all :
    (p : Contexts) (f : Text) (c : Context) → runs_in (sort_all p) f c ≡ runs_in p f c
unfolding sort_all
runs_in-sort_all [] f c = refl
runs_in-sort_all ((n, cs) ∷ p) f c = elim (Bool-cases (text_eq n f)) [
  | inl e ↦ rw e (has-sort cs c)
  | inr e ↦ rw e (runs_in-sort_all p f c)
]

module _ (functions : Map FnSymbol) (edges : Map (List Text)) (calls : PointerCalls) where
  found_known :
      (f : Text) (s : FnSymbol) → get functions f ≡ some s → is_known (initial functions) f ≡ true
  found_known f s e = rw (get-initial functions f, e) refl

  module _ (q : Contexts) (done : Settles functions edges calls (initial functions) q) where
    started :
        (f : Text) (s : FnSymbol) (c : Context)
        → get functions f ≡ some s
        → s.context ≡ c
        → c ≢ any
        → runs_in q f c ≡ true
    unfolding starts_in has
    started f s c e d n = done.grows f c (rw (get-initial functions f, e) (begins s c d n))
      where
        begins :
            (s' : FnSymbol) (d' : Context)
            → s'.context ≡ d'
            → d' ≢ any
            → has (starts_in s') d' ≡ true
        begins s' d' h k = elim (Bool-cases (context_eq s'.context any)) [
          | inl e ↦ absurd (k (sym h ∙ (context_eq_iff s'.context any).0 e))
          | inr e ↦ rw (e, (context_eq_iff s'.context d').1 h) refl
        ]

    callee_known : (f : Text) → FollowsCallers functions f → is_known q f ≡ true
    callee_known f (s, e, a) = done.keys f ∙ found_known f s e

    RunsIn→runs_in :
        {f : Text} {c : Context} → Runs functions edges calls f c → runs_in q f c ≡ true
    RunsIn→runs_in (declared f s c e d n) = started f s c e d n
    RunsIn→runs_in (mentioned caller callees f c e m a r) =
        done.closed.by_edge caller callees e f c m a (callee_known f a) (RunsIn→runs_in r)
    RunsIn→runs_in (by_pointer caller f c e m a r) =
        done.closed.through_pointer caller e f c m a (callee_known f a) (RunsIn→runs_in r)

    entry→RunsIn :
        (f : Text) (c : Context) (o : Option (List Context))
        → SoundAt (Runs functions edges calls) (universe functions edges calls) f o
        → map_or o false (λ set. has set c) ≡ true
        → Runs functions edges calls f c
    entry→RunsIn f c none h r = cc
    entry→RunsIn f c (some set) h r =
        All-Elem (Runs functions edges calls f) c set h (has→Elem c set r)

-- Propagation ends, and the contexts that it finds for a function are exactly those in which the
-- function runs: its declared one, or, where that is unknown, those of the functions that mention it
-- and, if its address is taken, of all functions with an indirect call.
pub propagate_contexts-RunsIn :
    (items : List Item) (functions : Map FnSymbol)
    → (p : Contexts) × (propagate_contexts items functions ≡ some p)
      × ((f : Text) (c : Context)
          → (runs_in p f c ≡ true)
            ↔ RunsIn functions
                (fn_mentions items (contains_key functions))
                (pointer_call_facts items (contains_key functions))
                f
                c)
unfolding propagate_contexts
propagate_contexts-RunsIn items functions =
    let edges : Map (List Text) = fn_mentions items (contains_key functions) in
    let calls : PointerCalls = pointer_call_facts items (contains_key functions) in
    let (q, ends, done) = settled functions edges calls in
    (
      sort_all q,
      rw ends refl,
      λ f c. (
        λ r.
            entry→RunsIn functions edges calls q done f c (get q f) (done.sound f)
              (sym (runs_in-sort_all q f c) ∙ r),
        λ r. runs_in-sort_all q f c ∙ RunsIn→runs_in functions edges calls q done r,
      ),
    )

pub Elem→has : (c : Context) (cs : List Context) → Elem c cs → has cs c ≡ true
unfolding has
Elem→has c [] e = absurd e
Elem→has c (d ∷ ds) (inl e) = rw ((context_eq_iff d c).1 e) refl
Elem→has c (d ∷ ds) (inr e) = or_right (context_eq d c) (Elem→has c ds e)
