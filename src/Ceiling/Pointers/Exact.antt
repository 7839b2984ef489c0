-- ===== src/Ceiling/Pointers/Exact.antt =====
-- What `pointer_call_facts` of bml-core/src/ceiling.rs finds in a program.
use beemel.Prelude.{
  Elem-split, Text, Bool, true, false, ◌≡◌, ◌↔◌, refl, some, List, [], ◌∷◌, Elem, Elem-append_left,
  Elem-append_right, inl, inr, ◌⊎◌, Bool-cases, Option-cases, or_right, or-true, arith,
}
use beemel.Ast.Names.{Ident}
use beemel.Ast.Syntax.{Expr, Exprs, ident, call}
use beemel.Ast.Items.{Item, fn_def, static_def, const_def, FnDef, StaticDef, ConstDef}
use beemel.Ceiling.Pointers.{Facts, ◌⊕◌, mentioned, callee_facts, pcf_block, pcf_expr}
use beemel.Ceiling.Pointers.Inside.{
  an_expr, a_block, Holds, names_function, IsValue, IsIndirectCall,
}
use beemel.Ceiling.Pointers.Walk.{Search}
use beemel.Ceiling.Pointers.Lift.{body-Holds, init-Holds}
use beemel.Ceiling.Propagate.{item_facts, pointer_call_facts}

module _ (fn_names : Text → Bool) where
  module _ (f : Text) where
    abbrev Takes : Facts → Type 0
    Takes facts = Elem f facts.taken

    mention-IsValue : (x : Ident) → Takes (mentioned fn_names x.name) → IsValue fn_names f (ident x)
    unfolding mentioned
    mention-IsValue x h = elim (Bool-cases (fn_names x.name)) [
      | inl e ↦ elim (rw e at h) [ inl same ↦ (same, e) | inr none_left ↦ absurd none_left ]
      | inr e ↦ absurd (rw e at h)
    ]

    named-Takes :
        (x : Ident) → ¬ Takes (callee_facts fn_names (ident x) (mentioned fn_names x.name))
    unfolding callee_facts mentioned
    named-Takes x h = elim (Bool-cases (fn_names x.name)) [ inl e ↦ rw e at h | inr e ↦ rw e at h ]

    value-Takes : (e : Expr) → IsValue fn_names f e → Takes (pcf_expr fn_names e)
    unfolding pcf_expr mentioned
    value-Takes (ident x) (same, known) = rw known (inl same)
    value-Takes _ h = absurd h

    takes : Search fn_names Takes (IsValue fn_names f)
    unfolding ◌⊕◌
    takes = record {
      split = λ a b h. Elem-split f a.taken b.taken h;
      left = λ a b h. Elem-append_left f a.taken b.taken h;
      right = λ a b h. Elem-append_right f a.taken b.taken h;
      empty = λ h. h;
      at_ident = mention-IsValue;
      at_named = λ x args h. absurd (named-Takes x h);
      at_other = λ callee args inner e h. inr h;
      other = λ inner h. h;
      found = value-Takes;
    }

  abbrev Calls : Facts → Type 0
  Calls facts = facts.indirect ≡ true

  named-Calls :
      (x : Ident) (args : Exprs)
      → Calls (callee_facts fn_names (ident x) (mentioned fn_names x.name))
      → IsIndirectCall fn_names (call (ident x) args)
  unfolding callee_facts
  named-Calls x args h = ground arith

  call-Calls :
      (callee : Expr) (inner : Facts)
      → names_function fn_names callee ≡ false
      → Calls (callee_facts fn_names callee inner)
  unfolding callee_facts
  call-Calls (ident x) inner h = rw h refl
  call-Calls _ inner h = refl

  indirect-Calls : (e : Expr) → IsIndirectCall fn_names e → Calls (pcf_expr fn_names e)
  unfolding pcf_expr ◌⊕◌
  indirect-Calls (call callee args) h = rw (call-Calls callee (pcf_expr fn_names callee) h) refl
  indirect-Calls _ h = absurd h

  calls : Search fn_names Calls (IsIndirectCall fn_names)
  unfolding ◌⊕◌ mentioned
  calls = record {
    split = λ a b h. or-true a.indirect b.indirect h;
    left = λ a b h. rw h refl;
    right = λ a b h. or_right a.indirect h;
    empty = λ h. cc;
    at_ident = λ x h. cc;
    at_named = named-Calls;
    at_other = λ callee args inner e h. inl e;
    other = λ inner h. refl;
    found = indirect-Calls;
  }

-- An item in whose body or initialiser the function's name is a value.
pub data TakesIn (fn_names : Text → Bool) (f : Text) : Item → Type 0 where
  in_body :
      (g : FnDef) → Holds (IsValue fn_names f) (a_block g.body) → TakesIn fn_names f (fn_def g)
  in_static :
      (s : StaticDef) (init : Expr)
      → s.init ≡ some init
      → Holds (IsValue fn_names f) (an_expr init)
      → TakesIn fn_names f (static_def s)
  in_const :
      (c : ConstDef)
      → Holds (IsValue fn_names f) (an_expr c.value)
      → TakesIn fn_names f (const_def c)

-- A function of the name, with an indirect call in its body.
pub data CallsIn (fn_names : Text → Bool) (f : Text) : Item → Type 0 where
  calling :
      (g : FnDef)
      → g.name.name ≡ f
      → Holds (IsIndirectCall fn_names) (a_block g.body)
      → CallsIn fn_names f (fn_def g)

unfoldable pub SomeItem : (Item → Type 0) → List Item → Type 0
SomeItem P [] = ⊥
SomeItem P (i ∷ items) = P i ⊎ SomeItem P items

module _ (fn_names : Text → Bool) (f : Text) where
  item_taken : (i : Item) → Elem f (item_facts fn_names i).address_taken → TakesIn fn_names f i
  unfolding item_facts
  item_taken (fn_def g) h =
      in_body g (
        (body-Holds fn_names (Takes fn_names f) (IsValue fn_names f) (takes fn_names f) g.body).0 h)
  item_taken (static_def s) h = elim (Option-cases s.init) [
    | inl e ↦ absurd (rw e at h)
    | inr (init, e) ↦ in_static s init e (
        (init-Holds fn_names (Takes fn_names f) (IsValue fn_names f) (takes fn_names f) init).0
          (rw e at h))
  ]
  item_taken (const_def c) h =
      in_const c (
        (init-Holds fn_names (Takes fn_names f) (IsValue fn_names f) (takes fn_names f) c.value).0
          h)
  item_taken _ h = absurd h

  taken_item : (i : Item) → TakesIn fn_names f i → Elem f (item_facts fn_names i).address_taken
  unfolding item_facts
  taken_item _ (in_body g h) =
      (body-Holds fn_names (Takes fn_names f) (IsValue fn_names f) (takes fn_names f) g.body).1 h
  taken_item _ (in_static s init e h) =
      rw e
        ((init-Holds fn_names (Takes fn_names f) (IsValue fn_names f) (takes fn_names f) init).1 h)
  taken_item _ (in_const c h) =
      (init-Holds fn_names (Takes fn_names f) (IsValue fn_names f) (takes fn_names f) c.value).1 h

  item_calls : (i : Item) → Elem f (item_facts fn_names i).indirect_callers → CallsIn fn_names f i
  unfolding item_facts
  item_calls (fn_def g) h = elim (Bool-cases (pcf_block fn_names g.body).indirect) [
    | inl e ↦ elim (rw e at h) [
      | inl same ↦ calling g same (
          (body-Holds fn_names (Calls fn_names) (IsIndirectCall fn_names) (calls fn_names) g.body).0
            e)
      | inr none_left ↦ absurd none_left
    ]
    | inr e ↦ absurd (rw e at h)
  ]
  item_calls (static_def s) h = absurd h
  item_calls (const_def c) h = absurd h
  item_calls _ h = absurd h

  calls_item : (i : Item) → CallsIn fn_names f i → Elem f (item_facts fn_names i).indirect_callers
  unfolding item_facts
  calls_item _ (calling g same h) =
      rw
        ((body-Holds fn_names (Calls fn_names) (IsIndirectCall fn_names) (calls fn_names) g.body).1
          h)
        (inl same)

  taken_items :
      (items : List Item)
      → Elem f (pointer_call_facts items fn_names).address_taken
        ↔ SomeItem (TakesIn fn_names f) items
  unfolding pointer_call_facts SomeItem
  taken_items [] = (λ h. h, λ h. h)
  taken_items (i ∷ items) = (
    λ h. elim (Elem-split f (item_facts fn_names i).address_taken _ h) [
      | inl p ↦ inl (item_taken i p)
      | inr q ↦ inr ((taken_items items).0 q)
    ],
    λ h. elim h [
      | inl p ↦ Elem-append_left f (item_facts fn_names i).address_taken _ (taken_item i p)
      | inr q ↦
          Elem-append_right f (item_facts fn_names i).address_taken _ ((taken_items items).1 q)
    ],
  )

  calls_items :
      (items : List Item)
      → Elem f (pointer_call_facts items fn_names).indirect_callers
        ↔ SomeItem (CallsIn fn_names f) items
  unfolding pointer_call_facts SomeItem
  calls_items [] = (λ h. h, λ h. h)
  calls_items (i ∷ items) = (
    λ h. elim (Elem-split f (item_facts fn_names i).indirect_callers _ h) [
      | inl p ↦ inl (item_calls i p)
      | inr q ↦ inr ((calls_items items).0 q)
    ],
    λ h. elim h [
      | inl p ↦ Elem-append_left f (item_facts fn_names i).indirect_callers _ (calls_item i p)
      | inr q ↦
          Elem-append_right f (item_facts fn_names i).indirect_callers _ ((calls_items items).1 q)
    ],
  )

-- The functions with their address taken are those whose name is a value, and no callee, somewhere
-- in a body or an initialiser; the indirect callers are the functions in whose body a call stands
-- that does not name its function.
pub pointer_call_facts-Holds :
    (items : List Item) (fn_names : Text → Bool) (f : Text)
    → (Elem f (pointer_call_facts items fn_names).address_taken
        ↔ SomeItem (TakesIn fn_names f) items)
      × (Elem f (pointer_call_facts items fn_names).indirect_callers
          ↔ SomeItem (CallsIn fn_names f) items)
pointer_call_facts-Holds items fn_names f =
    (taken_items fn_names f items, calls_items fn_names f items)
