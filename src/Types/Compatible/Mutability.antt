-- ===== src/Types/Compatible/Mutability.antt =====
-- What the coercions of bml-core/src/types.rs keep: access through a readonly view or pointer stays
-- readonly.
use beemel.Prelude.{
  ◌≡◌, ◌⊎◌, inl, inr, refl, sym, subst, ap, ◌∙◌, Bool, true, false, ◌&&◌, ◌||◌, Bool-cases, or-true,
  arith,
}
use beemel.Types.Syntax.{
  Ty, addr_type, agent_shared, array_type, bit_view, error_type, exclusive_type, fn_type,
  linear_view, mmio_type, null_type, ptr_type, ring_view, shared_type, strided_view_type, u32_type,
  unresolved,
}
use beemel.Types.Compatible.{
  ty_eq, inner, is_move, is_address_of, coerces, is_error, is_null, is_array,
  is_empty_array_sentinel, direct, lenient, types_compatible,
}

-- A mutable pointer or view, wrapped or not.
abbrev pub may_write : Ty → Bool
may_write (ptr_type _) = true
may_write (linear_view _ mutable) = mutable
may_write (strided_view_type _ mutable _) = mutable
may_write (ring_view _ mutable _) = mutable
may_write (bit_view mutable) = mutable
may_write (exclusive_type t) = may_write t
may_write (shared_type t _) = may_write t
may_write (mmio_type t) = may_write t
may_write (agent_shared t) = may_write t
may_write _ = false

ty_eq→≡ : (s t : Ty) → ty_eq s t ≡ true → s ≡ t
unfolding ty_eq
ty_eq→≡ s t h = ground arith

may_write-inner : (t : Ty) → may_write (inner t) ≡ may_write t
unfolding inner
may_write-inner (exclusive_type t) = refl
may_write-inner (shared_type t _) = refl
may_write-inner (mmio_type t) = refl
may_write-inner (agent_shared t) = refl
may_write-inner _ = refl

is_address_of-may_write :
    (e a : Ty) → is_address_of e a ≡ true → may_write e ≡ true → may_write a ≡ true
unfolding is_address_of
is_address_of-may_write (addr_type _) a h w = cc
is_address_of-may_write u32_type a h w = cc
is_address_of-may_write _ a h w = cc

coerces-may_write : (e a : Ty) → coerces e a ≡ true → may_write e ≡ true → may_write a ≡ true
unfolding coerces
coerces-may_write (ring_view e true k) (ring_view a n l) h w = either n (ty_eq e a) h
  where
    either : (b c : Bool) → (c && (b || false)) ≡ true → b ≡ true
    either b c q = ground arith
coerces-may_write (linear_view e true) a h w = cc
coerces-may_write (strided_view_type e true k) a h w = cc
coerces-may_write (bit_view true) a h w = cc
coerces-may_write _ a h w = cc

-- Types that fit every pointer: that of `null`, and that of an expression with a reported error.
abbrev pub IsLenient : Ty → Type 0
IsLenient t = (t ≡ null_type) ⊎ (t ≡ error_type)

and-true : (a b : Bool) → (a && b) ≡ true → (a ≡ true) × (b ≡ true)
and-true a b h = ground arith

any_rule :
    (a b c d e : Bool)
    → (a || b || c || d || e) ≡ true
    → (a ≡ true) ⊎ (b ≡ true) ⊎ (c ≡ true) ⊎ (d ≡ true) ⊎ (e ≡ true)
any_rule a b c d e h = ground arith

direct-may_write : (e a : Ty) → direct e a ≡ true → may_write e ≡ true → may_write a ≡ true
unfolding direct
direct-may_write e a h w =
    elim (any_rule (ty_eq e a) (is_address_of e a) (ty_eq e (inner a) && is_move a)
      (ty_eq a (inner e) && is_move e) (coerces e a) h) [
        | inl q ↦ subst (λ (t : Ty). may_write t ≡ true) (ty_eq→≡ e a q) w
        | inr (inl q) ↦ is_address_of-may_write e a q w
        | inr (inr (inl q)) ↦
            let same = ty_eq→≡ e (inner a) (and-true _ (is_move a) q).0 in
            sym (may_write-inner a) ∙ (ap may_write (sym same) ∙ w)
        | inr (inr (inr (inl q))) ↦
            let same = ty_eq→≡ a (inner e) (and-true _ (is_move e) q).0 in
            ap may_write same ∙ (may_write-inner e ∙ w)
        | inr (inr (inr (inr q))) ↦ coerces-may_write e a q w
      ]

strict :
    (e : Ty)
    → may_write e ≡ true
    → (is_error e ≡ false)
      × (is_null e ≡ false)
      × (is_array e ≡ false)
      × (is_empty_array_sentinel e ≡ false)
unfolding is_error is_null is_array is_empty_array_sentinel
strict error_type w = cc
strict null_type w = cc
strict (array_type _ _) w = cc
strict (unresolved _) w = cc
strict _ w = (refl, refl, refl, refl)

is_error→≡ : (t : Ty) → is_error t ≡ true → t ≡ error_type
unfolding is_error
is_error→≡ error_type h = refl
is_error→≡ _ h = cc

is_null→≡ : (t : Ty) → is_null t ≡ true → t ≡ null_type
unfolding is_null
is_null→≡ null_type h = refl
is_null→≡ _ h = cc

lenient-may_write : (e a : Ty) → lenient e a ≡ true → may_write e ≡ true → IsLenient a
unfolding lenient
lenient-may_write e a h w =
    let (no_error, no_null, no_array, no_sentinel) = strict e w in
    elim (Bool-cases (is_error a)) [
      | inl q ↦ inr (is_error→≡ a q)
      | inr q ↦ elim (Bool-cases (is_null a)) [
        | inl r ↦ inl (is_null→≡ a r)
        | inr r ↦ absurd (
            left_over (is_empty_array_sentinel a)
              (rw (no_error, no_null, no_array, no_sentinel, q, r) at h))
      ]
    ]
  where
    left_over : (b : Bool) → ¬ ((false || b && false) ≡ true)
    left_over b k = ground arith

-- What fits a mutable pointer or view is itself one, or `null`, or had an error reported: no readonly
-- pointer or view is taken for a mutable one.
pub types_compatible-may_write :
    (expected actual : Ty)
    → types_compatible expected actual ≡ true
    → may_write expected ≡ true
    → (may_write actual ≡ true) ⊎ IsLenient actual
unfolding types_compatible
types_compatible-may_write (fn_type params ret) actual h w = cc
types_compatible-may_write expected actual h w =
    elim (or-true (direct expected actual) (lenient expected actual) h) [
      | inl q ↦ inl (direct-may_write expected actual q w)
      | inr q ↦ inr (lenient-may_write expected actual q w)
    ]
