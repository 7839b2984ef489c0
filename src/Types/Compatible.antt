-- ===== src/Types/Compatible.antt =====
-- Moves and compatibility of types: `Type::semantics`, `Type::inner`, `types_compatible` and the
-- families of types, bml-core/src/types.rs.
pub mod Mutability
use beemel.Prelude.{
  ℕ, ◌≡◌, Text, Bool, true, false, ◌&&◌, ◌||◌, not, ◌==◌, if◌then◌else◌, text_eq, codes,
}
use native.Mathlib.Decide.{ℕ_discrete}
use beemel.Types.Syntax.{
  Semantics, Ty, TyFields, Tys, addr_type, agent_shared, array_type, bit_view, const_ptr_type, copy,
  error_type, exclusive_type, f16_type, f32_type, f64_type, fn_type, i16_type, i32_type, i64_type,
  i8_type, linear_view, mmio_type, move, no_ty_fields, no_tys, null_type, ptr_type, ring_view,
  shared_type, strided_view_type, struct_type, ty_field, ty_then, u16_type, u32_type, u64_type,
  u8_type, unresolved,
}

-- `==` on types.
unfoldable pub Ty-discrete : Discrete Ty
Ty-discrete = hlevel (ℕ_discrete)

unfoldable pub ty_eq : Ty → Ty → Bool
unfolding Ty-discrete
ty_eq s t = elim (Ty-discrete s t) [ yes _ ↦ true | no _ ↦ false ]

abbrev copy_unless : Bool → Semantics
copy_unless mutable = if mutable then move else copy

unfoldable pub is_copy_semantics : Semantics → Bool
is_copy_semantics copy = true
is_copy_semantics move = false

unfoldable mutual
  unfolding is_copy_semantics

  pub semantics : Ty → Semantics
  semantics (linear_view _ mutable) = copy_unless mutable
  semantics (strided_view_type _ mutable _) = copy_unless mutable
  semantics (ring_view _ mutable _) = copy_unless mutable
  semantics (bit_view mutable) = copy_unless mutable
  semantics (array_type t _) = semantics t
  semantics (ptr_type t) = semantics t
  semantics (const_ptr_type t) = semantics t
  semantics (struct_type _ _ fields) = if all_copy fields then copy else move
  semantics (exclusive_type _) = move
  semantics (shared_type _ _) = move
  semantics (mmio_type _) = move
  semantics (agent_shared _) = move
  semantics _ = copy

  pub all_copy : TyFields → Bool
  all_copy no_ty_fields = true
  all_copy (ty_field _ t fields) = is_copy_semantics (semantics t) && all_copy fields

unfoldable pub is_copy : Ty → Bool
unfolding semantics is_copy_semantics
is_copy t = is_copy_semantics (semantics t)

unfoldable pub is_move : Ty → Bool
unfolding semantics is_copy_semantics
is_move t = not (is_copy_semantics (semantics t))

unfoldable pub inner : Ty → Ty
inner (exclusive_type t) = t
inner (shared_type t _) = t
inner (mmio_type t) = t
inner (agent_shared t) = t
inner t = t

unfoldable pub is_int : Ty → Bool
is_int i8_type = true
is_int i16_type = true
is_int i32_type = true
is_int i64_type = true
is_int u8_type = true
is_int u16_type = true
is_int u32_type = true
is_int u64_type = true
is_int _ = false

unfoldable pub is_signed_int : Ty → Bool
is_signed_int i8_type = true
is_signed_int i16_type = true
is_signed_int i32_type = true
is_signed_int i64_type = true
is_signed_int _ = false

unfoldable pub is_float : Ty → Bool
is_float f16_type = true
is_float f32_type = true
is_float f64_type = true
is_float _ = false

unfoldable pub is_ptr : Ty → Bool
is_ptr (ptr_type _) = true
is_ptr (const_ptr_type _) = true
is_ptr (fn_type _ _) = true
is_ptr _ = false

unfoldable pub same_family : Ty → Ty → Bool
unfolding is_int is_float
same_family s t = is_int s && is_int t || is_float s && is_float t

-- An address slot and a `u32`.
unfoldable pub is_address_of : Ty → Ty → Bool
is_address_of (addr_type _) u32_type = true
is_address_of u32_type (addr_type _) = true
is_address_of _ _ = false

abbrev bool_eq : Bool → Bool → Bool
bool_eq true b = b
bool_eq false b = not b

-- The coercions of pointers and views, from mutable to readonly.
unfoldable pub coerces : Ty → Ty → Bool
unfolding ty_eq
coerces (const_ptr_type e) (ptr_type a) = ty_eq e a
coerces (linear_view e false) (linear_view a _) = ty_eq e a
coerces (strided_view_type e false k) (strided_view_type a _ l) = ty_eq e a && k == l
coerces (ring_view e m _) (ring_view a n _) = ty_eq e a && (bool_eq m n || not m && n)
coerces (bit_view false) (bit_view _) = true
coerces _ _ = false

unfoldable pub is_error : Ty → Bool
is_error error_type = true
is_error _ = false

unfoldable pub is_null : Ty → Bool
is_null null_type = true
is_null _ = false

unfoldable pub is_array : Ty → Bool
is_array (array_type _ _) = true
is_array _ = false

unfoldable pub is_empty_array_sentinel : Ty → Bool
is_empty_array_sentinel (unresolved name) = text_eq name (codes "empty-array")
is_empty_array_sentinel _ = false

-- The rules before that of function pointers.
unfoldable pub direct : Ty → Ty → Bool
unfolding ty_eq is_address_of inner is_move coerces
direct expected actual =
    ty_eq expected actual
    || is_address_of expected actual
    || ty_eq expected (inner actual) && is_move actual
    || ty_eq actual (inner expected) && is_move expected
    || coerces expected actual

-- The rules behind it.
unfoldable pub lenient : Ty → Ty → Bool
unfolding is_error is_null is_ptr is_array is_empty_array_sentinel
lenient expected actual =
    if is_error expected || is_error actual
    then true
    else (if is_null expected
        then is_null actual || is_ptr actual
        else (if is_null actual
            then is_null expected || is_ptr expected
            else is_empty_array_sentinel expected && is_array actual
              || is_empty_array_sentinel actual && is_array expected))

unfoldable mutual
  unfolding direct lenient

  pub types_compatible : Ty → Ty → Bool
  types_compatible (fn_type params ret) (fn_type args res) =
      direct (fn_type params ret) (fn_type args res)
      || all_compatible params args && types_compatible ret res
  types_compatible expected actual = direct expected actual || lenient expected actual

  -- Parameter lists of one length, `zip` and `all`.
  pub all_compatible : Tys → Tys → Bool
  all_compatible no_tys no_tys = true
  all_compatible (ty_then e es) (ty_then a as') = types_compatible e a && all_compatible es as'
  all_compatible _ _ = false
