-- ===== src/Types/CStruct.antt =====
-- The layout of a C struct that `checked_struct_size` of bml-core/src/types.rs measures.
use beemel.Prelude.{ℕ, ◌≤◌, max, arith}
use beemel.Ast.Items.{explicit_repr, c_repr, packed_repr}
use beemel.Types.Syntax.{
  Ty, TyFields, addr_type, agent_shared, array_type, b1_type, b8_type, bit_view, const_ptr_type,
  enum_type, error_type, exclusive_type, f16_type, f32_type, f64_type, fn_type, i16_type, i32_type,
  i64_type, i8_type, linear_view, mmio_type, no_ty_fields, null_type, peripheral_handle, ptr_type,
  ring_view, shared_type, strided_view_type, struct_type, ty_field, u16_type, u32_type, u64_type,
  u8_type, unresolved, void_type,
}
use beemel.Types.Layout.{align_of, align_fields}

-- The alignments that occur.
pub data IsAlign : ℕ → Type 0 where
  one : IsAlign 1
  two : IsAlign 2
  four : IsAlign 4
  eight : IsAlign 8

pub max-IsAlign : {a b : ℕ} → IsAlign a → IsAlign b → IsAlign (max a b)
max-IsAlign one one = one
max-IsAlign one two = two
max-IsAlign one four = four
max-IsAlign one eight = eight
max-IsAlign two one = two
max-IsAlign two two = two
max-IsAlign two four = four
max-IsAlign two eight = eight
max-IsAlign four one = four
max-IsAlign four two = four
max-IsAlign four four = four
max-IsAlign four eight = eight
max-IsAlign eight one = eight
max-IsAlign eight two = eight
max-IsAlign eight four = eight
max-IsAlign eight eight = eight

mutual
  unfolding align_of

  pub align_of-IsAlign : (t : Ty) → IsAlign (align_of t)
  align_of-IsAlign (array_type t _) = align_of-IsAlign t
  align_of-IsAlign (struct_type _ packed_repr _) = one
  align_of-IsAlign (struct_type _ explicit_repr fields) = align_fields-IsAlign fields
  align_of-IsAlign (struct_type _ c_repr fields) = align_fields-IsAlign fields
  align_of-IsAlign (enum_type _ t _) = align_of-IsAlign t
  align_of-IsAlign (exclusive_type t) = align_of-IsAlign t
  align_of-IsAlign (shared_type t _) = align_of-IsAlign t
  align_of-IsAlign (mmio_type t) = align_of-IsAlign t
  align_of-IsAlign (agent_shared t) = align_of-IsAlign t
  align_of-IsAlign i8_type = one
  align_of-IsAlign u8_type = one
  align_of-IsAlign b1_type = one
  align_of-IsAlign b8_type = one
  align_of-IsAlign void_type = one
  align_of-IsAlign i16_type = two
  align_of-IsAlign u16_type = two
  align_of-IsAlign f16_type = two
  align_of-IsAlign i32_type = four
  align_of-IsAlign u32_type = four
  align_of-IsAlign f32_type = four
  align_of-IsAlign (ptr_type _) = four
  align_of-IsAlign (const_ptr_type _) = four
  align_of-IsAlign (fn_type _ _) = four
  align_of-IsAlign (linear_view _ _) = four
  align_of-IsAlign (strided_view_type _ _ _) = four
  align_of-IsAlign (ring_view _ _ _) = four
  align_of-IsAlign (bit_view _) = four
  align_of-IsAlign (addr_type _) = four
  align_of-IsAlign (peripheral_handle _) = four
  align_of-IsAlign (unresolved _) = four
  align_of-IsAlign null_type = four
  align_of-IsAlign error_type = four
  align_of-IsAlign i64_type = eight
  align_of-IsAlign u64_type = eight
  align_of-IsAlign f64_type = eight

  pub align_fields-IsAlign : (fields : TyFields) → IsAlign (align_fields fields)
  align_fields-IsAlign no_ty_fields = one
  align_fields-IsAlign (ty_field _ t fields) =
      max-IsAlign (align_of-IsAlign t) (align_fields-IsAlign fields)

pub IsAlign-positive : {a : ℕ} → IsAlign a → 1 ≤ a
IsAlign-positive one = omega arith
IsAlign-positive two = omega arith
IsAlign-positive four = omega arith
IsAlign-positive eight = omega arith
