-- ===== src/Types/Tests.antt =====
-- The layout of a C struct of a byte and a word.
use beemel.Prelude.{true, false, ◌⊎◌, ℕ, ◌^◌, ◌<◌, ◌≡◌, refl, some, List, codes}
use beemel.Ast.Items.{c_repr}
use beemel.Types.Syntax.{
  TyFields, no_ty_fields, ty_field, u8_type, u32_type, no_tys, ty_then, linear_view, exclusive_type,
  void_type, fn_type,
}
use beemel.Types.Compatible.{types_compatible}
use beemel.Types.Compatible.Mutability.{may_write, IsLenient, types_compatible-may_write}
use beemel.Types.Layout.{align_fields, checked_struct_size}
use beemel.Types.Placed.{Placed, IsNext, checked_struct_size-Placed}

abbrev header : TyFields
header = ty_field (codes "tag") u8_type (ty_field (codes "len") u32_type no_ty_fields)

header_size : checked_struct_size c_repr header ≡ some 8
unfolding checked_struct_size
header_size = refl

checked_struct_size-Placed_example :
    (os : List ℕ) × (end : ℕ) × Placed 0 header os end
    × IsNext (align_fields header) end 8
    × (8 < 2 ^ 32)
checked_struct_size-Placed_example = checked_struct_size-Placed header header_size

owned_view_fits :
    types_compatible (linear_view u8_type true) (exclusive_type (linear_view u8_type true)) ≡ true
unfolding types_compatible
owned_view_fits = refl

types_compatible-may_write_example :
    (may_write (exclusive_type (linear_view u8_type true)) ≡ true)
    ⊎ IsLenient (exclusive_type (linear_view u8_type true))
types_compatible-may_write_example =
    types_compatible-may_write (linear_view u8_type true)
      (exclusive_type (linear_view u8_type true)) owned_view_fits refl

-- A function that wants a mutable view, where one that is handed a readonly view is expected.
writer_for_reader :
    types_compatible
      (fn_type (ty_then (linear_view u8_type false) no_tys) void_type)
      (fn_type (ty_then (linear_view u8_type true) no_tys) void_type)
    ≡ true
unfolding types_compatible
writer_for_reader = refl
