-- ===== src/Types/Resolve.antt =====
-- Type expressions: `resolve_type_expr` of bml-core/src/types.rs, with `int_suffix_type`,
-- `upgrade_peripheral_handle` and `type_has_unresolved`.
use beemel.Prelude.{
  ℕ, ◌^◌, Text, Bool, true, false, ◌||◌, Option, none, some, List, [], ◌∷◌, map_or, Map, get,
  contains, codes, ltb, if◌then◌else◌,
}
use beemel.Prelude.Int.{ℤ}
use beemel.Ast.Names.{IntSuffix, no_int_suffix, i8, i16, i32, i64, u8, u16, u32, u64}
use beemel.Ast.Items.{StructRepr, FieldEndian}
use beemel.Ast.Syntax.{
  Expr, int_literal, TypeExpr, named, ptr, const_ptr, view, ring, strided_view, bits, array, fn,
  addr, void, Types, no_types, type_then, MaybeType, no_type, some_type,
}
use beemel.Types.Syntax.{
  Ty, TyFields, Tys, addr_type, array_type, b1_type, b8_type, bit_view, const_ptr_type, enum_type,
  error_type, f16_type, f32_type, f64_type, fn_type, i16_type, i32_type, i64_type, i8_type,
  linear_view, no_ty_fields, no_tys, peripheral_handle, ptr_type, ring_view, strided_view_type,
  struct_type, ty_field, ty_then, u16_type, u32_type, u64_type, u8_type, unresolved, void_type,
}

pub record StructInfo : Type 0 where
  pub repr : StructRepr
  pub fields : TyFields
  pub field_endian : List FieldEndian

abbrev pub EnumDefs : Type 0
EnumDefs = Map (Ty × List (Text × ℤ))

unfoldable pub int_suffix_type : IntSuffix → Option Ty
int_suffix_type i8 = some i8_type
int_suffix_type i16 = some i16_type
int_suffix_type i32 = some i32_type
int_suffix_type i64 = some i64_type
int_suffix_type u8 = some u8_type
int_suffix_type u16 = some u16_type
int_suffix_type u32 = some u32_type
int_suffix_type u64 = some u64_type
int_suffix_type no_int_suffix = none

-- The names of the types of the language.
abbrev pub primitive_types : Map Ty
primitive_types =
    (codes "i8", i8_type)
    ∷ (codes "i16", i16_type)
    ∷ (codes "i32", i32_type)
    ∷ (codes "i64", i64_type)
    ∷ (codes "u8", u8_type)
    ∷ (codes "u16", u16_type)
    ∷ (codes "u32", u32_type)
    ∷ (codes "u64", u64_type)
    ∷ (codes "f16", f16_type)
    ∷ (codes "f32", f32_type)
    ∷ (codes "f64", f64_type)
    ∷ (codes "b1", b1_type)
    ∷ (codes "b8", b8_type)
    ∷ (codes "void", void_type)
    ∷ []

-- `u32::try_from(n).unwrap_or(0)` of a literal.
unfoldable pub stride_of : Expr → ℕ
stride_of (int_literal n _ _) = if ltb n (2 ^ 32) then n else 0
stride_of _ = 0

-- The host's `usize` has 64 bits, as the literal.
unfoldable pub length_of : Expr → ℕ
length_of (int_literal n _ _) = n
length_of _ = 0

module _ (structs : Map StructInfo) (enums : EnumDefs) where
  unfoldable pub resolve_name : Text → Ty
  resolve_name name =
      map_or (get primitive_types name)
        (map_or (get structs name)
          (map_or (get enums name) (unresolved name) λ e. enum_type name e.0 e.1)
          λ (info : StructInfo). struct_type name info.repr info.fields)
        λ t. t

  unfoldable mutual
    unfolding resolve_name stride_of length_of

    pub resolve_type_expr : TypeExpr → Ty
    resolve_type_expr (named x) = resolve_name x.name
    resolve_type_expr (view t mutable) = linear_view (resolve_type_expr t) mutable
    resolve_type_expr (strided_view t mutable stride) =
        strided_view_type (resolve_type_expr t) mutable (stride_of stride)
    resolve_type_expr (ring t mutable) = ring_view (resolve_type_expr t) mutable none
    resolve_type_expr (bits mutable) = bit_view mutable
    resolve_type_expr (ptr t) = ptr_type (resolve_type_expr t)
    resolve_type_expr (const_ptr t) = const_ptr_type (resolve_type_expr t)
    resolve_type_expr (array t size) = array_type (resolve_type_expr t) (length_of size)
    resolve_type_expr (fn params ret) = fn_type (resolve_params params) (resolve_ret ret)
    resolve_type_expr (addr region) = addr_type region.name
    resolve_type_expr (void _) = void_type

    pub resolve_params : Types → Tys
    resolve_params no_types = no_tys
    resolve_params (type_then t ts) = ty_then (resolve_type_expr t) (resolve_params ts)

    pub resolve_ret : MaybeType → Ty
    resolve_ret no_type = void_type
    resolve_ret (some_type t) = resolve_type_expr t

unfoldable pub upgrade_peripheral_handle : Ty → List Text → Ty
upgrade_peripheral_handle (unresolved name) names =
    if contains names name then peripheral_handle name else unresolved name
upgrade_peripheral_handle t names = t

unfoldable mutual
  pub type_has_unresolved : Ty → Bool
  type_has_unresolved (unresolved _) = true
  type_has_unresolved error_type = true
  type_has_unresolved (array_type t _) = type_has_unresolved t
  type_has_unresolved (enum_type _ t _) = type_has_unresolved t
  type_has_unresolved (struct_type _ _ fields) = any_unresolved fields
  type_has_unresolved _ = false

  pub any_unresolved : TyFields → Bool
  any_unresolved no_ty_fields = false
  any_unresolved (ty_field _ t fields) = type_has_unresolved t || any_unresolved fields
