-- ===== src/Types/Layout.antt =====
-- Sizes and alignments of bml-core/src/types.rs: `checked_element_size`, `align_of`,
-- `checked_struct_size`, `checked_align_to`. A size is a `u32`, and an overflow is `none`.
use beemel.Prelude.{ℕ, ◌+◌, ◌-◌, ◌*◌, ◌%◌, ◌^◌, Option, none, some, max, ltb, ◌==◌, if◌then◌else◌}
use beemel.Ast.Items.{StructRepr, explicit_repr, c_repr, packed_repr}
use beemel.Types.Syntax.{
  Ty, TyFields, addr_type, agent_shared, array_type, b1_type, b8_type, bit_view, const_ptr_type,
  enum_type, error_type, exclusive_type, f16_type, f32_type, f64_type, fn_type, i16_type, i32_type,
  i64_type, i8_type, linear_view, mmio_type, no_ty_fields, null_type, peripheral_handle, ptr_type,
  ring_view, shared_type, strided_view_type, struct_type, ty_field, u16_type, u32_type, u64_type,
  u8_type, unresolved, void_type,
}

-- A result that is a `u32`.
unfoldable pub checked_u32 : ℕ → Option ℕ
checked_u32 n = if ltb n (2 ^ 32) then some n else none

infixl 1 ◌>>=◌
abbrev pub ◌>>=◌ {ℓ κ} : {A : Type ℓ} {B : Type κ} → Option A → (A → Option B) → Option B
none >>= f = none
some a >>= f = f a

unfoldable pub checked_align_to : ℕ → ℕ → Option ℕ
unfolding checked_u32
checked_align_to value align =
    let rem = value % align in if rem == 0 then some value else checked_u32 (value + (align - rem))

-- A wrapper has the alignment of what it wraps: the two steps of the source, `inner` and the
-- wrapper's arm, are one. Every alignment is at least 1, so the greatest of the fields' alignments,
-- or 1, is the fold below.
unfoldable mutual
  pub align_of : Ty → ℕ
  align_of i8_type = 1
  align_of u8_type = 1
  align_of b1_type = 1
  align_of b8_type = 1
  align_of void_type = 1
  align_of i16_type = 2
  align_of u16_type = 2
  align_of f16_type = 2
  align_of i32_type = 4
  align_of u32_type = 4
  align_of f32_type = 4
  align_of (ptr_type _) = 4
  align_of (const_ptr_type _) = 4
  align_of (fn_type _ _) = 4
  align_of (linear_view _ _) = 4
  align_of (strided_view_type _ _ _) = 4
  align_of (ring_view _ _ _) = 4
  align_of (bit_view _) = 4
  align_of (addr_type _) = 4
  align_of i64_type = 8
  align_of u64_type = 8
  align_of f64_type = 8
  align_of (array_type t _) = align_of t
  align_of (struct_type _ packed_repr _) = 1
  align_of (struct_type _ explicit_repr fields) = align_fields fields
  align_of (struct_type _ c_repr fields) = align_fields fields
  align_of (enum_type _ t _) = align_of t
  align_of (exclusive_type t) = align_of t
  align_of (shared_type t _) = align_of t
  align_of (mmio_type t) = align_of t
  align_of (agent_shared t) = align_of t
  align_of (peripheral_handle _) = 4
  align_of (unresolved _) = 4
  align_of null_type = 4
  align_of error_type = 4

  pub align_fields : TyFields → ℕ
  align_fields no_ty_fields = 1
  align_fields (ty_field _ t fields) = max (align_of t) (align_fields fields)

-- The end of a C struct: its size is a multiple of its alignment.
unfoldable pub pad_end : Option (ℕ × ℕ) → Option ℕ
unfolding checked_align_to
pad_end none = none
pad_end (some (offset, max_align)) = checked_align_to offset max_align

-- The clauses for a struct are those of `checked_struct_size`.
unfoldable mutual
  unfolding checked_u32 checked_align_to align_of pad_end

  pub checked_element_size : Ty → Option ℕ
  checked_element_size i8_type = some 1
  checked_element_size u8_type = some 1
  checked_element_size b8_type = some 1
  checked_element_size i16_type = some 2
  checked_element_size u16_type = some 2
  checked_element_size f16_type = some 2
  checked_element_size i32_type = some 4
  checked_element_size u32_type = some 4
  checked_element_size f32_type = some 4
  checked_element_size i64_type = some 8
  checked_element_size u64_type = some 8
  checked_element_size f64_type = some 8
  checked_element_size b1_type = some 1
  checked_element_size void_type = some 1
  checked_element_size (array_type t len) = do
    size ← checked_element_size t
    count ← checked_u32 len
    checked_u32 (size * count)
  checked_element_size (ptr_type _) = some 4
  checked_element_size (const_ptr_type _) = some 4
  checked_element_size (fn_type _ _) = some 4
  checked_element_size (linear_view _ _) = some 8
  checked_element_size (strided_view_type _ _ _) = some 8
  checked_element_size (ring_view _ _ _) = some 16
  checked_element_size (bit_view _) = some 12
  checked_element_size (struct_type _ explicit_repr fields) = sum_fields 0 fields
  checked_element_size (struct_type _ packed_repr fields) = sum_fields 0 fields
  checked_element_size (struct_type _ c_repr fields) = pad_end (c_fields 0 1 fields)
  checked_element_size (enum_type _ t _) = checked_element_size t
  checked_element_size _ = some 4

  -- The fold over the fields of an unpadded struct.
  pub sum_fields : ℕ → TyFields → Option ℕ
  sum_fields offset no_ty_fields = some offset
  sum_fields offset (ty_field _ t fields) = do
    size ← checked_element_size t
    next ← checked_u32 (offset + size)
    sum_fields next fields

  -- The loop over the fields of a C struct: the offset behind them and the greatest alignment.
  pub c_fields : ℕ → ℕ → TyFields → Option (ℕ × ℕ)
  c_fields offset max_align no_ty_fields = some (offset, max_align)
  c_fields offset max_align (ty_field _ t fields) = do
    start ← checked_align_to offset (align_of t)
    size ← checked_element_size t
    next ← checked_u32 (start + size)
    c_fields next (max max_align (align_of t)) fields

unfoldable pub checked_struct_size : StructRepr → TyFields → Option ℕ
unfolding checked_element_size
checked_struct_size explicit_repr fields = sum_fields 0 fields
checked_struct_size packed_repr fields = sum_fields 0 fields
checked_struct_size c_repr fields = pad_end (c_fields 0 1 fields)

abbrev or_max : Option ℕ → ℕ
or_max none = 2 ^ 32 - 1
or_max (some n) = n

unfoldable pub element_size : Ty → ℕ
unfolding checked_element_size
element_size t = or_max (checked_element_size t)

unfoldable pub struct_size : StructRepr → TyFields → ℕ
unfolding checked_struct_size
struct_size repr fields = or_max (checked_struct_size repr fields)

unfoldable pub align_to : ℕ → ℕ → ℕ
unfolding checked_align_to
align_to value align = or_max (checked_align_to value align)
