-- ===== src/Types/Syntax.antt =====
-- `Type` of bml-core/src/types.rs. The fields of a struct and the parameters of a function pointer
-- are data types of the block. The token in `Error` carries no data.
use beemel.Prelude.{ℕ, Text, Bool, List, Option}
use beemel.Prelude.Int.{ℤ}
use beemel.Ast.Items.{StructRepr}

mutual
  pub data Ty : Type 0 where
    i8_type i16_type i32_type i64_type u8_type u16_type u32_type u64_type : Ty
    f16_type f32_type f64_type b1_type b8_type : Ty
    array_type : Ty → (len : ℕ) → Ty
    ptr_type const_ptr_type : Ty → Ty
    linear_view : Ty → (mutable : Bool) → Ty
    strided_view_type : Ty → (mutable : Bool) → (stride : ℕ) → Ty
    ring_view : Ty → (mutable : Bool) → (capacity : Option ℕ) → Ty
    bit_view : (mutable : Bool) → Ty
    void_type : Ty
    exclusive_type : Ty → Ty
    shared_type : Ty → (ceiling : ℕ) → Ty
    mmio_type agent_shared : Ty → Ty
    addr_type : Text → Ty
    struct_type : Text → StructRepr → TyFields → Ty
    enum_type : Text → Ty → List (Text × ℤ) → Ty
    peripheral_handle unresolved : Text → Ty
    fn_type : Tys → Ty → Ty
    null_type error_type : Ty

  pub data TyFields : Type 0 where
    no_ty_fields : TyFields
    ty_field : Text → Ty → TyFields → TyFields

  pub data Tys : Type 0 where
    no_tys : Tys
    ty_then : Ty → Tys → Tys

pub data Semantics : Type 0 where
  copy move : Semantics
