-- ===== src/Ast/Items.antt =====
-- The items of bml-core/src/ast.rs: what stands at the top level of a program.
use beemel.Prelude.{ℕ, Text, Bool, Option, List}
use beemel.Ast.Names.{Span, Ident}
use beemel.Ast.Syntax.{Expr, Block, TypeExpr}

pub data OwnsTarget : Type 0 where
  reg : (peripheral : Ident) (register : Option Ident) → OwnsTarget
  gpio : (lo hi : ℕ) → OwnsTarget

pub record OwnsPath : Type 0 where
  pub target : OwnsTarget
  pub span : Span

pub record OwnsStmt : Type 0 where
  pub paths : List OwnsPath

pub record ComptimeAssert : Type 0 where
  pub cond : Expr
  pub span : Span

pub data ContextExpr : Type 0 where
  thread_context any_context : ContextExpr

pub record IsrAnnotation : Type 0 where
  pub label : Option Text
  pub priority : ℕ
  pub tailchain : Bool

pub record Param : Type 0 where
  pub name : Ident
  pub ty : TypeExpr
  pub comptime : Bool

pub record FnDef : Type 0 where
  pub exported : Bool
  pub name : Ident
  pub params : List Param
  pub ret : Option TypeExpr
  pub context : ContextExpr
  pub isr : Option IsrAnnotation
  pub naked : Bool
  pub section : Option Text
  pub body : Block

pub record ExternFnDef : Type 0 where
  pub exported : Bool
  pub name : Ident
  pub params : List Param
  pub ret : Option TypeExpr
  pub context : Option ContextExpr
  pub isr : Option IsrAnnotation

pub data StorageAnnotation : Type 0 where
  exclusive : Ident → StorageAnnotation
  shared : Option ℕ → StorageAnnotation
  dma external : StorageAnnotation
  section_name : Text → StorageAnnotation
  align : ℕ → StorageAnnotation

pub record StaticDef : Type 0 where
  pub exported : Bool
  pub name : Ident
  pub ty : TypeExpr
  pub storage : List StorageAnnotation
  pub region : Option Ident
  pub init : Option Expr

pub record ConstDef : Type 0 where
  pub exported : Bool
  pub name : Ident
  pub ty : TypeExpr
  pub value : Expr

pub data Access : Type 0 where
  read_write read_only write_only : Access

pub data BitSpec : Type 0 where
  single : ℕ → BitSpec
  bit_range : ℕ → ℕ → BitSpec

pub record FieldDef : Type 0 where
  pub name : Ident
  pub ty : TypeExpr
  pub bit_spec : BitSpec
  pub access : Option Access

pub record RegArray : Type 0 where
  pub len : ℕ
  pub stride : ℕ

pub record RegDef : Type 0 where
  pub name : Ident
  pub offset : ℕ
  pub fields : List FieldDef
  pub array : Option RegArray

pub record PeripheralDef : Type 0 where
  pub exported : Bool
  pub name : Ident
  pub base_addr : ℕ
  pub regs : List RegDef
  pub of_type : Option Ident

pub record PeripheralTypeDef : Type 0 where
  pub name : Ident
  pub regs : List RegDef

pub record PeripheralInstanceDef : Type 0 where
  pub exported : Bool
  pub name : Ident
  pub type_name : Ident
  pub base_addr : ℕ

pub data StructRepr : Type 0 where
  explicit_repr c_repr packed_repr : StructRepr

pub record FieldExtent : Type 0 where
  pub addr_field : Ident
  pub scale : ℕ
  pub mask : Option ℕ

pub data FieldEndian : Type 0 where
  native big little : FieldEndian

pub record StructFieldDef : Type 0 where
  pub name : Ident
  pub ty : TypeExpr
  pub endian : FieldEndian
  pub extent : Option FieldExtent

pub record StructDef : Type 0 where
  pub exported : Bool
  pub name : Ident
  pub repr : StructRepr
  pub fields : List StructFieldDef

pub record EnumVariantDef : Type 0 where
  pub name : Ident
  pub value : Option ℕ

pub record EnumDef : Type 0 where
  pub exported : Bool
  pub name : Ident
  pub ty : TypeExpr
  pub variants : List EnumVariantDef

pub record ImportStmt : Type 0 where
  pub path : List Ident
  pub alias : Option Ident

pub data Item : Type 0 where
  fn_def : FnDef → Item
  extern_fn_def : ExternFnDef → Item
  static_def : StaticDef → Item
  const_def : ConstDef → Item
  peripheral_def : PeripheralDef → Item
  peripheral_type : PeripheralTypeDef → Item
  peripheral_instance : PeripheralInstanceDef → Item
  import : ImportStmt → Item
  struct_def : StructDef → Item
  enum_def : EnumDef → Item
  comptime_assert : ComptimeAssert → Item
  owns : OwnsStmt → Item

pub record Program : Type 0 where
  pub items : List Item
  pub wrap_spans : List Span
