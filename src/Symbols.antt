-- ===== src/Symbols.antt =====
-- The symbols of bml-core/src/resolver.rs. The table has the maps that the passes over
-- functions and statics read.
use beemel.Prelude.{ℕ, Text, Bool, Option, List, Map}
use beemel.Ast.Items.{StorageAnnotation}
use beemel.Context.{Context, Contexts}
use beemel.Types.Syntax.{Ty}
use beemel.Types.Resolve.{StructInfo, EnumDefs}

pub record FnSymbol : Type 0 where
  pub context : Context
  pub params : List (Text × Ty)
  pub comptime : List Bool
  pub ret : Option Ty
  pub isr_label : Option Text
  pub naked : Bool
  pub section : Option Text
  pub tailchain : Bool
  pub has_calls : Bool
  pub local_frame : ℕ
  pub callees : List Text
  pub max_depth : ℕ

pub record StaticSymbol : Type 0 where
  pub ty : Ty
  pub storage : List StorageAnnotation

pub record SymbolTable : Type 0 where
  pub functions : Map FnSymbol
  pub statics : Map StaticSymbol
  pub structs : Map StructInfo
  pub enums : EnumDefs
  pub fn_possible_contexts : Contexts
