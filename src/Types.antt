-- ===== src/Types.antt =====
-- Types, their layout and their compatibility: bml-core/src/types.rs.
pub mod Syntax
pub mod Layout
pub mod CStruct
pub mod Placed
pub mod Resolve
pub mod Compatible
mod Tests
