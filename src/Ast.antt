-- ===== src/Ast.antt =====
-- The syntax tree of bml-core/src/ast.rs.
pub mod Names
pub mod Syntax
pub mod Items
pub mod Places
pub mod Blocks
mod Tests
