-- ===== src/ConstEval.antt =====
-- Compile-time evaluation of constant expressions: bml-core/src/consteval.rs.
pub mod Value
pub mod Eval
pub mod Cast
pub mod Bounds
pub mod Overflow
mod Tests
