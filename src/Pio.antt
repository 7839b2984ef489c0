-- ===== src/Pio.antt =====
-- The PIO assembler, pio-encode/src/lib.rs.
pub mod Error
pub mod Ensures
pub mod Chars
pub mod Expr
pub mod SideSet
pub mod Operands
pub mod Encode
pub mod Decode
pub mod Line
pub mod State
pub mod Directive
pub mod Assembler
mod Tests
