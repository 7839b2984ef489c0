-- ===== src/Word.antt =====
-- Rust's fixed-width signed integers (`i64`, `i128`): `w` bits in two's complement. A value is an
-- integer; `checked_*` is `none` where the result has no `w`-bit representation.
mod Defs
mod Laws
unfoldable pub use Defs.*
pub use Laws.*
