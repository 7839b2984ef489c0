-- ===== src/Pio/Expr.antt =====
-- The expression language: integers, symbols, the operators, unary signs and parentheses.
pub mod Lex
pub mod Apply
pub mod Parser
pub mod Fuel
pub mod Bounds
pub mod Steps
pub mod Print
pub mod RoundTrip
mod Tests
