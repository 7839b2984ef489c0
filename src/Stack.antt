-- ===== src/Stack.antt =====
-- Stack analysis: bml-core/src/stack.rs.
pub mod Run
pub mod Frame
pub mod Info
pub mod Free
pub mod Indirect
pub mod Depth
pub mod Fuel
pub mod Chains
pub mod Search
mod Tests
