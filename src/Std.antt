-- ===== src/Std.antt =====
-- The parts of Rust's standard library that the crates use: ordered maps and sets, text.
pub mod Ord
pub mod Map
pub mod Text
pub mod Sort
