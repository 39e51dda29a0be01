-- ===== src/Dist.antt =====
-- dist-primitives/src: what the parties compute on packed vectors.
pub mod Pack
pub mod Degree
pub mod Partial
