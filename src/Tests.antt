-- ===== src/Tests.antt =====
-- The theorems at concrete inputs.
pub mod Domains
pub mod Sharing
pub mod Regex
pub mod Driver
pub mod Dist
pub mod Circom
pub mod Net
pub mod Outputs
