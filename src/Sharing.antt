-- ===== src/Sharing.antt =====
-- secret-sharing/src: polynomials, the packed sharing and its decoder.
pub mod Poly
pub mod Pss
