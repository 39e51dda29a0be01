-- ===== src/Regex/Circom.antt =====
-- regex/zk-regex-compiler-v2/packages/compiler/src/circom.rs: from an automaton to a circuit.
pub mod Ranges
pub mod Lines
pub mod Gates
pub mod Transition
pub mod Wires
pub mod Reveal
pub mod Template
pub mod Reverse
