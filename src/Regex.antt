-- ===== src/Regex.antt =====
-- regex/zk-regex-compiler-v2/packages/compiler/src: from a regex to a graph of states.
pub mod Structs
pub mod Caret
pub mod Label
pub mod Bfs
pub mod Graph
pub mod Public
pub mod Parse
pub mod Driver
pub mod Circom
pub mod Halo2
pub mod Outputs
