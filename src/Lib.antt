-- ===== src/Lib.antt =====
-- ZK-PSE proves statements about private data, such as "this text matches that pattern", with
-- several parties that share the work. This library is a model of the parts of it that are
-- computations, with theorems about them. In the repository these are
--   * secret-sharing: packed secret sharing. A dealer puts l secrets and t random points into one
--     polynomial by an inverse transform, and the parties get its values; sums and products of
--     shares are shares of sums and products. On top of it stand dist-primitives (distributed
--     transforms and products), groth16 (the distributed prover), mpc-net (the network between
--     the parties) and snarkpack (aggregation of proofs);
--   * regex/zk-regex-compiler-v2/packages/compiler: a compiler from patterns in public and private
--     parts to one automaton, and from there to a circuit. For each part it builds an automaton
--     with regex-automata, reads it back from its printed form, renumbers its states by a
--     breadth-first search from the start, turns the labels of the edges into bytes, and appends
--     it to the automaton so far; the edges of public parts are collected on the way.
--
-- The files:
--   * Base, Base/Tests, Base/Lists: names and lemmas that all others share. `none` in an `Option`
--     is a panic of the code, unless a comment says otherwise.
--   * Std: what the code takes of the standard library: orders, text as bytes, and
--     `BTreeMap` and `BTreeSet` (Std/Map) as lists in the order of the keys.
--   * Algebra: ark-ff's field trait and ark-poly's `DomainCoeff` as records of operations and laws
--     (Algebra), a solver for equations in rings (Algebra/Ring), and the integers modulo 3
--     (Algebra/Sample).
--   * Sharing/Poly: secret-sharing/src/utils.rs, function for function. A loop that writes a slice
--     in place is a function from the list to the list after it. Its children hold the theorems on
--     evaluation, division, the polynomial with given roots, and interpolation.
--   * Sharing/Pss: secret-sharing/src/pss.rs. `PackedSharingParams` is the struct of that name; its
--     methods are functions of it. An evaluation domain is ark-poly's, so it is a record of the
--     calls that the code makes, with what ark-poly documents of them.
--   * Regex/Structs: structs.rs and errors.rs of the compiler.
--   * Regex/Caret: `find_caret_index`, `process_caret_in_regex`, `validate_end_anchor` of regex.rs. The
--     scan notes whether its `debug_assert!` has failed: a debug build panics then.
--   * Regex/Label: from `create_special_char_mappings` to `process_state_edges`.
--   * Regex/Bfs: `handle_eoi_transitions` and `sort_and_rename_states`.
--   * Regex/Graph: the operations on automata, from `modify_graph_for_caret` to `rename_states`,
--     from `merge_edges` to `add_dfa`, matching, and the queries for a state.
--   * Regex/Public: from `collect_accepting_states` to `process_public_regex`.
--   * Regex/Parse: `parse_states`, `parse_transition` and `find_start_state`, on what the captures of
--     the regex crate yield.
--   * Regex/Driver: `convert_dfa_to_graph`, `get_regex_and_dfa`, `create_dfa_graph_from_regex` and
--     `create_regex_and_dfa_from_str_and_defs`, for any DFA builder and printer.
--   * Regex/Circom: circom.rs. Ranges is `optimize_char_ranges`; Lines the lines of the loop over the
--     bytes, a constructor for each format string; Gates the functions from `add_range_check` to
--     `add_state_update`, which change one record, whose field `panicked` stands for an `unwrap` that
--     has met no key; Transition `build_reverse_graph` and
--     `generate_state_transition_logic`; Template and Reveal the text around the loop. Wires says
--     what the lines ask of the values on the wires at one position; the keys that serde_json
--     writes and the helper templates of circomlib are parameters there.
--   * Regex/Halo2: halo2.rs. Regex/Outputs: lib.rs and `gen_circom_template`, with the files that a
--     call wrote as a part of its result; whether a write succeeds, and what is read, are parameters.
--   * Dist/Pack: `pack_vec` and `transpose` of dist-primitives/src/utils/pack.rs.
--   * Dist/Degree: the king's part of `deg_red` (dist-primitives/src/utils/deg_red.rs).
--   * Dist/Partial: the king's loops in `d_pp` (dist-primitives/src/dpp/mod.rs).
--   * Net: the provided methods of the traits in mpc-net/src/lib.rs (Net/Exchange) and ser_net.rs
--     (Net/Shares). The king's concurrent tasks are the relation `Reaches` on what it has collected;
--     they end in any order, and the timeout can come after any of them.
--   * Tests: concrete domains and automata, and the theorems at them.
--
-- Bounds and fuel: `usize` is ℕ where the code only counts the entries of a vector in memory; a
-- subtraction that could go below zero is commented on where it stands. The bytes in Regex/Circom/Ranges
-- are `u8` with the wrap-around of a release build, and the driver in Regex/Driver is a release build. The search in Regex/Bfs has
-- one round more than there are edges and a start, since each round takes one id off the queue and
-- a state's edges are queued once. The scan in Regex/Caret moves on in each round. `is_power_of_two`
-- halves its number, which is fuel enough.
--
-- Not modelled: Gao decoding (secret-sharing/src/gao.rs), the rest of dist-primitives, the
-- transports of mpc-net (multi.rs, prod.rs), and the crates groth16 and snarkpack. The bindings
-- (wasm.rs, bin/compiler.rs), the services and logs of groth16, the export of a contract
-- (solidity.rs) and the examples are input and output only.
pub mod Base
pub mod Std
pub mod Algebra
pub mod Sharing
pub mod Regex
pub mod Dist
pub mod Net
pub mod Tests
