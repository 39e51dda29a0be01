-- ===== src/Regex/Circom/Transition.antt =====
-- compiler/src/circom.rs: the reverse graph, and the loop over the states that writes the circuit
-- of one position.
use zk_pse.Base.{
  ℕ, zero, suc, ◌-◌, ◌==◌, Bool, false, if◌then◌else◌, List, [], ◌∷◌, ◌++◌, map, Option, none, some,
}
use zk_pse.Std.Ord.{nat_ord, pair_ord, bytes_ord}
use zk_pse.Std.Map.{Map, Set, get, insert, add}
use zk_pse.Std.Sort.{sort}
use zk_pse.Std.Text.{Text, bytes}
use zk_pse.Regex.Structs.{DfaStateNode, DfaGraph, Result, ok, err, CompilerError}
use zk_pse.Regex.Graph.{is_accept}
use zk_pse.Regex.Circom.Lines.{Gate, eq_gate, StateVar, Line}
use zk_pse.Regex.Circom.Ranges.{optimize_char_ranges}
use zk_pse.Regex.Circom.Gates.{
  Builder, add_range_check, add_eq_check, add_state_transition, add_state_update, state_var_of,
}

abbrev pub RevGraph : Type 0
RevGraph = Map ℕ (Map ℕ (List ℕ))

-- `for i in 0..state_len { rev_graph.insert(i, BTreeMap::new()); }`, `left` of them from `i` on
unfoldable pub empty_nodes : ℕ → ℕ → RevGraph → RevGraph
empty_nodes zero i rev_graph = rev_graph
empty_nodes (suc left) i rev_graph = empty_nodes left (suc i) (insert i [] rev_graph)

-- `for (k, v) in &node.transitions`: `none` is the panic on an id that is no place.
unfoldable pub add_reversed : ℕ → Map ℕ (Set ℕ) → RevGraph → Option RevGraph
add_reversed i [] rev_graph = some rev_graph
add_reversed i ((k, v) ∷ transitions) rev_graph = elim (get k rev_graph) [
  | none ↦ none
  | some from ↦ add_reversed i transitions (insert k (insert i v from) rev_graph)
]

unfoldable pub add_nodes : ℕ → List DfaStateNode → RevGraph × Set ℕ → Option (RevGraph × Set ℕ)
add_nodes i [] acc = some acc
add_nodes i (node ∷ nodes) (rev_graph, accept_nodes) =
    elim (add_reversed i node.transitions rev_graph) [
      | none ↦ none
      | some rev_graph' ↦
          add_nodes (suc i) nodes
            (rev_graph', if is_accept node then add i accept_nodes else accept_nodes)
    ]

-- `none` is a panic.
unfoldable pub build_reverse_graph : ℕ → DfaGraph → Option (Result (RevGraph × Set ℕ))
build_reverse_graph state_len dfa_graph =
    elim (add_nodes 0 dfa_graph.states (empty_nodes state_len 0 [], [])) [
      | none ↦ none
      | some (rev_graph, accept_nodes) ↦ elim accept_nodes [
        | [] ↦ some (err (CompilerError.accept_nodes_error (bytes "Accept node must exist")))
        | n ∷ ns ↦ some (ok (rev_graph, n ∷ ns))
      ]
    ]

unfoldable pub add_ranges : List (ℕ × ℕ) → Builder × List (Gate × ℕ) → Builder × List (Gate × ℕ)
add_ranges [] s = s
add_ranges ((min, max) ∷ min_maxes) s = add_ranges min_maxes (add_range_check min max s)

-- `let eq_index = add_eq_check(..); eq_outputs.push(("eq", eq_index));`
unfoldable pub add_code : ℕ → Builder × List (Gate × ℕ) → Builder × List (Gate × ℕ)
add_code code (b, eq_outputs) =
    let (b', eq_index) = add_eq_check code b in (b', eq_outputs ++ (eq_gate, eq_index) ∷ [])

unfoldable pub add_codes : List ℕ → Builder × List (Gate × ℕ) → Builder × List (Gate × ℕ)
add_codes [] s = s
add_codes (code ∷ codes) s = add_codes codes (add_code code s)

-- `k.retain(|&x| x != 0)`
unfoldable pub retain_nonzero : List ℕ → List ℕ
retain_nonzero [] = []
retain_nonzero (x ∷ k) = if x == 0 then retain_nonzero k else x ∷ retain_nonzero k

-- the tests of the bytes of one edge, and their outputs
unfoldable pub add_checks : List ℕ → Builder → Builder × List (Gate × ℕ)
add_checks chars b =
    let (min_maxes, individual_chars) = optimize_char_ranges (sort (retain_nonzero chars)) in
    add_codes individual_chars (add_ranges min_maxes (b, []))

unfoldable pub mark_zero_starting : ℕ → ℕ → Builder → Builder
mark_zero_starting i prev_i b =
    if prev_i == 0 then record b { zero_starting_states = b.zero_starting_states ++ i ∷ [] } else b

unfoldable pub loop_start : ℕ → Bool → List Line
loop_start state_len end_anchor =
    Line.for_bytes
    ∷ Line.state_changed (state_len - 1)
    ∷ Line.first_state_on
    ∷ (if end_anchor then Line.padding_start ∷ [] else [])

-- the values before the first line
unfoldable pub empty_builder : List Line → Builder
empty_builder lines = record {
  lines = lines;
  eq_i = 0;
  lt_i = 0;
  and_i = 0;
  multi_or_i = 0;
  range_checks = [];
  eq_checks = [];
  multi_or_checks1 = [];
  multi_or_checks2 = [];
  zero_starting_states = [];
  zero_starting_and_idxes = [];
  panicked = false;
}

abbrev pub next_var : List ℕ → ℕ → StateVar × ℕ
next_var zero_starting_states i = (state_var_of i zero_starting_states, i)

-- `n` numbers from `i` on
unfoldable pub count_up : ℕ → ℕ → List ℕ
count_up zero i = []
count_up (suc n) i = i ∷ count_up n (suc i)

unfoldable pub add_from_zero_enabled : ℕ → List ℕ → Line
add_from_zero_enabled state_len zero_starting_states =
    Line.from_zero_enabled (state_len - 1)
      (map (next_var zero_starting_states) (count_up (state_len - 1) 1))

unfoldable pub add_zero_starting_state_updates : Map ℕ (List ℕ) → List Line
add_zero_starting_state_updates [] = []
add_zero_starting_state_updates ((i, ands) ∷ idxes) =
    let rest = add_zero_starting_state_updates idxes in
    elim ands [ [] ↦ rest | a ∷ as' ↦ Line.zero_starting_update i (a ∷ as') ∷ rest ]

unfoldable pub add_state_changed_updates : ℕ → List Line
add_state_changed_updates state_len =
    map (λ i. Line.state_changed_input (i - 1) i) (count_up (state_len - 1) 1)

-- `rev_graph.get(&i).unwrap_or(&BTreeMap::new())`
abbrev pub edges_to : ℕ → RevGraph → Map ℕ (List ℕ)
edges_to i rev_graph = elim (get i rev_graph) [ none ↦ [] | some from ↦ from ]

module _ (edge_json : List (Gate × ℕ) → Text) (state_json : List ℕ → Text) where
  -- `for (prev_i, chars) in rev_graph.get(&i)`, with `outputs`
  unfoldable pub add_edge : ℕ → ℕ → List ℕ → Builder × List ℕ → Builder × List ℕ
  add_edge i prev_i chars (b, outputs) =
      let (b', eq_outputs) = add_checks chars (mark_zero_starting i prev_i b) in
      let b'' = add_state_transition edge_json i prev_i eq_outputs b' in
      (b'', if prev_i == 0 then outputs else outputs ++ (b''.and_i - 1) ∷ [])

  unfoldable pub add_edges : ℕ → Map ℕ (List ℕ) → Builder × List ℕ → Builder × List ℕ
  add_edges i [] s = s
  add_edges i ((prev_i, chars) ∷ from) s = add_edges i from (add_edge i prev_i chars s)

  -- one round of `for i in 1..state_len`
  unfoldable pub add_state : RevGraph → ℕ → Builder → Builder
  add_state rev_graph i b =
      let (b', outputs) =
        add_edges i (edges_to i rev_graph)
          (record b { zero_starting_and_idxes = insert i [] b.zero_starting_and_idxes }, []) in
      add_state_update state_json i outputs b'

  unfoldable pub add_states : RevGraph → List ℕ → Builder → Builder
  add_states rev_graph [] b = b
  add_states rev_graph (i ∷ is) b = add_states rev_graph is (add_state rev_graph i b)

  unfoldable pub generate_state_transition_logic : RevGraph → ℕ → Bool → Builder
  generate_state_transition_logic rev_graph state_len end_anchor =
      let b =
        add_states rev_graph (count_up (state_len - 1) 1)
          (empty_builder (loop_start state_len end_anchor)) in
      record b {
        lines =
            b.lines
            ++ (add_from_zero_enabled state_len b.zero_starting_states
                ∷ (add_zero_starting_state_updates b.zero_starting_and_idxes
                    ++ (add_state_changed_updates state_len ++ Line.end_for ∷ [])));
      }
