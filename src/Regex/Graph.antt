-- ===== src/Regex/Graph.antt =====
-- regex/zk-regex-compiler-v2/packages/compiler/src/regex.rs: the operations on graphs of states.
pub mod Merge
pub mod Run
use zk_pse.Base.{
  ℕ, zero, suc, ◌+◌, ◌==◌, Bool, true, false, not, ◌&&◌, if◌then◌else◌, List, [], ◌∷◌, ◌++◌, map,
  length, get_elem?, Option, none, some, max, foldl,
}
use zk_pse.Std.Ord.{same, nat_ord, bytes_ord}
use zk_pse.Std.Map.{Map, Set, get, insert, entry, contains, add, delete}
use zk_pse.Std.Text.{Text, bytes}
use zk_pse.Regex.Structs.{Result, ok, err, graph_error, DfaStateNode, DfaGraph, RegexPartConfig}

abbrev pub is_accept : DfaStateNode → Bool
is_accept s = same s.state_type (bytes "accept")

-- `states.iter().find(|state| state.state_type == "accept")`
unfoldable pub find_accept : List DfaStateNode → Option DfaStateNode
find_accept [] = none
find_accept (s ∷ states) = if is_accept s then some s else find_accept states

unfoldable pub modify_graph_for_caret : DfaGraph → Result DfaGraph
modify_graph_for_caret graph = elim graph.states [
  | [] ↦ err (graph_error (bytes "Start state not found"))
  | start ∷ rest ↦
      let start' = record start { state_type = [] } in
      elim (find_accept (start' ∷ rest)) [
        | none ↦ err (graph_error (bytes "Accept state not found"))
        | some accepted ↦ ok (record {
          states =
              record start' {
                transitions = entry accepted.state_id [] (add 255) start'.transitions;
              }
              ∷ rest;
        })
      ]
]

unfoldable pub create_simple_caret_graph : DfaGraph
create_simple_caret_graph = record {
  states =
      record { state_type = []; state_id = 0; transitions = (1, 255 ∷ []) ∷ [] }
      ∷ record { state_type = bytes "accept"; state_id = 1; transitions = [] }
      ∷ [];
}

unfoldable pub handle_caret_regex : ℕ → Option ℕ → RegexPartConfig → DfaGraph → Result DfaGraph
handle_caret_regex idx caret_position regex graph = elim caret_position [
  | none ↦ ok graph
  | some _ ↦
      if idx == 0
      then (if same regex.regex_def (bytes "^")
          then ok create_simple_caret_graph
          else modify_graph_for_caret graph)
      else ok graph
]

-- `enumerate().map(|(i, state)| (state.state_id, i + base)).collect()`
unfoldable pub state_id_mapping : ℕ → List DfaStateNode → Map ℕ ℕ → Map ℕ ℕ
state_id_mapping i [] m = m
state_id_mapping i (s ∷ states) m = state_id_mapping (suc i) states (insert s.state_id i m)

-- `map(|(key, value)| (mapping[key], value)).collect()`: `none` is the panic of `expect`.
unfoldable pub rename_transitions : Map ℕ ℕ → Map ℕ (Set ℕ) → Map ℕ (Set ℕ) → Option (Map ℕ (Set ℕ))
rename_transitions mapping [] out = some out
rename_transitions mapping ((key, value) ∷ rest) out = elim (get key mapping) [
  | none ↦ none
  | some k ↦ rename_transitions mapping rest (insert k value out)
]

unfoldable pub rename_nodes : Map ℕ ℕ → ℕ → List DfaStateNode → Option (List DfaStateNode)
rename_nodes mapping i [] = some []
rename_nodes mapping i (s ∷ states) =
    let rest = rename_nodes mapping (suc i) states in
    elim (rename_transitions mapping s.transitions []) [
      | none ↦ none
      | some ts ↦ elim rest [
        | none ↦ none
        | some states' ↦ some (record s { state_id = i; transitions = ts } ∷ states')
      ]
    ]

-- The counter starts at `base`.
unfoldable pub rename_states : DfaGraph → ℕ → Option DfaGraph
rename_states dfa_graph base =
    elim (rename_nodes (state_id_mapping base dfa_graph.states []) base dfa_graph.states) [
      | none ↦ none
      | some states ↦ some (record { states = states })
    ]

-- `values.retain(|val| val != edge_value)` in every set
unfoldable pub retain_others : ℕ → Map ℕ (Set ℕ) → Map ℕ (Set ℕ)
retain_others edge_value [] = []
retain_others edge_value ((k, values) ∷ m) =
    (k, delete edge_value values) ∷ retain_others edge_value m

-- `for edge_value in v`
unfoldable pub retain_none_of : List ℕ → Map ℕ (Set ℕ) → Map ℕ (Set ℕ)
retain_none_of [] m = m
retain_none_of (edge_value ∷ v) m = retain_none_of v (retain_others edge_value m)

-- `for (k, v) in &source_state.transitions`
unfoldable pub merge_transitions : Map ℕ (Set ℕ) → Map ℕ (Set ℕ) → Map ℕ (Set ℕ)
merge_transitions [] target = target
merge_transitions ((k, v) ∷ source) target =
    merge_transitions source (insert k v (retain_none_of v target))

unfoldable pub merge_edges : DfaStateNode → DfaStateNode → DfaStateNode
merge_edges target_state source_state = record target_state {
  transitions = merge_transitions source_state.transitions target_state.transitions;
}

unfoldable pub update_state_type : DfaStateNode → DfaStateNode → DfaStateNode
update_state_type target_state source_state = record target_state {
  state_type = if is_accept source_state then bytes "accept" else [];
}

unfoldable pub process_accept_state : DfaStateNode → DfaStateNode → DfaStateNode
process_accept_state accept_state start_state =
    update_state_type (merge_edges accept_state start_state) start_state

-- `iter_mut().filter(accept).for_each(process)`
unfoldable pub process_accept_states : DfaStateNode → List DfaStateNode → List DfaStateNode
process_accept_states start_state [] = []
process_accept_states start_state (s ∷ states) =
    (if is_accept s then process_accept_state s start_state else s)
    ∷ process_accept_states start_state states

-- `filter(|state| state.state_id != start_state.state_id)`
unfoldable pub without_id : ℕ → List DfaStateNode → List DfaStateNode
without_id id [] = []
without_id id (s ∷ states) =
    if s.state_id == id then without_id id states else s ∷ without_id id states

-- `none` is the panic on a graph with no states.
unfoldable pub add_dfa : DfaGraph → DfaGraph → Option DfaGraph
add_dfa net_dfa graph = elim net_dfa.states [
  | [] ↦ some graph
  | _ ∷ _ ↦ elim graph.states [
    | [] ↦ none
    | start_state ∷ _ ↦ some (record {
      states =
          process_accept_states start_state net_dfa.states
          ++ without_id start_state.state_id graph.states;
    })
  ]
]

-- `for (&state, char_set) in &current_node.transitions`, up to the first set with the byte
unfoldable pub next_state : ℕ → Map ℕ (Set ℕ) → Option ℕ
next_state byte [] = none
next_state byte ((state, char_set) ∷ rest) =
    if contains byte char_set then some state else next_state byte rest

-- `none` is the panic of an index out of bounds.
unfoldable pub match_from : DfaGraph → ℕ → Text → Option Bool
match_from graph current_state [] = elim (get_elem? graph.states current_state) [
  | none ↦ none
  | some node ↦ some (is_accept node)
]
match_from graph current_state (byte ∷ input) = elim (get_elem? graph.states current_state) [
  | none ↦ none
  | some node ↦ elim (next_state byte node.transitions) [
    | none ↦ some false
    | some state ↦ match_from graph state input
  ]
]

unfoldable pub match_string_with_dfa_graph : DfaGraph → Text → Option Bool
match_string_with_dfa_graph graph input = match_from graph 0 input

-- `iter().position(accept)`
unfoldable pub position_accept : ℕ → List DfaStateNode → Option ℕ
position_accept i [] = none
position_accept i (s ∷ states) = if is_accept s then some i else position_accept (suc i) states

unfoldable pub get_accepted_state : DfaGraph → Option ℕ
get_accepted_state dfa = position_accept 0 dfa.states

-- `map(state_id).max().unwrap_or_default()`
unfoldable pub get_max_state : DfaGraph → ℕ
get_max_state dfa = foldl (λ m s. max m s.state_id) 0 dfa.states
