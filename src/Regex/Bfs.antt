-- ===== src/Regex/Bfs.antt =====
-- regex/zk-regex-compiler-v2/packages/compiler/src/regex.rs: `handle_eoi_transitions` and
-- `sort_and_rename_states`, on the states as they are read from the text of the DFA.
pub mod Rounds
pub mod Order
pub mod Language
use zk_pse.Base.{
  ℕ, zero, suc, ◌+◌, ◌==◌, Bool, true, false, not, if◌then◌else◌, List, [], ◌∷◌, ◌++◌, map, length,
  Option, none, some,
}
use zk_pse.Std.Ord.{nat_ord, bytes_ord}
use zk_pse.Std.Map.{Map, Set, get, insert, remove, contains, add}
use zk_pse.Std.Text.{Text, bytes}
use zk_pse.Regex.Structs.{DfaStateInfo, DfaGraphInfo}

unfoldable pub handle_eoi_state : DfaStateInfo → DfaStateInfo
handle_eoi_state state = elim (get (bytes "EOI") state.edges) [
  | some _ ↦ record state { typ = bytes "accept"; edges = remove (bytes "EOI") state.edges }
  | none ↦ state
]

unfoldable pub handle_eoi_transitions : DfaGraphInfo → DfaGraphInfo
unfolding handle_eoi_state
handle_eoi_transitions dfa_info = record { states = map handle_eoi_state dfa_info.states }

-- `states.iter().find(|s| s.source == state_id)`
unfoldable pub find_state : ℕ → List DfaStateInfo → Option DfaStateInfo
find_state id [] = none
find_state id (s ∷ states) = if s.source == id then some s else find_state id states

abbrev pub targets : DfaStateInfo → List ℕ
targets s = map (λ e. e.1) s.edges

-- `.filter(|&dst| !visited.contains(dst))`
unfoldable pub unvisited : Set ℕ → List ℕ → List ℕ
unvisited visited [] = []
unvisited visited (d ∷ ds) =
    if contains d visited then unvisited visited ds else d ∷ unvisited visited ds

pub record Search : Type 0 where
  pub sorted_states : List DfaStateInfo
  pub visited : Set ℕ
  pub queue : List ℕ

-- One round, for the id that `pop_front` took off the queue.
unfoldable pub visit : List DfaStateInfo → ℕ → Search → Search
visit states id s = if contains id s.visited then s else elim (find_state id states) [
  | none ↦ record s { visited = add id s.visited }
  | some state ↦ record {
    sorted_states = s.sorted_states ++ state ∷ [];
    visited = add id s.visited;
    queue = s.queue ++ unvisited (add id s.visited) (targets state);
  }
]

-- `while let Some(state_id) = queue.pop_front()`, with fuel
unfoldable pub search : ℕ → List DfaStateInfo → Search → Option (List DfaStateInfo)
search zero states s = none
search (suc fuel) states s = elim s.queue [
  | [] ↦ some s.sorted_states
  | id ∷ rest ↦ search fuel states (visit states id (record s { queue = rest }))
]

-- `enumerate().map(|(new_id, state)| (state.source, new_id)).collect()`
unfoldable pub collect_ids : ℕ → List DfaStateInfo → Map ℕ ℕ → Map ℕ ℕ
collect_ids new_id [] m = m
collect_ids new_id (s ∷ states) m = collect_ids (suc new_id) states (insert s.source new_id m)

-- `*state_map.get(dst).unwrap_or(dst)`
unfoldable pub new_target : Map ℕ ℕ → ℕ → ℕ
new_target state_map dst = elim (get dst state_map) [ none ↦ dst | some i ↦ i ]

unfoldable pub rename_edges : Map ℕ ℕ → Map Text ℕ → Map Text ℕ
rename_edges state_map [] = []
rename_edges state_map ((label, dst) ∷ edges) =
    (label, new_target state_map dst) ∷ rename_edges state_map edges

unfoldable pub renumber : Map ℕ ℕ → ℕ → List DfaStateInfo → List DfaStateInfo
renumber state_map new_id [] = []
renumber state_map new_id (s ∷ states) =
    record s { source = new_id; edges = rename_edges state_map s.edges }
    ∷ renumber state_map (suc new_id) states

-- All edges of all states: no more ids are ever queued behind the first.
unfoldable pub count_edges : List DfaStateInfo → ℕ
count_edges [] = 0
count_edges (s ∷ states) = length (targets s) + count_edges states

-- `none` would mean that the fuel was short.
unfoldable pub sort_and_rename_states : DfaGraphInfo → ℕ → Option DfaGraphInfo
sort_and_rename_states dfa_info start_state =
    elim (search (count_edges dfa_info.states + 2) dfa_info.states
      (record { sorted_states = []; visited = []; queue = start_state ∷ [] })) [
        | none ↦ none
        | some sorted ↦ some (record { states = renumber (collect_ids 0 sorted []) 0 sorted })
      ]
