-- ===== src/Regex/Public.antt =====
-- regex/zk-regex-compiler-v2/packages/compiler/src/regex.rs: the edges of the public parts.
pub mod Edges
use zk_pse.Base.{
  ℕ, zero, suc, ◌==◌, Bool, true, false, not, ◌&&◌, ◌||◌, if◌then◌else◌, List, [], ◌∷◌, ◌++◌, map,
}
use zk_pse.Std.Ord.{nat_ord, pair_ord}
use zk_pse.Std.Map.{Map, Set, add, add_all, delete}
use zk_pse.Regex.Structs.{DfaStateNode, DfaGraph, RegexPartConfig}
use zk_pse.Regex.Graph.{is_accept}

-- `collect_accepting_states` keeps the states and their ids in one loop.
unfoldable pub collect_accepting_loop :
    List DfaStateNode → List DfaStateNode × Set ℕ → List DfaStateNode × Set ℕ
collect_accepting_loop [] acc = acc
collect_accepting_loop (s ∷ states) (accepting, starts) =
    collect_accepting_loop states
      (if is_accept s then (accepting ++ s ∷ [], add s.state_id starts) else (accepting, starts))

unfoldable pub collect_accepting_states : DfaGraph → List DfaStateNode × Set ℕ
collect_accepting_states net_dfa = collect_accepting_loop net_dfa.states ([], [])

-- the pairs of one state
unfoldable pub edges_of : DfaStateNode → List (ℕ × ℕ)
edges_of s = map (λ e. (s.state_id, e.0)) s.transitions

unfoldable pub collect_public_loop : List DfaStateNode → Set (ℕ × ℕ) → Set (ℕ × ℕ)
collect_public_loop [] out = out
collect_public_loop (s ∷ states) out = collect_public_loop states (add_all (edges_of s) out)

unfoldable pub collect_public_edges : DfaGraph → Set (ℕ × ℕ)
collect_public_edges graph = collect_public_loop graph.states []

unfoldable pub collect_ends_loop : List DfaStateNode → Set ℕ → Set ℕ
collect_ends_loop [] out = out
collect_ends_loop (s ∷ states) out =
    collect_ends_loop states (if is_accept s then add s.state_id out else out)

unfoldable pub collect_substr_ends : DfaGraph → Set ℕ
collect_substr_ends graph = collect_ends_loop graph.states []

-- `filter(|(from, to)| from == max_state_index || to == max_state_index)`
unfoldable pub touching : ℕ → List (ℕ × ℕ) → List (ℕ × ℕ)
touching m [] = []
touching m ((from, to) ∷ edges) =
    if from == m || to == m then (from, to) ∷ touching m edges else touching m edges

-- all pairs, the outer loop over the first list
unfoldable pub pairs : List ℕ → List ℕ → List (ℕ × ℕ)
pairs [] ys = []
pairs (x ∷ xs) ys = map (λ y. (x, y)) ys ++ pairs xs ys

-- the body of the loop, after the edge is removed: what it inserts, in order
unfoldable pub replacements : ℕ → List ℕ → ℕ × ℕ → List (ℕ × ℕ)
replacements m accepting (from, to) =
    if from == m && to == m
    then pairs accepting accepting
    else if from == m
    then map (λ a. (a, to)) accepting
    else if to == m
    then map (λ a. (from, a)) accepting
    else []

unfoldable pub update_edges_loop : ℕ → List ℕ → List (ℕ × ℕ) → Set (ℕ × ℕ) → Set (ℕ × ℕ)
update_edges_loop m accepting [] edges = edges
update_edges_loop m accepting (e ∷ todo) edges =
    update_edges_loop m accepting todo (add_all (replacements m accepting e) (delete e edges))

unfoldable pub update_public_edges : Set (ℕ × ℕ) → ℕ → List DfaStateNode → Set (ℕ × ℕ)
update_public_edges public_edges max_state_index accepting_states =
    if max_state_index == 0
    then public_edges
    else update_edges_loop max_state_index (map (λ s. s.state_id) accepting_states)
        (touching max_state_index public_edges) public_edges

unfoldable pub process_public_regex :
    RegexPartConfig → DfaGraph → DfaGraph → ℕ → Set (ℕ × ℕ) × (Set ℕ × Set ℕ)
process_public_regex regex net_dfa graph previous_max_state_id =
    let (accepting_states, substring_starts) = collect_accepting_states net_dfa in
    if not regex.is_public then ([], ([], [])) else (
      update_public_edges (collect_public_edges graph) previous_max_state_id accepting_states,
      (substring_starts, collect_substr_ends graph),
    )
