-- ===== src/Tests/Regex.antt =====
-- The theorems on regex/zk-regex-compiler-v2/packages/compiler/src/regex.rs, at small automata.
use zk_pse.Base.{
  ap, ◌<◌, ◌↔◌, Bool, ◌∙◌, ℕ, ◌≤◌, ◌==◌, ◌&&◌, ◌⊎◌, not, if◌then◌else◌, true, false, List, [], ◌∷◌,
  map, none, some, ◌≡◌, refl, arith, Bool-cases, inl, inr,
}
use zk_pse.Std.Ord.{same, same_iff, nat_ord, bytes_ord, pair_ord}
use zk_pse.Std.Map.{contains, get}
use zk_pse.Std.Text.{Text, bytes}
use zk_pse.Regex.Structs.{DfaStateInfo, DfaGraphInfo, DfaStateNode, DfaGraph, RegexPartConfig}
use zk_pse.Regex.Caret.{
  find_caret_index, find_caret_index_asserts, scan_start, process_caret_in_regex, CaretScan,
  scan_loop, scan_byte,
}
use zk_pse.Regex.Caret.Split.{
  CaretPanics, caret_of, split_parts, pattern_of, find_caret_index_bound,
  process_caret_in_regex_lem,
}
use zk_pse.Regex.Bfs.{find_state, sort_and_rename_states}
use zk_pse.Regex.Bfs.Language.{accepts, IsComplete, accepts-sort_and_rename_states}
use zk_pse.Regex.Graph.{
  process_accept_state, is_accept, match_string_with_dfa_graph, match_from, next_state,
}
use zk_pse.Regex.Graph.Run.{
  leads_to-cons, IsWellFormed, HasPath, match_string_with_dfa_graph-HasPath,
}
use zk_pse.Regex.Graph.Merge.{
  leads_to, has_key, leads_out, IsDeterministic, process_accept_state-leads_to,
}
use zk_pse.Regex.Public.{update_public_edges}
use zk_pse.Regex.Public.Edges.{from_some_edge, contains-update_public_edges}

-- `(^a|b)c`: the index is behind the group.
abbrev anchored : RegexPartConfig
anchored = record { is_public = false; regex_def = bytes "(^a|b)c" }

anchored_index : find_caret_index anchored.regex_def ≡ some 6
unfolding find_caret_index scan_loop scan_byte
anchored_index = refl

-- A part with a backslash behind the caret makes the slice go past the end.
abbrev escaped : RegexPartConfig
escaped = record { is_public = false; regex_def = bytes "(^\\" }

escaped_panics : process_caret_in_regex false (record { parts = escaped ∷ [] }) ≡ none
unfolding process_caret_in_regex find_caret_index find_caret_index_asserts scan_loop scan_byte
escaped_panics = refl

find_caret_index_bound_example :
    (r : CaretScan) × (scan_loop 8 anchored.regex_def scan_start ≡ some r)
    × (find_caret_index anchored.regex_def ≡ (if r.caret_found then some r.idx else none))
    × (r.idx ≤ 8)
find_caret_index_bound_example = find_caret_index_bound anchored.regex_def

-- Nested parentheses: the second `)` fails the assertion of a debug build.
nested_asserts : find_caret_index_asserts (bytes "((a)b)") ≡ true
unfolding find_caret_index_asserts scan_loop scan_byte
nested_asserts = refl

process_caret_in_regex_lem_example :
    ((process_caret_in_regex true (record { parts = anchored ∷ [] }) ≡ none)
      × CaretPanics true (anchored ∷ []))
    ⊎ ((¬ CaretPanics true (anchored ∷ []))
        × (process_caret_in_regex true (record { parts = anchored ∷ [] })
            ≡ some (
              record { parts = split_parts (caret_of (anchored ∷ [])) (anchored ∷ []) },
              caret_of (anchored ∷ []),
            ))
        × (pattern_of (split_parts (caret_of (anchored ∷ [])) (anchored ∷ []))
            ≡ pattern_of (anchored ∷ [])))
process_caret_in_regex_lem_example = process_caret_in_regex_lem true (anchored ∷ [])

-- Two states, 7 and 3: `a` leads from 7 to 3, and from 3 back.
abbrev first_state : DfaStateInfo
first_state = record { typ = []; source = 7; edges = (bytes "a", 3) ∷ [] }

abbrev second_state : DfaStateInfo
second_state = record { typ = bytes "accept"; source = 3; edges = (bytes "a", 7) ∷ [] }

abbrev automaton : DfaGraphInfo
automaton = record { states = second_state ∷ first_state ∷ [] }

automaton-start : find_state 7 automaton.states ≡ some first_state
unfolding find_state
automaton-start = refl

some_state :
    (states : List DfaStateInfo) (k d : ℕ) (y : DfaStateInfo)
    → find_state k states ≡ some y
    → contains d (k ∷ []) ≡ true
    → (y : DfaStateInfo) × (find_state d states ≡ some y)
unfolding contains
some_state states k d y e h = elim (Bool-cases (same d k)) [
  | inl t ↦ (y, ap (λ z. find_state z states) ((same_iff d k).0 t) ∙ e)
  | inr t ↦ absurd (ground arith)
]

automaton-IsComplete : IsComplete automaton.states
unfolding find_state
automaton-IsComplete = (
  λ d h. some_state automaton.states 7 d first_state refl h,
  (λ d h. some_state automaton.states 3 d second_state refl h, tt),
)

accepts-sort_and_rename_states_example :
    (sorted : DfaGraphInfo) × (sort_and_rename_states automaton 7 ≡ some sorted)
    × ((labels : List Text) → accepts sorted.states 0 labels ≡ accepts automaton.states 7 labels)
accepts-sort_and_rename_states_example =
    accepts-sort_and_rename_states automaton 7 first_state automaton-start automaton-IsComplete

automaton_accepts : accepts automaton.states 7 (bytes "a" ∷ []) ≡ true
unfolding accepts find_state get
automaton_accepts = refl

-- The accepting state of `a+`, in state 1, before `b*` that goes on in state 1.
abbrev loop_on_a : DfaStateNode
loop_on_a = record { state_type = bytes "accept"; state_id = 1; transitions = (1, b'a' ∷ []) ∷ [] }

abbrev start_of_b : DfaStateNode
start_of_b = record { state_type = bytes "accept"; state_id = 1; transitions = (1, b'b' ∷ []) ∷ [] }

start_of_b-IsDeterministic : IsDeterministic start_of_b.transitions
unfolding leads_out get
start_of_b-IsDeterministic = (refl, λ b h. refl, tt)

process_accept_state-leads_to_example :
    ((b k : ℕ)
      → leads_to b k (process_accept_state loop_on_a start_of_b).transitions ≡ (
          if has_key k start_of_b.transitions
          then leads_to b k start_of_b.transitions
          else leads_to b k loop_on_a.transitions && not (leads_out b start_of_b.transitions)))
    × (is_accept (process_accept_state loop_on_a start_of_b) ≡ is_accept start_of_b)
process_accept_state-leads_to_example =
    process_accept_state-leads_to loop_on_a start_of_b start_of_b-IsDeterministic

-- The accepting state no longer goes on at `a`.
loop_is_lost : leads_to b'a' 1 (process_accept_state loop_on_a start_of_b).transitions ≡ false
unfolding leads_to has_key get
loop_is_lost = process_accept_state-leads_to_example.0 b'a' 1

-- With the state 1 put for the boundary state 2, the edge from 2 to 3 is one from 1.
contains-update_public_edges_example :
    contains {K = ℕ × ℕ} (1, 3) (update_public_edges ((2, 3) ∷ []) 2 (start_of_b ∷ [])) ≡ (
      if 2 == 0
      then contains {K = ℕ × ℕ} (1, 3) ((2, 3) ∷ [])
      else from_some_edge 2 (map (λ s. s.state_id) (start_of_b ∷ [])) ((2, 3) ∷ []) (1, 3))
contains-update_public_edges_example =
    contains-update_public_edges ((2, 3) ∷ []) 2 (start_of_b ∷ []) (1, 3)

-- `a*b`
abbrev star_graph : DfaGraph
star_graph = record {
  states =
      record { state_type = []; state_id = 0; transitions = (0, b'a' ∷ []) ∷ (1, b'b' ∷ []) ∷ [] }
      ∷ record { state_type = bytes "accept"; state_id = 1; transitions = [] }
      ∷ [];
}

only_byte : (b k : ℕ) → contains b (k ∷ []) ≡ true → b ≡ k
unfolding contains
only_byte b k h = (same_iff b k).0 (ground arith)

nowhere : (b j : ℕ) → leads_to b j [] ≡ false
unfolding leads_to get
nowhere b j = refl

star_graph-closed : (b j : ℕ) → leads_to b j ((0, b'a' ∷ []) ∷ (1, b'b' ∷ []) ∷ []) ≡ true → j < 2
star_graph-closed b j h = ground (
  arith,
  leads_to-cons b j 0 (b'a' ∷ []) ((1, b'b' ∷ []) ∷ []),
  leads_to-cons b j 1 (b'b' ∷ []) [],
  nowhere b j,
  same_iff j 0,
  same_iff j 1,
)

star_graph-IsWellFormed : IsWellFormed star_graph
unfolding get leads_out contains
star_graph-IsWellFormed = (
  (
    (
      refl,
      λ b h. ap (λ z. leads_out z ((1, b'b' ∷ []) ∷ [])) (only_byte b b'a' h),
      (refl, λ b h. refl, tt),
    ),
    star_graph-closed,
  ),
  ((tt, λ b j h. (let n = nowhere b j in absurd (cc))), tt),
)

match_string_with_dfa_graph-HasPath_example :
    (a : Bool) × (match_string_with_dfa_graph star_graph (bytes "aab") ≡ some a)
    × ((a ≡ true) ↔ HasPath star_graph 0 (bytes "aab"))
match_string_with_dfa_graph-HasPath_example =
    match_string_with_dfa_graph-HasPath star_graph star_graph-IsWellFormed (bytes "aab")
      (omega arith)

star_graph_matches : match_string_with_dfa_graph star_graph (bytes "aab") ≡ some true
unfolding match_string_with_dfa_graph match_from next_state contains
star_graph_matches = refl
