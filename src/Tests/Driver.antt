-- ===== src/Tests/Driver.antt =====
-- `get_regex_and_dfa` with a builder that knows one automaton: a state that accepts.
use zk_pse.Base.{ℕ, true, false, List, [], ◌∷◌, length, Option, none, some, ◌≡◌, refl}
use zk_pse.Std.Text.{Text, bytes}
use zk_pse.Std.Map.{Set}
use zk_pse.Regex.Structs.{RegexPartConfig, RegexAndDfa}
use zk_pse.Regex.Caret.Split.{pattern_of}
use zk_pse.Regex.Driver.{returns, get_regex_and_dfa}
use zk_pse.Regex.Caret.{
  process_caret_in_regex, find_caret_index, find_caret_index_asserts, scan_loop, scan_byte,
  validate_end_anchor,
}
use zk_pse.Regex.Driver.{
  add_parts, add_part, build_dfa, convert_dfa_to_graph, convert_states, record_public,
}
use zk_pse.Regex.Parse.{
  parse_states, parse_states_loop, parse_usize, decimal_digits, parse_transitions, find_start_state,
}
use zk_pse.Regex.Bfs.{
  sort_and_rename_states, search, visit, find_state, unvisited, collect_ids, renumber, rename_edges,
  count_edges, handle_eoi_transitions, handle_eoi_state,
}
use zk_pse.Regex.Label.{process_state_edges, process_edges_loop}
use zk_pse.Regex.Graph.{
  handle_caret_regex, rename_states, rename_nodes, rename_transitions, state_id_mapping,
  get_max_state, add_dfa,
}
use zk_pse.Regex.Public.{
  process_public_regex, collect_accepting_states, collect_accepting_loop, collect_public_edges,
  collect_public_loop, edges_of, update_public_edges, collect_substr_ends, collect_ends_loop,
}
use zk_pse.Std.Map.{get, insert, contains, add, add_all}
use zk_pse.Regex.Driver.Parts.{count_public, get_regex_and_dfa_lem}

abbrev pub build : Text → Option Text
build pattern = some pattern

abbrev pub print : Text → Text
print pattern = []

abbrev pub state_captures : Text → List (Text × Text)
state_captures output = (bytes "*0: ", bytes "0") ∷ []

abbrev pub transition_captures : Text → List Text
transition_captures state = []

abbrev pub start_capture : Text → Option Text
start_capture output = some (bytes "0")

abbrev pub range_captures : Text → Option (Text × Text)
range_captures label = none

abbrev pub part : RegexPartConfig
part = record { is_public = true; regex_def = bytes "a" }

abbrev pub result : RegexAndDfa
result = record {
  regex_pattern = bytes "a";
  dfa = record {
    states = record { state_type = bytes "accept"; state_id = 0; transitions = [] } ∷ [];
  };
  has_end_anchor = false;
  substrings = record {
    substring_ranges = [] ∷ [];
    substring_boundaries = some (([], 0 ∷ []) ∷ []);
  };
}

pub part_compiles :
    get_regex_and_dfa build print state_captures transition_captures start_capture range_captures
      (record { parts = part ∷ [] })
    ≡ returns result
unfolding get_regex_and_dfa pattern_of process_caret_in_regex find_caret_index
    find_caret_index_asserts scan_loop scan_byte validate_end_anchor add_parts add_part build_dfa
    convert_dfa_to_graph convert_states record_public parse_states parse_states_loop parse_usize
    decimal_digits parse_transitions find_start_state sort_and_rename_states search visit find_state
    unvisited collect_ids renumber rename_edges count_edges handle_eoi_transitions handle_eoi_state
    process_state_edges process_edges_loop handle_caret_regex rename_states rename_nodes
    rename_transitions state_id_mapping get_max_state add_dfa process_public_regex
    collect_accepting_states collect_accepting_loop collect_public_edges collect_public_loop
    edges_of update_public_edges collect_substr_ends collect_ends_loop get insert contains add
    add_all
part_compiles = refl

get_regex_and_dfa_lem_example :
    (result.regex_pattern ≡ pattern_of (part ∷ []))
    × (length result.substrings.substring_ranges ≡ count_public (part ∷ []))
    × ((bs : List (Set ℕ × Set ℕ)) × (result.substrings.substring_boundaries ≡ some bs)
        × (length bs ≡ count_public (part ∷ [])))
get_regex_and_dfa_lem_example =
    get_regex_and_dfa_lem build print state_captures transition_captures start_capture
      range_captures part [] part_compiles
