-- ===== src/Regex/Driver.antt =====
-- regex/zk-regex-compiler-v2/packages/compiler/src/regex.rs: from the parts of a pattern to one
-- automaton. The builder of regex-automata, the printed form of what it builds, and the regex
-- crate's captures are parameters. Both functions build with the same configuration.
pub mod Parts
use zk_pse.Base.{
  ℕ, zero, suc, Bool, true, false, if◌then◌else◌, List, [], ◌∷◌, ◌++◌, map, Option, none, some,
}
use zk_pse.Std.Ord.{nat_ord, pair_ord}
use zk_pse.Std.Map.{Map, Set, add_all}
use zk_pse.Std.Text.{Text, bytes, ends_with_char}
use zk_pse.Regex.Structs.{
  CompilerError, build_error, Result, ok, err, RegexPartConfig, DecomposedRegexConfig, DfaStateInfo,
  DfaGraphInfo, DfaStateNode, DfaGraph, SubstringDefinitions, RegexAndDfa, SubstringDefinitionsJson,
}
use zk_pse.Regex.Caret.{process_caret_in_regex, validate_end_anchor}
use zk_pse.Regex.Caret.Split.{pattern_of}
use zk_pse.Regex.Label.{process_state_edges}
use zk_pse.Regex.Bfs.{handle_eoi_transitions, sort_and_rename_states}
use zk_pse.Regex.Graph.{handle_caret_regex, rename_states, get_max_state, add_dfa}
use zk_pse.Regex.Public.{process_public_regex}
use zk_pse.Regex.Parse.{parse_states, find_start_state}

-- What a call comes to: `panics` is a panic.
pub data Outcome {ℓ} (A : Type ℓ) : Type ℓ where
  returns : A → Outcome A
  fails : CompilerError → Outcome A
  panics : Outcome A

infixl 5 ◌>>=◌
abbrev pub ◌>>=◌ {ℓ κ} : {A : Type ℓ} {B : Type κ} → Outcome A → (A → Outcome B) → Outcome B
returns a >>= k = k a
fails e >>= k = fails e
panics >>= k = panics

-- the operator `?`
abbrev pub try {ℓ} : {A : Type ℓ} → Result A → Outcome A
try (ok a) = returns a
try (err e) = fails e

abbrev pub or_panic {ℓ} : {A : Type ℓ} → Option A → Outcome A
or_panic none = panics
or_panic (some a) = returns a

pub record Progress : Type 0 where
  pub net_dfa_graph : DfaGraph
  pub substring_ranges_array : List (Set (ℕ × ℕ))
  pub substring_boundaries_array : List (Set ℕ × Set ℕ)
  pub end_anchor : Bool

abbrev pub start_progress : Progress
start_progress = record {
  net_dfa_graph = record { states = [] };
  substring_ranges_array = [];
  substring_boundaries_array = [];
  end_anchor = false;
}

-- what the loop keeps of a public part
unfoldable pub record_public : RegexPartConfig → Progress → DfaGraph → ℕ → Progress
record_public regex s dfa_graph max_state_index =
    if regex.is_public
    then (let (public_edges, boundaries) =
          process_public_regex regex s.net_dfa_graph dfa_graph max_state_index in
        record s {
          substring_ranges_array = s.substring_ranges_array ++ public_edges ∷ [];
          substring_boundaries_array = s.substring_boundaries_array ++ boundaries ∷ [];
        })
    else s

module _ {Dfa : Type 0} (build : Text → Option Dfa) (print : Dfa → Text)
    (state_captures : Text → List (Text × Text)) (transition_captures : Text → List Text)
    (start_capture : Text → Option Text) (range_captures : Text → Option (Text × Text)) where
  unfoldable pub convert_states : List DfaStateInfo → Result (List DfaStateNode)
  convert_states [] = ok []
  convert_states (state ∷ states) =
      let rest = convert_states states in
      elim (process_state_edges range_captures state.edges) [
        | err e ↦ err e
        | ok edges ↦ elim rest [
          | err e ↦ err e
          | ok nodes ↦ ok (
              record { state_type = state.typ; state_id = state.source; transitions = edges }
              ∷ nodes)
        ]
      ]

  -- (The search of `sort_and_rename_states` has fuel enough, so its `none` is no panic.)
  unfoldable pub convert_dfa_to_graph : Dfa → Outcome DfaGraph
  convert_dfa_to_graph dfa =
      let dfa_str = print dfa in
      try (
        parse_states state_captures transition_captures start_capture dfa_str
          (record { states = [] }))
      >>= λ parsed.
          try (find_start_state state_captures transition_captures start_capture dfa_str)
          >>= λ start_state.
              or_panic (sort_and_rename_states (handle_eoi_transitions parsed) start_state)
              >>= λ dfa_info. try (convert_states dfa_info.states) >>= λ states.
                  returns (record { states = states })

  unfoldable pub build_dfa : Text → Text → Outcome Dfa
  build_dfa regex_def pattern = elim (build pattern) [
    | none ↦ fails (build_error regex_def)
    | some dfa ↦ returns dfa
  ]

  -- one round of the loop over the parts
  unfoldable pub add_part :
      DecomposedRegexConfig → Option ℕ → ℕ → RegexPartConfig → Progress → Outcome Progress
  add_part decomposed_regex caret_position i regex s =
      try (validate_end_anchor decomposed_regex i regex) >>= λ end_anchor.
      build_dfa regex.regex_def (bytes "^(" ++ regex.regex_def ++ bytes ")$") >>= λ dfa.
      convert_dfa_to_graph dfa >>= λ built.
      try (handle_caret_regex i caret_position regex built) >>= λ anchored.
      or_panic (rename_states anchored (get_max_state s.net_dfa_graph)) >>= λ dfa_graph.
      or_panic (add_dfa s.net_dfa_graph dfa_graph) >>= λ net_dfa_graph.
      returns (record (record_public regex s dfa_graph (get_max_state s.net_dfa_graph)) {
        net_dfa_graph = net_dfa_graph;
        end_anchor = end_anchor;
      })

  unfoldable pub add_parts :
      DecomposedRegexConfig → Option ℕ → ℕ → List RegexPartConfig → Progress → Outcome Progress
  add_parts decomposed_regex caret_position i [] s = returns s
  add_parts decomposed_regex caret_position i (regex ∷ parts) s =
      add_part decomposed_regex caret_position i regex s >>= λ s'.
      add_parts decomposed_regex caret_position (suc i) parts s'

  -- in a release build, without debug assertions
  unfoldable pub get_regex_and_dfa : DecomposedRegexConfig → Outcome RegexAndDfa
  get_regex_and_dfa given = or_panic (process_caret_in_regex false given) >>= λ split.
      add_parts split.0 split.1 0 split.0.parts start_progress >>= λ s. returns (record {
        regex_pattern = pattern_of split.0.parts;
        dfa = s.net_dfa_graph;
        has_end_anchor = s.end_anchor;
        substrings = record {
          substring_ranges = s.substring_ranges_array;
          substring_boundaries = some s.substring_boundaries_array;
        };
      })

  unfoldable pub create_dfa_graph_from_regex : Text → Outcome DfaGraph
  create_dfa_graph_from_regex regex =
      build_dfa regex (bytes "^" ++ regex ++ bytes "$") >>= λ dfa. convert_dfa_to_graph dfa

  unfoldable pub create_regex_and_dfa_from_str_and_defs :
      Text → SubstringDefinitionsJson → Outcome RegexAndDfa
  create_regex_and_dfa_from_str_and_defs regex_str substrs_defs_json =
      create_dfa_graph_from_regex regex_str >>= λ dfa. returns (record {
        regex_pattern = regex_str;
        dfa = dfa;
        has_end_anchor = ends_with_char regex_str b'$';
        substrings = record {
          substring_ranges =
              map (λ transitions. add_all transitions []) substrs_defs_json.transitions;
          substring_boundaries = none;
        };
      })
