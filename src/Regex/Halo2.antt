-- ===== src/Regex/Halo2.antt =====
-- compiler/src/halo2.rs: the tables of an automaton as text. Files are what was written to them.
-- Whether the system lets a file be made or written is a parameter.
use zk_pse.Base.{
  ℕ, suc, Bool, not, if◌then◌else◌, List, [], ◌∷◌, ◌++◌, map, get_elem?, Option, none, some,
}
use zk_pse.Std.Ord.{nat_ord, pair_ord}
use zk_pse.Std.Map.{Map, Set}
use zk_pse.Std.Sort.{sort}
use zk_pse.Std.Text.{Text, bytes, decimal, cat, join}
use zk_pse.Regex.Structs.{DfaStateNode, RegexAndDfa, CompilerError}
use zk_pse.Regex.Graph.{get_accepted_state, get_max_state}
use zk_pse.Regex.Driver.{Outcome, returns, fails, panics, ◌>>=◌, or_panic}

-- What a call wrote, each file with its path, and what it came to.
pub record Outputs : Type 0 where
  pub files : List (Text × Text)
  pub outcome : Outcome {0} Unit

-- `for (next_state, chars) in state.transitions.iter() { for &char in chars { .. } }`
unfoldable pub transition_lines : ℕ → Map ℕ (Set ℕ) → Text
transition_lines i [] = []
transition_lines i ((next_state, chars) ∷ transitions) =
    cat (
      map
        (λ char.
          decimal i ++ bytes " " ++ decimal next_state ++ bytes " " ++ decimal char ++ bytes "\n")
        chars)
    ++ transition_lines i transitions

unfoldable pub state_lines : ℕ → List DfaStateNode → Text
state_lines i [] = []
state_lines i (state ∷ states) = transition_lines i state.transitions ++ state_lines (suc i) states

unfoldable pub dfa_to_regex_def_text : RegexAndDfa → Outcome Text
dfa_to_regex_def_text regex_and_dfa =
    or_panic (get_accepted_state regex_and_dfa.dfa) >>= λ accepted_state. returns (
      bytes "0\n"
      ++ decimal accepted_state
      ++ bytes "\n"
      ++ decimal (get_max_state regex_and_dfa.dfa)
      ++ bytes "\n"
      ++ state_lines 0 regex_and_dfa.dfa.states)

-- one `writeln!` of a set of states
abbrev boundary_line : Set ℕ → Text
boundary_line states = join (bytes " ") (map decimal states) ++ bytes "\n"

unfoldable pub substr_text : Set ℕ × Set ℕ → Set (ℕ × ℕ) → Text
substr_text (starts, ends) defs =
    boundary_line starts
    ++ boundary_line ends
    ++ cat (map (λ d. decimal d.0 ++ bytes " " ++ decimal d.1 ++ bytes "\n") (sort defs))

-- `substring_boundaries.as_ref().unwrap()[idx]`: `none` is a panic.
abbrev pub boundaries_at : Option (List (Set ℕ × Set ℕ)) → ℕ → Option (Set ℕ × Set ℕ)
boundaries_at none idx = none
boundaries_at (some boundaries) idx = get_elem? boundaries idx

-- The errors of the system: for the call that makes the file at a path, and for the calls that write
-- a text to it, if one fails.
pub record FileSystem : Type 0 where
  pub create : Text → Option Text
  pub write : Text → Text → Option Text

-- `?` on an error of the system
abbrev pub io_fails : List (Text × Text) → Text → Outputs
io_fails files e = record { files = files; outcome = fails (CompilerError.file_open_error e) }

-- the loop over the substrings, from place `idx` on. The file is made before the boundaries are read.
-- How much a write that fails leaves in the file is not known: it is not listed.
unfoldable pub write_substrs :
    FileSystem
    → List Text
    → Option (List (Set ℕ × Set ℕ))
    → ℕ
    → List (Set (ℕ × ℕ))
    → List (Text × Text)
    → Outputs
write_substrs system paths boundaries idx [] files = record { files = files; outcome = returns tt }
write_substrs system paths boundaries idx (defs ∷ ranges) files = elim (get_elem? paths idx) [
  | none ↦ record { files = files; outcome = panics }
  | some path ↦ elim (system.create path) [
    | some e ↦ io_fails files e
    | none ↦ elim (boundaries_at boundaries idx) [
      | none ↦ record { files = files ++ (path, []) ∷ []; outcome = panics }
      | some both ↦ elim (system.write path (substr_text both defs)) [
        | some e ↦ io_fails files e
        | none ↦
            write_substrs system paths boundaries (suc idx) ranges
              (files ++ (path, substr_text both defs) ∷ [])
      ]
    ]
  ]
]

-- `std::fs::write`: the file is made, and the text written to it.
unfoldable pub write_file : FileSystem → Text → Text → Outputs
write_file system path text = elim (system.create path) [
  | some e ↦ io_fails [] e
  | none ↦ elim (system.write path text) [
    | some e ↦ io_fails [] e
    | none ↦ record { files = (path, text) ∷ []; outcome = returns tt }
  ]
]

-- the loop, if the substrings are wanted and the table of the automaton is written
abbrev pub after_allstr : FileSystem → RegexAndDfa → List Text → Bool → Outputs → Outputs
after_allstr system regex_and_dfa substr_file_paths gen_substrs first = elim first.outcome [
  | panics ↦ first
  | fails e ↦ first
  | returns _ ↦
      if not gen_substrs
      then first
      else write_substrs system substr_file_paths regex_and_dfa.substrings.substring_boundaries 0
          regex_and_dfa.substrings.substring_ranges first.files
]

unfoldable pub gen_halo2_tables : FileSystem → RegexAndDfa → Text → List Text → Bool → Outputs
gen_halo2_tables system regex_and_dfa allstr_file_path substr_file_paths gen_substrs =
    elim (dfa_to_regex_def_text regex_and_dfa) [
      | panics ↦ record { files = []; outcome = panics }
      | fails e ↦ record { files = []; outcome = fails e }
      | returns regex_text ↦
          after_allstr system regex_and_dfa substr_file_paths gen_substrs
            (write_file system allstr_file_path regex_text)
    ]
