-- ===== src/Regex/Outputs.antt =====
-- compiler/src/lib.rs, and `gen_circom_template` of circom.rs: the calls that write the files. What
-- the JSON files hold, and how a path is made of a directory and a name, are parameters.
pub mod Tables
pub mod Written
pub mod Calls
use zk_pse.Base.{
  ℕ, zero, suc, ◌+◌, Bool, true, false, if◌then◌else◌, not, List, [], ◌∷◌, ◌++◌, map, length,
  Option, none, some,
}
use zk_pse.Std.Text.{Text, bytes, decimal}
use zk_pse.Regex.Structs.{
  Result, ok, err, RegexPartConfig, DecomposedRegexConfig, RegexAndDfa, SubstringDefinitionsJson,
}
use zk_pse.Regex.Driver.{
  Outcome, returns, fails, panics, try, get_regex_and_dfa, create_regex_and_dfa_from_str_and_defs,
}
use zk_pse.Regex.Halo2.{Outputs, FileSystem, io_fails, write_file, gen_halo2_tables}
use zk_pse.Regex.Circom.Lines.{Gate}
use zk_pse.Regex.Circom.Transition.{count_up}
use zk_pse.Regex.Circom.Template.{gen_circom_allstr}
use zk_pse.Regex.Circom.Reveal.{add_substrs_constraints}

abbrev pub load_substring_definitions_json :
    (Text → Result SubstringDefinitionsJson) → Option Text → Result SubstringDefinitionsJson
load_substring_definitions_json read (some path) = read path
load_substring_definitions_json read none = ok (record { transitions = [] ∷ [] })

-- `unwrap_or`
abbrev pub unwrap_or : Option Bool → Bool → Bool
unwrap_or none b = b
unwrap_or (some x) b = x

-- `.parts.iter().filter(|part| part.is_public).count()`, of the parts given: the split at a caret, which the
-- code has made in place by then, keeps the number of public ones
unfoldable pub num_public_parts : List RegexPartConfig → ℕ
num_public_parts [] = 0
num_public_parts (part ∷ parts) =
    if part.is_public then suc (num_public_parts parts) else num_public_parts parts

-- a call after one that returned, with the files of both
abbrev pub and_then : Outputs → Outputs → Outputs
and_then first second = elim first.outcome [
  | returns _ ↦ record { files = first.files ++ second.files; outcome = second.outcome }
  | fails e ↦ first
  | panics ↦ first
]

abbrev pub nothing_written : Outcome {0} Unit → Outputs
nothing_written outcome = record { files = []; outcome = outcome }

-- The constraints for the substrings go behind the text already in the file.
abbrev pub append_substrs : FileSystem → RegexAndDfa → Text → Text → Bool → Outputs → Outputs
append_substrs system regex_and_dfa circom_path circom gen_substrs first = elim first.outcome [
  | panics ↦ first
  | fails e ↦ first
  | returns _ ↦
      if not gen_substrs
      then first
      else elim (system.write circom_path (add_substrs_constraints regex_and_dfa)) [
        | some e ↦ io_fails [] e
        | none ↦ record {
          files = (circom_path, circom ++ add_substrs_constraints regex_and_dfa) ∷ [];
          outcome = returns tt;
        }
      ]
]

module _ (edge_json : List (Gate × ℕ) → Text) (state_json : List ℕ → Text)
    (join_path : Text → Text → Text) (system : FileSystem) where
  unfoldable pub gen_circom_template : RegexAndDfa → Text → Text → Bool → Outputs
  gen_circom_template regex_and_dfa circom_path template_name gen_substrs =
      elim (gen_circom_allstr edge_json state_json regex_and_dfa.dfa template_name
        regex_and_dfa.regex_pattern regex_and_dfa.has_end_anchor) [
          | none ↦ nothing_written panics
          | some (err e) ↦ nothing_written (fails e)
          | some (ok circom) ↦
              append_substrs system regex_and_dfa circom_path circom gen_substrs
                (write_file system circom_path circom)
        ]

  unfoldable pub halo2_outputs : RegexAndDfa → Option Text → ℕ → Bool → Outputs
  halo2_outputs regex_and_dfa none n gen_substrs = nothing_written (returns tt)
  halo2_outputs regex_and_dfa (some halo2_dir_path) n gen_substrs =
      gen_halo2_tables system regex_and_dfa (join_path halo2_dir_path (bytes "allstr.txt"))
        (map (λ idx. join_path halo2_dir_path (bytes "substr_" ++ decimal idx ++ bytes ".txt"))
          (count_up n 0))
        gen_substrs

  unfoldable pub circom_outputs : RegexAndDfa → Option Text → Option Text → Bool → Outputs
  circom_outputs regex_and_dfa none circom_template_name gen_substrs = nothing_written (returns tt)
  circom_outputs regex_and_dfa (some circom_file_path) none gen_substrs = nothing_written panics
  circom_outputs regex_and_dfa (some circom_file_path) (some circom_template_name) gen_substrs =
      gen_circom_template regex_and_dfa circom_file_path circom_template_name gen_substrs

  unfoldable pub generate_outputs :
      RegexAndDfa → Option Text → Option Text → Option Text → ℕ → Bool → Outputs
  generate_outputs regex_and_dfa halo2_dir_path circom_file_path circom_template_name n
        gen_substrs =
      and_then (halo2_outputs regex_and_dfa halo2_dir_path n gen_substrs)
        (circom_outputs regex_and_dfa circom_file_path circom_template_name gen_substrs)

  -- the outputs of an automaton, if there is one
  abbrev pub outputs_of : Outcome RegexAndDfa → (RegexAndDfa → Outputs) → Outputs
  outputs_of (returns r) k = k r
  outputs_of (fails e) k = nothing_written (fails e)
  outputs_of panics k = nothing_written panics

  module _ {Dfa : Type 0} (build : Text → Option Dfa) (print : Dfa → Text)
      (state_captures : Text → List (Text × Text)) (transition_captures : Text → List Text)
      (start_capture : Text → Option Text) (range_captures : Text → Option (Text × Text)) where
    unfoldable pub gen_circom_from_decomposed_regex :
        DecomposedRegexConfig → Option Text → Option Text → Option Bool → Outputs
    gen_circom_from_decomposed_regex decomposed_regex circom_file_path circom_template_name
          gen_substrs =
        outputs_of
          (get_regex_and_dfa build print state_captures transition_captures start_capture
            range_captures decomposed_regex)
          (λ r.
            generate_outputs r none circom_file_path circom_template_name
              (num_public_parts decomposed_regex.parts) (unwrap_or gen_substrs false))

    unfoldable pub gen_from_decomposed :
        (Text → Result DecomposedRegexConfig)
        → Text
        → Option Text
        → Option Text
        → Option Text
        → Option Bool
        → Outputs
    gen_from_decomposed read decomposed_regex_path halo2_dir_path circom_file_path
          circom_template_name gen_substrs =
        elim (read decomposed_regex_path) [
          | err e ↦ nothing_written (fails e)
          | ok config ↦
              outputs_of
                (get_regex_and_dfa build print state_captures transition_captures start_capture
                  range_captures config)
                (λ r.
                  generate_outputs r halo2_dir_path circom_file_path circom_template_name
                    (num_public_parts config.parts) (unwrap_or gen_substrs false))
        ]

    unfoldable pub gen_from_raw :
        (Text → Result SubstringDefinitionsJson)
        → Text
        → Option Text
        → Option Text
        → Option Text
        → Option Text
        → Option Bool
        → Outputs
    gen_from_raw read raw_regex substrs_json_path halo2_dir_path circom_file_path template_name
          gen_substrs =
        elim (load_substring_definitions_json read substrs_json_path) [
          | err e ↦ nothing_written (fails e)
          | ok defs ↦
              outputs_of
                (create_regex_and_dfa_from_str_and_defs build print state_captures
                  transition_captures start_capture range_captures raw_regex defs)
                (λ r.
                  generate_outputs r halo2_dir_path circom_file_path template_name
                    (length defs.transitions) (unwrap_or gen_substrs true))
        ]
