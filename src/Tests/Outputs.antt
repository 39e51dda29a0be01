-- ===== src/Tests/Outputs.antt =====
-- The calls that write files, for the automaton of Tests/Driver.
use zk_pse.Base.{ℕ, true, List, [], ◌∷◌, ◌++◌, length, none, some, ◌≡◌, ◌≢◌, refl}
use zk_pse.Std.Text.{Text, bytes}
use zk_pse.Regex.Structs.{Result, ok, DecomposedRegexConfig, SubstringDefinitionsJson}
use zk_pse.Regex.Driver.{returns}
use zk_pse.Regex.Driver.Parts.{count_public}
use zk_pse.Regex.Graph.{get_accepted_state, position_accept}
use zk_pse.Regex.Circom.Lines.{Gate}
use zk_pse.Std.Map.{Set}
use zk_pse.Regex.Halo2.{FileSystem}
use zk_pse.Regex.Outputs.Written.{allstr_table, substr_tables}
use zk_pse.Regex.Outputs.{gen_from_raw, gen_from_decomposed}
use zk_pse.Regex.Outputs.Calls.{gen_from_raw-none, gen_from_decomposed-tables, substr_paths}
use zk_pse.Tests.Driver.{
  build, print, state_captures, transition_captures, start_capture, range_captures, part, result,
  part_compiles,
}

abbrev edge_json : List (Gate × ℕ) → Text
edge_json outputs = []

abbrev state_json : List ℕ → Text
state_json outputs = outputs

abbrev join_path : Text → Text → Text
join_path dir name = dir ++ bytes "/" ++ name

abbrev read_config : Text → Result DecomposedRegexConfig
read_config path = ok (record { parts = part ∷ [] })

abbrev read_definitions : Text → Result SubstringDefinitionsJson
read_definitions path = ok (record { transitions = ((0, 1) ∷ []) ∷ [] })

accepted : get_accepted_state result.dfa ≡ some 0
unfolding get_accepted_state position_accept
accepted = refl

-- a system that makes and writes every file
abbrev system : FileSystem
system = record { create = λ path. none; write = λ path text. none }

gen_from_decomposed-tables_example :
    (bs : List (Set ℕ × Set ℕ)) × (result.substrings.substring_boundaries ≡ some bs)
    × (length bs ≡ count_public (part ∷ []))
    × (length result.substrings.substring_ranges ≡ count_public (part ∷ []))
    × (gen_from_decomposed edge_json state_json join_path system build print state_captures
          transition_captures start_capture range_captures read_config
          (bytes "regex.json")
          (some (bytes "halo2"))
          none
          none
          (some true)
        ≡ record {
          files =
              (join_path (bytes "halo2") (bytes "allstr.txt"), allstr_table result.dfa 0)
              ∷ substr_tables
                  (substr_paths edge_json state_json join_path system build print state_captures
                    transition_captures start_capture range_captures
                    (bytes "halo2")
                    (count_public (part ∷ [])))
                  bs
                  result.substrings.substring_ranges;
          outcome = returns tt;
        })
gen_from_decomposed-tables_example =
    gen_from_decomposed-tables edge_json state_json join_path system build print state_captures
      transition_captures start_capture range_captures read_config (bytes "regex.json")
      (bytes "halo2") part [] result 0 ((λ path. refl), (λ path text. refl)) refl part_compiles
      accepted

gen_from_raw-none_example :
    (gen_from_raw edge_json state_json join_path system build print state_captures
      transition_captures start_capture range_captures read_definitions
      (bytes "a")
      (some (bytes "substrings.json"))
      (some (bytes "halo2"))
      none
      none
      none).outcome
    ≢ returns tt
gen_from_raw-none_example =
    gen_from_raw-none edge_json state_json join_path system build print state_captures
      transition_captures start_capture range_captures read_definitions (bytes "a")
      (some (bytes "substrings.json")) (bytes "halo2") none none none
      (record { transitions = ((0, 1) ∷ []) ∷ [] }) refl (λ e. cc e) (λ e. cc e)
