-- ===== src/Regex/Circom/Template.antt =====
-- compiler/src/circom.rs: the text of the circuit around the loop over the bytes. Of the functions
-- that assemble it, `gen_circom_template` is not here: it writes the same two texts to a file.
pub mod Quoted
pub mod Unwraps
pub mod Total
use zk_pse.Base.{
  ℕ, zero, suc, ◌+◌, ◌==◌, ltb, Bool, true, false, if◌then◌else◌, List, [], ◌∷◌, ◌++◌, map, length,
  Option, none, some,
}
use zk_pse.Std.Map.{Map, Set}
use zk_pse.Std.Text.{Text, bytes, decimal, join}
use zk_pse.Regex.Structs.{DfaGraph, RegexAndDfa, Result, ok, err, ◌>>=◌, CompilerError}
use zk_pse.Regex.Circom.Lines.{Gate, Line, render}
use zk_pse.Regex.Circom.Gates.{Builder}
use zk_pse.Regex.Circom.Transition.{RevGraph, build_reverse_graph, generate_state_transition_logic}
use zk_pse.Regex.Circom.Reveal.{add_substrs_constraints}

-- `replace(c, text)`, for one character
unfoldable pub replace : ℕ → Text → Text → Text
replace c text [] = []
replace c text (b ∷ rest) =
    let others = replace c text rest in if b == c then text ++ others else b ∷ others

abbrev pub quoted : Text → Text
quoted regex_str = replace b'\r' (bytes "\\r") (replace b'\n' (bytes "\\n") regex_str)

-- `if n > 0 { declarations.push(..); }`
abbrev pub component_lines : Text → ℕ → List Text
component_lines name n =
    if ltb 0 n
    then (bytes "\tcomponent " ++ name ++ bytes "[" ++ decimal n ++ bytes "][num_bytes];") ∷ []
    else []

unfoldable pub generate_declarations : Text → Text → ℕ → ℕ → ℕ → ℕ → ℕ → Bool → List Text
generate_declarations template_name regex_str state_len eq_i lt_i and_i multi_or_i end_anchor =
    bytes "pragma circom 2.1.5;\n"
    ∷ bytes "include \"@zk-email/zk-regex-circom/circuits/regex_helpers.circom\";\n"
    ∷ (bytes "// regex: " ++ quoted regex_str)
    ∷ (bytes "template " ++ template_name ++ bytes "(msg_bytes) {")
    ∷ bytes "\tsignal input msg[msg_bytes];"
    ∷ bytes "\tsignal output out;"
    ∷ bytes ""
    ∷ bytes "\tvar num_bytes = msg_bytes+1;"
    ∷ bytes "\tsignal in[num_bytes];"
    ∷ bytes "\tsignal in_range_checks[msg_bytes];"
    ∷ bytes "\tin[0]<==255;"
    ∷ bytes "\tfor (var i = 0; i < msg_bytes; i++) {"
    ∷ bytes "\t\tin_range_checks[i] <== LessThan(8)([msg[i], 255]);"
    ∷ bytes "\t\tin_range_checks[i] === 1;"
    ∷ bytes "\t\tin[i+1] <== msg[i];"
    ∷ bytes "\t}"
    ∷ bytes ""
    ∷ (component_lines (bytes "eq") eq_i
        ++ (component_lines (bytes "lt") lt_i
            ++ (component_lines (bytes "and") and_i
                ++ (component_lines (bytes "multi_or") multi_or_i
                    ++ ((bytes "\tsignal states[num_bytes+1][" ++ decimal state_len ++ bytes "];")
                        ∷ (bytes "\tsignal states_tmp[num_bytes+1]["
                            ++ decimal state_len
                            ++ bytes "];")
                        ∷ bytes "\tsignal from_zero_enabled[num_bytes+1];"
                        ∷ bytes "\tfrom_zero_enabled[num_bytes] <== 0;"
                        ∷ bytes "\tcomponent state_changed[num_bytes];"
                        ∷ bytes ""
                        ∷ (if end_anchor
                            then bytes "\tsignal padding_start[num_bytes+1];"
                              ∷ bytes "\tpadding_start[0] <== 0;"
                              ∷ []
                            else []))))))

unfoldable pub generate_init_code : ℕ → List Text
generate_init_code state_len =
    (bytes "\tfor (var i = 1; i < " ++ decimal state_len ++ bytes "; i++) {")
    ∷ bytes "\t\tstates[0][i] <== 0;"
    ∷ bytes "\t}"
    ∷ bytes ""
    ∷ []

-- `for (idx, accept_node) in accept_nodes.iter().enumerate()`
unfoldable pub accept_inputs : ℕ → List ℕ → List Text
accept_inputs idx [] = []
accept_inputs idx (accept_node ∷ accept_nodes) =
    (bytes "\t\taccept_state_or[i].in["
      ++ decimal idx
      ++ bytes "] <== states[i]["
      ++ decimal accept_node
      ++ bytes "];")
    ∷ accept_inputs (suc idx) accept_nodes

-- the lines that set `accepted_state`
unfoldable pub accepted_state_lines : List ℕ → List Text
accepted_state_lines (accept_node ∷ []) =
    bytes "\tfor (var i = 0; i <= num_bytes; i++) {"
    ∷ (bytes "\t\taccepted_state[i] <== states[i][" ++ decimal accept_node ++ bytes "];")
    ∷ bytes "\t}"
    ∷ []
accepted_state_lines accept_nodes =
    bytes "\tcomponent accept_state_or[num_bytes+1];"
    ∷ bytes "\tfor (var i = 0; i <= num_bytes; i++) {"
    ∷ (bytes "\t\taccept_state_or[i] = MultiOR(" ++ decimal (length accept_nodes) ++ bytes ");")
    ∷ (accept_inputs 0 accept_nodes
        ++ (bytes "\t\taccepted_state[i] <== accept_state_or[i].out;" ∷ bytes "\t}" ∷ []))

abbrev end_anchor_lines : List Text
end_anchor_lines =
    bytes "\tsignal end_anchor_check[num_bytes+1][2];"
    ∷ bytes "\tend_anchor_check[0][1] <== 0;"
    ∷ bytes "\tfor (var i = 0; i < num_bytes; i++) {"
    ∷ bytes "\t\tend_anchor_check[i+1][0] <== IsEqual()([i, padding_start[num_bytes]]);"
    ∷ bytes
        "\t\tend_anchor_check[i+1][1] <== end_anchor_check[i][1] + accepted_state[i] * end_anchor_check[i+1][0];"
    ∷ bytes "\t}"
    ∷ bytes "\tout <== is_accepted.out * end_anchor_check[num_bytes][1];"
    ∷ []

unfoldable pub generate_accept_logic : Set ℕ → Bool → Result (List Text)
generate_accept_logic [] end_anchor =
    err (CompilerError.accept_nodes_error (bytes "Accept node must exist"))
generate_accept_logic (n ∷ ns) end_anchor = ok (
    bytes ""
    ∷ bytes "\tsignal accepted_state[num_bytes+1];"
    ∷ (accepted_state_lines (n ∷ ns)
        ++ (bytes "\tcomponent is_accepted = MultiOR(num_bytes+1);"
            ∷ bytes "\tfor (var i = 0; i <= num_bytes; i++) {"
            ∷ bytes "\t\tis_accepted.in[i] <== accepted_state[i];"
            ∷ bytes "\t}"
            ∷ (if end_anchor then end_anchor_lines else bytes "\tout <== is_accepted.out;" ∷ []))))

module _ (edge_json : List (Gate × ℕ) → Text) (state_json : List ℕ → Text) where
  -- after `build_reverse_graph`: `none` is a panic of `generate_state_transition_logic`.
  unfoldable pub circuit_text : ℕ → Text → Text → Bool → RevGraph × Set ℕ → Option (Result Text)
  circuit_text state_len template_name regex_str end_anchor (rev_graph, accept_nodes) =
      let b = generate_state_transition_logic edge_json state_json rev_graph state_len end_anchor in
      let declarations =
        generate_declarations template_name regex_str state_len b.eq_i b.lt_i b.and_i b.multi_or_i
          end_anchor in
      if b.panicked
      then none
      else some (
          generate_accept_logic accept_nodes end_anchor >>= λ accept_lines. ok (
            join (bytes "\n") (
              declarations
              ++ (generate_init_code state_len ++ (map render b.lines ++ accept_lines)))))

  -- `none` is a panic.
  unfoldable pub gen_circom_allstr : DfaGraph → Text → Text → Bool → Option (Result Text)
  gen_circom_allstr dfa_graph template_name regex_str end_anchor =
      let state_len = length dfa_graph.states in
      elim (build_reverse_graph state_len dfa_graph) [
        | none ↦ none
        | some (err e) ↦ some (err e)
        | some (ok r) ↦ circuit_text state_len template_name regex_str end_anchor r
      ]

  unfoldable pub gen_circom_string : RegexAndDfa → Text → Option (Result Text)
  gen_circom_string regex_and_dfa template_name =
      elim (gen_circom_allstr regex_and_dfa.dfa template_name regex_and_dfa.regex_pattern
        regex_and_dfa.has_end_anchor) [
          | none ↦ none
          | some r ↦ some (r >>= λ circom. ok (circom ++ add_substrs_constraints regex_and_dfa))
        ]
