-- ===== src/Regex/Circom/Reveal.antt =====
-- compiler/src/circom.rs: the text that reveals the public parts of a match. `{:?}` writes a list
-- in brackets, a set in braces and a pair in parentheses.
use zk_pse.Base.{ℕ, suc, ◌==◌, if◌then◌else◌, List, [], ◌∷◌, ◌++◌, map, length}
use zk_pse.Std.Ord.{nat_ord, pair_ord}
use zk_pse.Std.Map.{Set}
use zk_pse.Std.Sort.{sort}
use zk_pse.Std.Text.{Text, bytes, decimal, join}
use zk_pse.Regex.Structs.{RegexAndDfa}

unfoldable pub write_consecutive_logic : Text
write_consecutive_logic =
    bytes "\n"
    ++ (bytes "\tsignal is_consecutive[msg_bytes+1][3];\n"
        ++ (bytes "\tis_consecutive[msg_bytes][2] <== 0;\n"
            ++ (bytes "\tfor (var i = 0; i < msg_bytes; i++) {\n"
                ++ (bytes
                      "\t\tis_consecutive[msg_bytes-1-i][0] <== accepted_state[num_bytes-i] * (1 - is_consecutive[msg_bytes-i][2]) + is_consecutive[msg_bytes-i][2];\n"
                    ++ (bytes
                          "\t\tis_consecutive[msg_bytes-1-i][1] <== state_changed[msg_bytes-i].out * is_consecutive[msg_bytes-1-i][0];\n"
                        ++ (bytes
                              "\t\tis_consecutive[msg_bytes-1-i][2] <== ORAnd()([(1 - from_zero_enabled[msg_bytes-i+1]), accepted_state[num_bytes-i], is_consecutive[msg_bytes-1-i][1]]);\n"
                            ++ bytes "\t}\n"))))))

-- one turn of the loop of `write_prev_states`
abbrev prev_state_text : ℕ → ℕ → ℕ → Text
prev_state_text idx trans_idx cur =
    bytes "\t\tprev_states"
    ++ decimal idx
    ++ bytes "["
    ++ decimal trans_idx
    ++ bytes "][i] <== "
    ++ (if cur == 0 then bytes "from_zero_enabled[i+1]" else bytes "(1 - from_zero_enabled[i+1])")
    ++ bytes " * states[i+1]["
    ++ decimal cur
    ++ bytes "];\n"

unfoldable pub write_prev_states : ℕ → ℕ → List (ℕ × ℕ) → Text
write_prev_states idx trans_idx [] = []
write_prev_states idx trans_idx ((cur, _) ∷ ranges) =
    prev_state_text idx trans_idx cur ++ write_prev_states idx (suc trans_idx) ranges

-- the inputs of its `MultiOR`
unfoldable pub substr_inputs : ℕ → ℕ → List (ℕ × ℕ) → List Text
substr_inputs idx trans_idx [] = []
substr_inputs idx trans_idx ((_, next) ∷ ranges) =
    (bytes "prev_states"
      ++ decimal idx
      ++ bytes "["
      ++ decimal trans_idx
      ++ bytes "][i] * states[i+2]["
      ++ decimal next
      ++ bytes "]")
    ∷ substr_inputs idx (suc trans_idx) ranges

unfoldable pub write_is_substr : ℕ → List (ℕ × ℕ) → Text
write_is_substr idx ranges =
    bytes "\t\tis_substr"
    ++ decimal idx
    ++ bytes "[i] <== MultiOR("
    ++ decimal (length ranges)
    ++ bytes ")(["
    ++ join (bytes ", ") (substr_inputs idx 0 ranges)
    ++ bytes "]);\n"

unfoldable pub write_is_reveal_and_reveal : ℕ → Text
write_is_reveal_and_reveal idx =
    bytes "\t\tis_reveal"
    ++ decimal idx
    ++ bytes "[i] <== MultiAND(3)([out, is_substr"
    ++ decimal idx
    ++ bytes "[i], is_consecutive[i][2]]);\n"
    ++ bytes "\t\treveal"
    ++ decimal idx
    ++ bytes "[i] <== in[i+1] * is_reveal"
    ++ decimal idx
    ++ bytes "[i];\n"

abbrev debug_pair : ℕ × ℕ → Text
debug_pair (cur, next) = bytes "(" ++ decimal cur ++ bytes ", " ++ decimal next ++ bytes ")"

abbrev debug_ranges : List (ℕ × ℕ) → Text
debug_ranges ranges = bytes "[" ++ join (bytes ", ") (map debug_pair ranges) ++ bytes "]"

abbrev debug_sets : List (Set (ℕ × ℕ)) → Text
debug_sets sets =
    bytes "["
    ++ join (bytes ", ")
        (map (λ s. bytes "{" ++ join (bytes ", ") (map debug_pair s) ++ bytes "}") sets)
    ++ bytes "]"

-- by the first part, then by the second
unfoldable pub sort_ranges : List (ℕ × ℕ) → List (ℕ × ℕ)
sort_ranges ranges = sort ranges

unfoldable pub write_substr_logic : ℕ → List (ℕ × ℕ) → Text
write_substr_logic idx ranges =
    let sorted_ranges = sort_ranges ranges in
    bytes "\tsignal prev_states"
    ++ decimal idx
    ++ bytes "["
    ++ decimal (length ranges)
    ++ bytes "][msg_bytes];\n"
    ++ bytes "\tsignal is_substr"
    ++ decimal idx
    ++ bytes "[msg_bytes];\n"
    ++ bytes "\tsignal is_reveal"
    ++ decimal idx
    ++ bytes "[msg_bytes];\n"
    ++ bytes "\tsignal output reveal"
    ++ decimal idx
    ++ bytes "[msg_bytes];\n"
    ++ bytes "\tfor (var i = 0; i < msg_bytes; i++) {\n"
    ++ bytes "\t\t // the "
    ++ decimal idx
    ++ bytes "-th substring transitions: "
    ++ debug_ranges sorted_ranges
    ++ bytes "\n"
    ++ write_prev_states idx 0 sorted_ranges
    ++ write_is_substr idx sorted_ranges
    ++ write_is_reveal_and_reveal idx
    ++ bytes "\t}\n"

-- `for (idx, ranges) in substring_ranges.iter().enumerate()`
unfoldable pub write_substrs : ℕ → List (Set (ℕ × ℕ)) → Text
write_substrs idx [] = []
write_substrs idx (ranges ∷ rest) = write_substr_logic idx ranges ++ write_substrs (suc idx) rest

-- Its `Result` is never an error.
unfoldable pub add_substrs_constraints : RegexAndDfa → Text
add_substrs_constraints regex_dfa =
    write_consecutive_logic
    ++ bytes "\t// substrings calculated: "
    ++ debug_sets regex_dfa.substrings.substring_ranges
    ++ bytes "\n"
    ++ write_substrs 0 regex_dfa.substrings.substring_ranges
    ++ bytes "}"
