-- ===== src/Regex/Circom/Lines.antt =====
-- The lines of the loop over the bytes (compiler/src/circom.rs), one constructor for each format
-- string, and their text. `i` in the text is the position, a variable of the circuit.
use zk_pse.Base.{ℕ, ◌+◌, List, ◌++◌, map, length}
use zk_pse.Std.Text.{Text, bytes, decimal, join}

-- The components that a byte is tested by: the first parts of `eq_outputs`.
pub data Gate : Type 0 where
  eq_gate : Gate
  and_gate : Gate

abbrev pub gate_name : Gate → Text
gate_name eq_gate = bytes "eq"
gate_name and_gate = bytes "and"

-- `states` or, for a state with an edge from state 0, `states_tmp`.
pub data StateVar : Type 0 where
  states : StateVar
  states_tmp : StateVar

abbrev pub var_name : StateVar → Text
var_name states = bytes "states"
var_name states_tmp = bytes "states_tmp"

pub data Line : Type 0 where
  for_bytes : Line
  state_changed : ℕ → Line
  first_state_on : Line
  padding_start : Line
  less_eq_than : ℕ → Line
  less_eq_than_min : ℕ → ℕ → Line
  less_eq_than_max : ℕ → ℕ → Line
  less_eq_than_left_byte : ℕ → Line
  less_eq_than_right_byte : ℕ → Line
  and_component : ℕ → Line
  and_a_less : ℕ → ℕ → Line
  and_b_less : ℕ → ℕ → Line
  and_a_state : ℕ → ℕ → Line
  and_b_gate : ℕ → Gate → ℕ → Line
  and_b_multi_or : ℕ → ℕ → Line
  is_equal : ℕ → Line
  is_equal_byte : ℕ → Line
  is_equal_code : ℕ → ℕ → Line
  multi_or : ℕ → ℕ → Line
  multi_or_input : ℕ → ℕ → Gate → ℕ → Line
  state_off : StateVar → ℕ → Line
  state_by_and : StateVar → ℕ → ℕ → Line
  state_by_multi_or : StateVar → ℕ → ℕ → Line
  from_zero_enabled : ℕ → List (StateVar × ℕ) → Line
  zero_starting_update : ℕ → List ℕ → Line
  state_changed_input : ℕ → ℕ → Line
  end_for : Line

abbrev component : Text → ℕ → Text → Text
component name k rest = bytes "\t\t" ++ name ++ bytes "[" ++ decimal k ++ bytes "][i]" ++ rest

abbrev at_position : Text → ℕ → Text
at_position name k = name ++ bytes "[" ++ decimal k ++ bytes "][i].out"

abbrev next_state_text : StateVar × ℕ → Text
next_state_text (var, k) = var_name var ++ bytes "[i+1][" ++ decimal k ++ bytes "]"

unfoldable pub render : Line → Text
render for_bytes = bytes "\tfor (var i = 0; i < num_bytes; i++) {"
render (state_changed n) = bytes "\t\tstate_changed[i] = MultiOR(" ++ decimal n ++ bytes ");"
render first_state_on = bytes "\t\tstates[i][0] <== 1;"
render padding_start = bytes "\t\tpadding_start[i+1] <== IsNotZeroAcc()(padding_start[i], in[i]);"
render (less_eq_than k) = component (bytes "lt") k (bytes " = LessEqThan(8);")
render (less_eq_than_min k min) =
    component (bytes "lt") k (bytes ".in[0] <== " ++ decimal min ++ bytes ";")
render (less_eq_than_max k max) =
    component (bytes "lt") k (bytes ".in[1] <== " ++ decimal max ++ bytes ";")
render (less_eq_than_left_byte k) = component (bytes "lt") k (bytes ".in[0] <== in[i];")
render (less_eq_than_right_byte k) = component (bytes "lt") k (bytes ".in[1] <== in[i];")
render (and_component k) = component (bytes "and") k (bytes " = AND();")
render (and_a_less k l) =
    component (bytes "and") k (bytes ".a <== " ++ at_position (bytes "lt") l ++ bytes ";")
render (and_b_less k l) =
    component (bytes "and") k (bytes ".b <== " ++ at_position (bytes "lt") l ++ bytes ";")
render (and_a_state k prev) =
    component (bytes "and") k (bytes ".a <== states[i][" ++ decimal prev ++ bytes "];")
render (and_b_gate k gate l) =
    component (bytes "and") k (bytes ".b <== " ++ at_position (gate_name gate) l ++ bytes ";")
render (and_b_multi_or k m) =
    component (bytes "and") k (bytes ".b <== " ++ at_position (bytes "multi_or") m ++ bytes ";")
render (is_equal k) = component (bytes "eq") k (bytes " = IsEqual();")
render (is_equal_byte k) = component (bytes "eq") k (bytes ".in[0] <== in[i];")
render (is_equal_code k code) =
    component (bytes "eq") k (bytes ".in[1] <== " ++ decimal code ++ bytes ";")
render (multi_or m n) =
    component (bytes "multi_or") m (bytes " = MultiOR(" ++ decimal n ++ bytes ");")
render (multi_or_input m j gate k) =
    component (bytes "multi_or") m
      (bytes ".in[" ++ decimal j ++ bytes "] <== " ++ at_position (gate_name gate) k ++ bytes ";")
render (state_off var k) = bytes "\t\t" ++ next_state_text (var, k) ++ bytes " <== 0;"
render (state_by_and var k a) =
    bytes "\t\t"
    ++ next_state_text (var, k)
    ++ bytes " <== "
    ++ at_position (bytes "and") a
    ++ bytes ";"
render (state_by_multi_or var k m) =
    bytes "\t\t"
    ++ next_state_text (var, k)
    ++ bytes " <== "
    ++ at_position (bytes "multi_or") m
    ++ bytes ";"
render (from_zero_enabled n inputs) =
    bytes "\t\tfrom_zero_enabled[i] <== MultiNOR("
    ++ decimal n
    ++ bytes ")(["
    ++ join (bytes ", ") (map next_state_text inputs)
    ++ bytes "]);"
render (zero_starting_update k ands) =
    bytes "\t\tstates[i+1]["
    ++ decimal k
    ++ bytes "] <== MultiOR("
    ++ decimal (length ands + 1)
    ++ bytes ")([states_tmp[i+1]["
    ++ decimal k
    ++ bytes "], "
    ++ join (bytes ", ")
        (map (λ a. bytes "from_zero_enabled[i] * " ++ at_position (bytes "and") a) ands)
    ++ bytes "]);"
render (state_changed_input j k) =
    bytes "\t\tstate_changed[i].in["
    ++ decimal j
    ++ bytes "] <== states[i+1]["
    ++ decimal k
    ++ bytes "];"
render end_for = bytes "\t}"
