-- ===== src/Tests/Circom.antt =====
-- The circuit of small automata, and the theorems about it at concrete values.
use zk_pse.Base.{
  ℕ, zero, suc, ◌+◌, ◌-◌, ◌<◌, ◌≤◌, ◌==◌, leb, true, false, not, ◌&&◌, ◌||◌, List, [], ◌∷◌, ◌++◌,
  get_elem?, none, some, ◌⊎◌, ◌≡◌, ◌≢◌, refl, arith, All,
}
use zk_pse.Std.Ord.{nat_ord}
use zk_pse.Std.Map.{get, insert, contains, delete, add, add_all}
use zk_pse.Std.Text.{Text, bytes}
use zk_pse.Regex.Structs.{DfaStateNode, DfaGraph, RegexAndDfa, ok, err, accept_nodes_error}
use zk_pse.Regex.Circom.Lines.{Gate, eq_gate, and_gate, StateVar}
use zk_pse.Regex.Label.{byte_range, range_from}
use zk_pse.Std.Sort.{sort, insert_sorted}
use zk_pse.Regex.Circom.Ranges.{
  optimize_char_ranges, find_ranges, range_step, close_range, remove_ranges, remove_codes,
}
use zk_pse.Regex.Circom.Gates.{
  add_eq_check, new_eq_check, eq_lines, add_state_transition, push_transition, push_and,
  add_state_update, update_var, push_update,
}
use zk_pse.Regex.Circom.Ranges.Cover.{in_ranges, NeverOverflows, optimize_char_ranges-cover}
use zk_pse.Regex.Circom.Transition.{
  RevGraph, edges_to, build_reverse_graph, generate_state_transition_logic, add_states, add_state,
  add_edges, add_edge, add_checks, add_ranges, add_codes, add_code, mark_zero_starting,
  retain_nonzero, count_up, loop_start, empty_builder, add_from_zero_enabled,
  add_zero_starting_state_updates, add_state_changed_updates,
}
use zk_pse.Regex.Circom.Wires.{Helpers, Position, Wiring, Satisfies, any_on}
use zk_pse.Regex.Circom.Wires.Rounds.{IsTested, taken_later, taken_zero}
use zk_pse.Regex.Circom.Wires.Next.{some_later, generate_state_transition_logic-next_states}
use zk_pse.Regex.Circom.Reverse.{build_reverse_graph-transposes}
use zk_pse.Regex.Circom.Reverse.Nodes.{LeadsBelow, edge_of, accepts_at}
use zk_pse.Regex.Circom.Template.{generate_declarations, gen_circom_string}
use zk_pse.Regex.Circom.Template.Quoted.{generate_declarations-quoted}
use zk_pse.Regex.Circom.Template.Total.{gen_circom_string-cases}

-- Twenty letters, and two digits.
abbrev letters_and_digits : List ℕ
letters_and_digits =
    48 ∷ 57 ∷ 97 ∷ 98 ∷ 99 ∷ 100 ∷ 101 ∷ 102 ∷ 103 ∷ 104 ∷ 105 ∷ 106 ∷ 107 ∷ 108 ∷ 109 ∷ 110 ∷ 111
    ∷ 112 ∷ 113 ∷ 114 ∷ 115 ∷ 116 ∷ []

optimize_char_ranges_test : optimize_char_ranges letters_and_digits ≡ ((97, 116) ∷ [], 48 ∷ 57 ∷ [])
unfolding optimize_char_ranges find_ranges range_step close_range remove_ranges remove_codes delete
    add add_all byte_range range_from
optimize_char_ranges_test = refl

optimize_char_ranges-cover_example :
    ((c : ℕ)
      → ((in_ranges c (optimize_char_ranges letters_and_digits).0
            || contains c (optimize_char_ranges letters_and_digits).1)
          ≡ contains c letters_and_digits)
        × ((in_ranges c (optimize_char_ranges letters_and_digits).0
              && contains c (optimize_char_ranges letters_and_digits).1)
            ≡ false))
    × All (λ r. 16 ≤ r.1 - r.0) (optimize_char_ranges letters_and_digits).0
    × NeverOverflows letters_and_digits
optimize_char_ranges-cover_example =
    optimize_char_ranges-cover letters_and_digits (omega arith) (omega arith)

abbrev helpers : Helpers
helpers = record {
  is_equal = ◌==◌;
  less_eq_than = leb;
  and = ◌&&◌;
  multi_or = any_on;
  is_equal_lem = λ a b. refl;
  less_eq_than_lem = λ a b _ _. refl;
  and_lem = λ a b. refl;
  multi_or_lem = λ xs. refl;
}

-- The automaton of "ab", whose state 1 is on, at the byte "b".
abbrev position : Position
position = record {
  byte = 98;
  state = λ k. k == 0 || k == 1;
  next = λ var k. k == 2;
  from_zero = false;
  eq_left = λ k. 98;
  eq_right = λ k. 97 + k;
  eq_out = λ k. k == 1;
  lt_left = λ k. 0;
  lt_right = λ k. 0;
  lt_out = λ k. true;
  and_a = λ k. true;
  and_b = λ k. k == 1;
  and_out = λ k. k == 1;
  multi_or_in = λ m j. false;
  multi_or_out = λ m. false;
}

abbrev gate_byte : Gate → ℕ
gate_byte eq_gate = 0
gate_byte and_gate = 1

abbrev edge_json : List (Gate × ℕ) → Text
edge_json [] = []
edge_json ((gate, k) ∷ outputs) = gate_byte gate ∷ k ∷ edge_json outputs

edge_json_inj : (xs ys : List (Gate × ℕ)) → edge_json xs ≡ edge_json ys → xs ≡ ys
edge_json_inj [] [] e = refl
edge_json_inj [] (y ∷ ys) e = cc e
edge_json_inj (x ∷ xs) [] e = cc e
edge_json_inj ((eq_gate, k) ∷ xs) ((eq_gate, l) ∷ ys) e = cc (edge_json_inj xs ys (cc e))
edge_json_inj ((and_gate, k) ∷ xs) ((and_gate, l) ∷ ys) e = cc (edge_json_inj xs ys (cc e))
edge_json_inj ((eq_gate, k) ∷ xs) ((and_gate, l) ∷ ys) e = cc e
edge_json_inj ((and_gate, k) ∷ xs) ((eq_gate, l) ∷ ys) e = cc e

abbrev state_json : List ℕ → Text
state_json outputs = outputs

byte_small : 98 < 256
byte_small = omega arith

abbrev wiring : Wiring
wiring = record {
  h = helpers;
  p = position;
  small = byte_small;
  edge_json = edge_json;
  state_json = state_json;
  edge_json_inj = edge_json_inj;
  state_json_inj = λ xs ys e. e;
}

abbrev rev_graph : RevGraph
rev_graph = (0, []) ∷ (1, (0, 97 ∷ []) ∷ []) ∷ (2, (1, 98 ∷ []) ∷ []) ∷ []

tested : (i : ℕ) → 1 ≤ i → i < 3 → All IsTested (edges_to i rev_graph)
unfolding get contains
tested zero le lt = absurd (omega arith)
tested (suc zero) le lt = ((λ c e. ground arith, (97, refl)), tt)
tested (suc (suc zero)) le lt = ((λ c e. ground arith, (98, refl)), tt)
tested (suc (suc (suc i))) le lt = absurd (omega arith)

satisfied :
    Satisfies helpers position
      (generate_state_transition_logic edge_json state_json rev_graph 3 false).lines
unfolding generate_state_transition_logic add_states add_state add_edges add_edge add_checks
    add_ranges add_codes add_code add_eq_check new_eq_check eq_lines add_state_transition
    push_transition push_and add_state_update update_var push_update mark_zero_starting
    retain_nonzero sort insert_sorted optimize_char_ranges find_ranges range_step close_range
    remove_ranges delete add add_all count_up loop_start empty_builder get insert contains
    add_from_zero_enabled add_zero_starting_state_updates add_state_changed_updates
satisfied = (
  tt,
  (
    tt,
    (
      refl,
      (
        refl,
        (
          refl,
          (
            refl,
            (
              refl,
              (
                refl,
                (
                  refl,
                  (
                    refl,
                    (
                      refl,
                      (
                        refl,
                        (
                          refl,
                          (refl, (refl, (refl, (refl, (refl, (refl, (tt, (tt, (tt, tt))))))))),
                        ),
                      ),
                    ),
                  ),
                ),
              ),
            ),
          ),
        ),
      ),
    ),
  ),
)

generate_state_transition_logic-next_states_example : position.next StateVar.states 2 ≡ (
    taken_later wiring (edges_to 2 rev_graph)
    || (not (some_later wiring rev_graph 3) && taken_zero wiring (edges_to 2 rev_graph)))
generate_state_transition_logic-next_states_example =
    generate_state_transition_logic-next_states wiring rev_graph 3 false tested satisfied 2
      (omega arith) (omega arith)

abbrev node : Text → List (ℕ × List ℕ) → DfaStateNode
node state_type transitions = record {
  state_type = state_type;
  state_id = 0;
  transitions = transitions;
}

-- The automaton of "ab".
abbrev two_bytes : DfaGraph
two_bytes = record {
  states =
      node [] ((1, 97 ∷ []) ∷ []) ∷ node [] ((2, 98 ∷ []) ∷ []) ∷ node (bytes "accept") [] ∷ [];
}

two_bytes-LeadsBelow : All (LeadsBelow 3) two_bytes.states
unfolding get
two_bytes-LeadsBelow =
    (((omega arith, tt), (refl, tt)), (((omega arith, tt), (refl, tt)), ((tt, tt), tt)))

build_reverse_graph-transposes_example :
    ((build_reverse_graph 3 two_bytes
        ≡ some (err (accept_nodes_error (bytes "Accept node must exist"))))
      × ((q : ℕ) → accepts_at (get_elem? two_bytes.states q) ≡ false))
    ⊎ ((g : RevGraph) × (acc : List ℕ) × (build_reverse_graph 3 two_bytes ≡ some (ok (g, acc)))
        × ((q j : ℕ) → get q (edges_to j g) ≡ edge_of j (get_elem? two_bytes.states q))
        × ((q : ℕ) → contains q acc ≡ accepts_at (get_elem? two_bytes.states q))
        × (acc ≢ []))
build_reverse_graph-transposes_example =
    build_reverse_graph-transposes two_bytes two_bytes-LeadsBelow

abbrev two_bytes_regex : RegexAndDfa
two_bytes_regex = record {
  regex_pattern = bytes "ab";
  dfa = two_bytes;
  has_end_anchor = false;
  substrings = record { substring_ranges = ((0, 1) ∷ []) ∷ []; substring_boundaries = none };
}

gen_circom_string-cases_example :
    ((gen_circom_string edge_json state_json two_bytes_regex (bytes "Ab")
        ≡ some (err (accept_nodes_error (bytes "Accept node must exist"))))
      × ((q : ℕ) → accepts_at (get_elem? two_bytes.states q) ≡ false))
    ⊎ ((text : Text) × (gen_circom_string edge_json state_json two_bytes_regex (bytes "Ab")
          ≡ some (ok text))
        × (q : ℕ) × (accepts_at (get_elem? two_bytes.states q) ≡ true))
gen_circom_string-cases_example =
    gen_circom_string-cases edge_json state_json two_bytes_regex (bytes "Ab") two_bytes-LeadsBelow

generate_declarations-quoted_example :
    (text : Text) × (get_elem? (generate_declarations (bytes "T") (bytes "a\nb") 3 1 0 2 0 true) 2
      ≡ some (bytes "// regex: " ++ text))
    × (contains 10 text ≡ false)
    × (contains 13 text ≡ false)
generate_declarations-quoted_example =
    generate_declarations-quoted (bytes "T") (bytes "a\nb") 3 1 0 2 0 true
