-- ===== src/Regex/Circom/Gates.antt =====
-- compiler/src/circom.rs: the components that one position of the circuit is made of. What the
-- functions change is one record. The keys of the two maps are JSON texts that serde_json writes:
-- parameters.
use zk_pse.Base.{
  ℕ, suc, ◌+◌, ◌==◌, if◌then◌else◌, Bool, true, false, ◌||◌, List, [], ◌∷◌, ◌++◌, map, length, none,
  some,
}
use zk_pse.Std.Ord.{nat_ord, pair_ord, bytes_ord}
use zk_pse.Std.Map.{Map, get, insert, contains}
use zk_pse.Std.Text.{Text}
use zk_pse.Regex.Circom.Lines.{Gate, and_gate, StateVar, Line}

pub record Builder : Type 0 where
  pub lines : List Line
  pub eq_i : ℕ
  pub lt_i : ℕ
  pub and_i : ℕ
  pub multi_or_i : ℕ
  -- arrays of `Option`s in the code: a missing key is `None`
  pub range_checks : Map (ℕ × ℕ) (ℕ × ℕ)
  pub eq_checks : Map ℕ ℕ
  pub multi_or_checks1 : Map Text ℕ
  pub multi_or_checks2 : Map Text ℕ
  pub zero_starting_states : List ℕ
  pub zero_starting_and_idxes : Map ℕ (List ℕ)
  -- whether an `unwrap` has met `None`: the code has panicked then, and the other fields do not count
  pub panicked : Bool

unfoldable pub range_lines : ℕ → ℕ → ℕ → ℕ → List Line
range_lines min max lt_i and_i =
    Line.less_eq_than lt_i
    ∷ Line.less_eq_than_min lt_i min
    ∷ Line.less_eq_than_right_byte lt_i
    ∷ Line.less_eq_than (lt_i + 1)
    ∷ Line.less_eq_than_left_byte (lt_i + 1)
    ∷ Line.less_eq_than_max (lt_i + 1) max
    ∷ Line.and_component and_i
    ∷ Line.and_a_less and_i lt_i
    ∷ Line.and_b_less and_i (lt_i + 1)
    ∷ []

-- the branch for a range that no component tests yet
unfoldable pub new_range_check : ℕ → ℕ → Builder → Builder
new_range_check min max b = record b {
  lines = b.lines ++ range_lines min max b.lt_i b.and_i;
  range_checks = insert (min, max) (b.lt_i, b.and_i) b.range_checks;
  lt_i = b.lt_i + 2;
  and_i = b.and_i + 1;
}

unfoldable pub add_range_check : ℕ → ℕ → Builder × List (Gate × ℕ) → Builder × List (Gate × ℕ)
add_range_check min max (b, eq_outputs) = elim (get (min, max) b.range_checks) [
  | some (_, and_i) ↦ (b, eq_outputs ++ (and_gate, and_i) ∷ [])
  | none ↦ (new_range_check min max b, eq_outputs ++ (and_gate, b.and_i) ∷ [])
]

unfoldable pub eq_lines : ℕ → ℕ → List Line
eq_lines code eq_i =
    Line.is_equal eq_i ∷ Line.is_equal_byte eq_i ∷ Line.is_equal_code eq_i code ∷ []

unfoldable pub new_eq_check : ℕ → Builder → Builder
new_eq_check code b = record b {
  lines = b.lines ++ eq_lines code b.eq_i;
  eq_checks = insert code b.eq_i b.eq_checks;
  eq_i = b.eq_i + 1;
}

unfoldable pub add_eq_check : ℕ → Builder → Builder × ℕ
add_eq_check code b = elim (get code b.eq_checks) [
  | some index ↦ (b, index)
  | none ↦ (new_eq_check code b, b.eq_i)
]

-- `for (output_i, (eq_type, eq_i)) in eq_outputs.iter().enumerate()`
unfoldable pub multi_or_inputs : ℕ → ℕ → List (Gate × ℕ) → List Line
multi_or_inputs m j [] = []
multi_or_inputs m j ((gate, k) ∷ outputs) =
    Line.multi_or_input m j gate k ∷ multi_or_inputs m (suc j) outputs

-- `zero_starting_and_idxes.get_mut(&i).unwrap().push(and_i)`: the map after it, and whether it panics.
unfoldable pub push_and : ℕ → ℕ → Map ℕ (List ℕ) → Map ℕ (List ℕ) × Bool
push_and i and_i m = elim (get i m) [
  | none ↦ (m, true)
  | some ands ↦ (insert i (ands ++ and_i ∷ []) m, false)
]

abbrev pub push_if_zero : ℕ → ℕ → Builder → Map ℕ (List ℕ) × Bool
push_if_zero i prev_i b =
    if prev_i == 0
    then push_and i b.and_i b.zero_starting_and_idxes
    else (b.zero_starting_and_idxes, false)

-- `and[and_i].a`, what sets `and[and_i].b`, and the counters after them
unfoldable pub push_transition : ℕ → ℕ → List Line → Builder → Builder
push_transition i prev_i right b = record b {
  lines = b.lines ++ Line.and_component b.and_i ∷ Line.and_a_state b.and_i prev_i ∷ right;
  zero_starting_and_idxes = (push_if_zero i prev_i b).0;
  panicked = b.panicked || (push_if_zero i prev_i b).1;
  and_i = b.and_i + 1;
}

-- the lines of a `MultiOR` of `outputs`
unfoldable pub multi_or_lines : ℕ → List (Gate × ℕ) → List Line
multi_or_lines m outputs = Line.multi_or m (length outputs) ∷ multi_or_inputs m 0 outputs

module _ (to_json : List (Gate × ℕ) → Text) where
  unfoldable pub new_multi_or_transition : ℕ → ℕ → List (Gate × ℕ) → Builder → Builder
  new_multi_or_transition i prev_i outputs b =
      record (push_transition i prev_i
        (multi_or_lines b.multi_or_i outputs ++ Line.and_b_multi_or b.and_i b.multi_or_i ∷ []) b) {
          multi_or_checks1 = insert (to_json outputs) b.multi_or_i b.multi_or_checks1;
          multi_or_i = b.multi_or_i + 1;
        }

  -- With no outputs, `b` of the component stays without a value.
  unfoldable pub add_state_transition : ℕ → ℕ → List (Gate × ℕ) → Builder → Builder
  add_state_transition i prev_i [] b = record b {
    lines = b.lines ++ Line.and_component b.and_i ∷ Line.and_a_state b.and_i prev_i ∷ [];
    and_i = b.and_i + 1;
  }
  add_state_transition i prev_i ((gate, k) ∷ []) b =
      push_transition i prev_i (Line.and_b_gate b.and_i gate k ∷ []) b
  add_state_transition i prev_i (first ∷ second ∷ others) b =
      elim (get (to_json (first ∷ second ∷ others)) b.multi_or_checks1) [
        | some multi_or_index ↦
            push_transition i prev_i (Line.and_b_multi_or b.and_i multi_or_index ∷ []) b
        | none ↦ new_multi_or_transition i prev_i (first ∷ second ∷ others) b
      ]

abbrev pub and_outputs : List ℕ → List (Gate × ℕ)
and_outputs = map (λ a. (and_gate, a))

unfoldable pub add_multi_or_gate : List ℕ → ℕ → ℕ → StateVar → List Line
add_multi_or_gate outputs multi_or_i i state_var =
    multi_or_lines multi_or_i (and_outputs outputs)
    ++ Line.state_by_multi_or state_var i multi_or_i ∷ []

abbrev pub state_var_of : ℕ → List ℕ → StateVar
state_var_of i zero_starting_states =
    if contains i zero_starting_states then StateVar.states_tmp else StateVar.states

unfoldable pub push_update : List Line → Builder → Builder
push_update ls b = record b { lines = b.lines ++ ls }

module _ (to_json : List ℕ → Text) where
  unfoldable pub new_multi_or_update : ℕ → List ℕ → StateVar → Builder → Builder
  new_multi_or_update i outputs state_var b =
      record (push_update (add_multi_or_gate outputs b.multi_or_i i state_var) b) {
        multi_or_checks2 = insert (to_json outputs) b.multi_or_i b.multi_or_checks2;
        multi_or_i = b.multi_or_i + 1;
      }

  -- the update of one of the two variables
  unfoldable pub update_var : ℕ → List ℕ → StateVar → Builder → Builder
  update_var i [] state_var b = push_update (Line.state_off state_var i ∷ []) b
  update_var i (first ∷ []) state_var b = push_update (Line.state_by_and state_var i first ∷ []) b
  update_var i (first ∷ second ∷ others) state_var b =
      elim (get (to_json (first ∷ second ∷ others)) b.multi_or_checks2) [
        | some multi_or_index ↦
            push_update (Line.state_by_multi_or state_var i multi_or_index ∷ []) b
        | none ↦ new_multi_or_update i (first ∷ second ∷ others) state_var b
      ]

  unfoldable pub add_state_update : ℕ → List ℕ → Builder → Builder
  add_state_update i outputs b = update_var i outputs (state_var_of i b.zero_starting_states) b
