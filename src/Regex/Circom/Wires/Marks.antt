-- ===== src/Regex/Circom/Wires/Marks.antt =====
-- `zero_starting_states`: the states with an edge from state 0, and which of the two variables a
-- state's update sets.
use zk_pse.Base.{
  ℕ, zero, suc, ◌+◌, ◌<◌, ◌≤◌, ◌==◌, ==_iff, Bool, false, ◌&&◌, ◌||◌, List, [], ◌∷◌, ◌++◌, map,
  Option, none, some, ◌≡◌, refl, ap, ◌∙◌, arith, Bool-cases, inl, inr,
}
use zk_pse.Std.Ord.{nat_ord, pair_ord, bytes_ord, same, same_iff}
use zk_pse.Std.Map.{Map, get, insert, contains}
use zk_pse.Std.Sort.{sort}
use zk_pse.Std.Text.{Text}
use zk_pse.Regex.Circom.Lines.{Gate, and_gate, StateVar, Line}
use zk_pse.Regex.Circom.Ranges.{optimize_char_ranges}
use zk_pse.Regex.Circom.Gates.{
  Builder, add_range_check, new_range_check, add_eq_check, new_eq_check, push_transition,
  new_multi_or_transition, add_state_transition, push_update, new_multi_or_update, update_var,
  add_state_update, state_var_of,
}
use zk_pse.Regex.Circom.Transition.{
  add_ranges, add_code, add_codes, retain_nonzero, add_checks, mark_zero_starting, add_edge,
  add_edges, add_state, add_states, count_up, edges_to, RevGraph,
}
use zk_pse.Regex.Circom.Wires.{any_on}

-- the fields that only an edge from state 0 changes
abbrev pub marks : Builder → (List ℕ × Map ℕ (List ℕ)) × Bool
marks b = ((b.zero_starting_states, b.zero_starting_and_idxes), b.panicked)

add_ranges-marks :
    (rs : List (ℕ × ℕ)) (b : Builder) (outputs : List (Gate × ℕ))
    → marks (add_ranges rs (b, outputs)).0 ≡ marks b
unfolding add_ranges add_range_check new_range_check
add_ranges-marks [] b outputs = refl
add_ranges-marks ((min, max) ∷ rs) b outputs =
    add_ranges-marks rs (add_range_check min max (b, outputs)).0
      (add_range_check min max (b, outputs)).1
    ∙ one (get (min, max) b.range_checks)
  where
    one :
        (o : Option (ℕ × ℕ))
        → marks
            (elim o as (λ x. Builder × List (Gate × ℕ)) [
              | some (_, and_i) ↦ (b, outputs ++ (and_gate, and_i) ∷ [])
              | none ↦ (new_range_check min max b, outputs ++ (and_gate, b.and_i) ∷ [])
            ]).0
          ≡ marks b
    one none = refl
    one (some x) = refl

add_codes-marks :
    (codes : List ℕ) (b : Builder) (outputs : List (Gate × ℕ))
    → marks (add_codes codes (b, outputs)).0 ≡ marks b
unfolding add_codes add_code add_eq_check new_eq_check
add_codes-marks [] b outputs = refl
add_codes-marks (code ∷ codes) b outputs =
    add_codes-marks codes (add_code code (b, outputs)).0 (add_code code (b, outputs)).1
    ∙ one (get code b.eq_checks)
  where
    one :
        (o : Option ℕ)
        → marks
            (elim o as (λ x. Builder × ℕ) [
              | some index ↦ (b, index)
              | none ↦ (new_eq_check code b, b.eq_i)
            ]).0
          ≡ marks b
    one none = refl
    one (some x) = refl

pub add_checks-marks : (chars : List ℕ) (b : Builder) → marks (add_checks chars b).0 ≡ marks b
unfolding add_checks
add_checks-marks chars b =
    let (rs, codes) = optimize_char_ranges (sort (retain_nonzero chars)) in
    add_codes-marks codes (add_ranges rs (b, [])).0 (add_ranges rs (b, [])).1
    ∙ add_ranges-marks rs b []

-- Whether some edge of `from` starts in state 0.
abbrev pub from_state_0 : Map ℕ (List ℕ) → Bool
from_state_0 from = any_on (map (λ e. e.0 == 0) from)

module _ (edge_json : List (Gate × ℕ) → Text) (state_json : List ℕ → Text) where
  -- A component is made for each edge.
  pub add_state_transition-and_i :
      (i prev_i : ℕ) (outputs : List (Gate × ℕ)) (b : Builder)
      → ((add_state_transition edge_json i prev_i outputs b).and_i ≡ b.and_i + 1)
        × ((add_state_transition edge_json i prev_i outputs b).zero_starting_states
            ≡ b.zero_starting_states)
  unfolding add_state_transition push_transition new_multi_or_transition
  add_state_transition-and_i i prev_i [] b = (refl, refl)
  add_state_transition-and_i i prev_i (o ∷ []) b = (refl, refl)
  add_state_transition-and_i i prev_i (first ∷ second ∷ others) b =
      one (get (edge_json (first ∷ second ∷ others)) b.multi_or_checks1)
    where
      made : Option ℕ → Builder
      made o = elim o [
        | some m ↦ push_transition i prev_i (Line.and_b_multi_or b.and_i m ∷ []) b
        | none ↦ new_multi_or_transition edge_json i prev_i (first ∷ second ∷ others) b
      ]

      one :
          (o : Option ℕ)
          → ((made o).and_i ≡ b.and_i + 1)
            × ((made o).zero_starting_states ≡ b.zero_starting_states)
      one none = (refl, refl)
      one (some m) = (refl, refl)

  pub update_var-marks :
      (i : ℕ) (outputs : List ℕ) (var : StateVar) (b : Builder)
      → marks (update_var state_json i outputs var b) ≡ marks b
  unfolding update_var push_update new_multi_or_update
  update_var-marks i [] var b = refl
  update_var-marks i (first ∷ []) var b = refl
  update_var-marks i (first ∷ second ∷ others) var b =
      one (get (state_json (first ∷ second ∷ others)) b.multi_or_checks2)
    where
      made : Option ℕ → Builder
      made o = elim o [
        | some m ↦ push_update (Line.state_by_multi_or var i m ∷ []) b
        | none ↦ new_multi_or_update state_json i (first ∷ second ∷ others) var b
      ]

      one : (o : Option ℕ) → marks (made o) ≡ marks b
      one none = refl
      one (some m) = refl

  contains-append_one :
      (j i : ℕ) (s : List ℕ) → contains j (s ++ i ∷ []) ≡ (contains j s || same j i)
  unfolding contains
  contains-append_one j i [] = ground arith
  contains-append_one j i (x ∷ s) = ground (arith, contains-append_one j i s)

  contains-mark_zero_starting :
      (j i prev_i : ℕ) (b : Builder)
      → contains j (mark_zero_starting i prev_i b).zero_starting_states
        ≡ (contains j b.zero_starting_states || (same j i && (prev_i == 0)))
  unfolding mark_zero_starting
  contains-mark_zero_starting j i prev_i b = elim (Bool-cases (prev_i == 0)) [
    | inl y ↦ rw y (contains-append_one j i b.zero_starting_states ∙ ground arith)
    | inr n ↦ rw n (ground arith)
  ]

  pub add_edges-zero_starting_states :
      (j i : ℕ) (from : Map ℕ (List ℕ)) (s : Builder × List ℕ)
      → contains j (add_edges edge_json state_json i from s).0.zero_starting_states
        ≡ (contains j s.0.zero_starting_states || (same j i && from_state_0 from))
  unfolding add_edges add_edge
  add_edges-zero_starting_states j i [] s = ground arith
  add_edges-zero_starting_states j i ((prev_i, chars) ∷ from) (b, outputs) =
      let marked = mark_zero_starting i prev_i b in
      let (tested, eq_outputs) = add_checks chars marked in
      let here : contains j
            (add_edge edge_json state_json i prev_i chars (b, outputs)).0.zero_starting_states
          ≡ (contains j b.zero_starting_states || (same j i && (prev_i == 0))) =
        ap (contains j) (
          (add_state_transition-and_i i prev_i eq_outputs tested).1
          ∙ ap (λ z. z.0.0) (add_checks-marks chars marked))
        ∙ contains-mark_zero_starting j i prev_i b in
      add_edges-zero_starting_states j i from
        (add_edge edge_json state_json i prev_i chars (b, outputs))
      ∙ ap (λ z. z || (same j i && from_state_0 from)) here
      ∙ ground arith

  pub add_state-zero_starting_states :
      (j : ℕ) (rev_graph : RevGraph) (i : ℕ) (b : Builder)
      → contains j (add_state edge_json state_json rev_graph i b).zero_starting_states
        ≡ (contains j b.zero_starting_states || (same j i && from_state_0 (edges_to i rev_graph)))
  unfolding add_state add_state_update
  add_state-zero_starting_states j rev_graph i b =
      let before = record b { zero_starting_and_idxes = insert i [] b.zero_starting_and_idxes } in
      let (b', outputs) = add_edges edge_json state_json i (edges_to i rev_graph) (before, []) in
      ap (λ z. contains j z.0.0)
        (update_var-marks i outputs (state_var_of i b'.zero_starting_states) b')
      ∙ add_edges-zero_starting_states j i (edges_to i rev_graph) (before, [])

  -- Of the states of the rounds, exactly those with an edge from state 0 are marked.
  pub add_states-zero_starting_states :
      (k : ℕ) (rev_graph : RevGraph) (n j : ℕ) (b : Builder)
      → j ≤ k
      → k < j + n
      → contains k b.zero_starting_states ≡ false
      → contains k (add_states edge_json state_json rev_graph (count_up n j) b).zero_starting_states
        ≡ from_state_0 (edges_to k rev_graph)
  unfolding add_states count_up
  add_states-zero_starting_states k rev_graph n j b le lt fresh =
      marked n j b le lt ∙ ap (λ z. z || from_state_0 (edges_to k rev_graph)) fresh
    where
      later :
          (n j : ℕ) (b : Builder)
          → k < j
          → contains k
              (add_states edge_json state_json rev_graph (count_up n j) b).zero_starting_states
            ≡ contains k b.zero_starting_states
      later zero j b lt' = refl
      later (suc n) j b lt' =
          later n (suc j) (add_state edge_json state_json rev_graph j b) (omega arith)
          ∙ add_state-zero_starting_states k rev_graph j b
          ∙ ground (arith, same_iff k j)

      marked :
          (n j : ℕ) (b : Builder)
          → j ≤ k
          → k < j + n
          → contains k
              (add_states edge_json state_json rev_graph (count_up n j) b).zero_starting_states
            ≡ (contains k b.zero_starting_states || from_state_0 (edges_to k rev_graph))
      marked zero j b le' lt' = absurd (omega arith)
      marked (suc n) j b le' lt' =
          let first = add_state edge_json state_json rev_graph j b in
          elim (Bool-cases (k == j)) [
            | inl y ↦
                let here : k ≡ j = (==_iff k j).0 y in
                later n (suc j) first (omega arith)
                ∙ add_state-zero_starting_states k rev_graph j b
                ∙ ground (arith, same_iff k j, here)
            | inr other ↦
                marked n (suc j) first (ground arith) (omega arith)
                ∙ ap (λ z. z || from_state_0 (edges_to k rev_graph))
                    (add_state-zero_starting_states k rev_graph j b
                      ∙ ground (arith, same_iff k j, other))
          ]
