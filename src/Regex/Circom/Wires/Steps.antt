-- ===== src/Regex/Circom/Wires/Steps.antt =====
-- What the rounds over the states come to.
use zk_pse.Base.{
  ℕ, zero, suc, ◌+◌, ◌<◌, ◌≤◌, ◌==◌, ==_iff, false, if◌then◌else◌, List, [], some, ◌≡◌, refl, sym,
  ap, ◌∙◌, arith, Bool-cases, inl, inr, All, subst,
}
use zk_pse.Std.Ord.{nat_ord, pair_ord, bytes_ord, same_iff}
use zk_pse.Std.Map.{Map, get, insert, get-insert, contains}
use zk_pse.Regex.Circom.Lines.{StateVar, Line}
use zk_pse.Regex.Circom.Gates.{Builder, add_state_update, state_var_of, update_var}
use zk_pse.Regex.Circom.Transition.{
  RevGraph, add_edges, add_state, add_states, edges_to, empty_builder, count_up,
}
use zk_pse.Regex.Circom.Wires.{Wiring}
use zk_pse.Regex.Circom.Wires.Checks.{Tests, Keeps}
use zk_pse.Regex.Circom.Wires.Edges.{update_var-Tests}
use zk_pse.Regex.Circom.Wires.Marks.{
  add_edges-zero_starting_states, add_state-zero_starting_states, from_state_0,
}
use zk_pse.Regex.Circom.Wires.Apart.{add_states-other}
use zk_pse.Regex.Circom.Lines.{Line}
use zk_pse.Regex.Circom.Gates.{Builder}
use zk_pse.Std.Map.{get-insert}
use zk_pse.Regex.Circom.Wires.Rounds.{
  IsTested, var_of_edges, taken_later, taken_zero, Noted, add_edges-Tests,
}
use zk_pse.Regex.Circom.Wires.Marks.{update_var-marks}

module _ (w : Wiring) where
  -- What the circuit has for state `i`: its variable, and the components noted down for it.
  abbrev pub Follows : RevGraph → ℕ → Map ℕ (List ℕ) → Type 0
  Follows rev_graph i idxes =
      (w.p.next (var_of_edges (edges_to i rev_graph)) i ≡ taken_later w (edges_to i rev_graph))
      × Noted w i idxes (taken_zero w (edges_to i rev_graph)) (from_state_0 (edges_to i rev_graph))

  add_state-Tests :
      (rev_graph : RevGraph) (i : ℕ) (b : Builder)
      → contains i b.zero_starting_states ≡ false
      → All IsTested (edges_to i rev_graph)
      → Keeps w b (add_state w.edge_json w.state_json rev_graph i b) (
          Follows rev_graph i
            (add_state w.edge_json w.state_json rev_graph i b).zero_starting_and_idxes)
  unfolding add_state add_state_update
  add_state-Tests rev_graph i b fresh all s =
      let from = edges_to i rev_graph in
      let before = record b { zero_starting_and_idxes = insert i [] b.zero_starting_and_idxes } in
      let (b', outputs) = add_edges w.edge_json w.state_json i from (before, []) in
      let after = update_var w.state_json i outputs (state_var_of i b'.zero_starting_states) b' in
      let var : (if contains i b'.zero_starting_states
            then StateVar.states_tmp
            else StateVar.states)
          ≡ var_of_edges from =
        ap (λ z. if z then StateVar.states_tmp else StateVar.states)
          (add_edges-zero_starting_states w.edge_json w.state_json i i from (before, [])
            ∙ ground (arith, fresh, same_iff i i)) in
      let none_yet : Noted w i before.zero_starting_and_idxes false false = (
        [],
        get-insert i i [] b.zero_starting_and_idxes
            ∙ ap (λ z. if z then some [] else get i b.zero_starting_and_idxes)
                ((same_iff i i).1 refl),
        refl,
        λ _. refl,
      ) in
      let (s1, k2) = update_var-Tests w i outputs (state_var_of i b'.zero_starting_states) b' s in
      let (s2, k1) = add_edges-Tests w i from before [] false false all s1 in
      (
        s2,
        λ t.
            let t0 : Tests w before = record {
              equal = t.equal;
              within = t.within;
              some_edge = t.some_edge;
              some_state = t.some_state;
            } in
            let (t1, (q, noted)) = k1 t0 in
            let (t2, r) = k2 t1 in
            (
              t2,
              (
                ap (λ v. w.p.next v i) (sym var) ∙ r ∙ q,
                subst (λ m. Noted w i m (taken_zero w from) (from_state_0 from))
                    (sym (
                      ap (λ z. z.0.1)
                        (update_var-marks w.edge_json w.state_json i outputs
                          (state_var_of i b'.zero_starting_states) b')))
                    (noted none_yet),
              ),
            ),
      )

  pub add_states-Tests :
      (rev_graph : RevGraph) (n j : ℕ) (b : Builder)
      → ((i : ℕ) → j ≤ i → contains i b.zero_starting_states ≡ false)
      → ((i : ℕ) → j ≤ i → i < j + n → All IsTested (edges_to i rev_graph))
      → Keeps w b (add_states w.edge_json w.state_json rev_graph (count_up n j) b) (
          (i : ℕ)
          → j ≤ i
          → i < j + n
          → Follows rev_graph i
              (add_states w.edge_json w.state_json rev_graph
                (count_up n j)
                b).zero_starting_and_idxes)
  unfolding add_states count_up
  add_states-Tests rev_graph zero j b fresh all s = (s, λ t. (t, λ i le lt. absurd (omega arith)))
  add_states-Tests rev_graph (suc n) j b fresh all s =
      let first = add_state w.edge_json w.state_json rev_graph j b in
      let last = add_states w.edge_json w.state_json rev_graph (count_up n (suc j)) first in
      let fresh' : (i : ℕ) → suc j ≤ i → contains i first.zero_starting_states ≡ false = λ i le.
        add_state-zero_starting_states w.edge_json w.state_json i rev_graph j b
        ∙ ground (arith, fresh i (omega arith), same_iff i j) in
      let (s1, k2) =
        add_states-Tests rev_graph n (suc j) first fresh'
          (λ i le lt. all i (omega arith) (omega arith)) s in
      let (s2, k1) =
        add_state-Tests rev_graph j b (fresh j (omega arith)) (all j (omega arith) (omega arith))
          s1 in
      (
        s2,
        λ t.
            let (t1, (q, (ands, e, rest, some_if))) = k1 t in
            let (t2, r) = k2 t1 in
            let here : Follows rev_graph j last.zero_starting_and_idxes = (
              q,
              (
                ands,
                add_states-other w.edge_json w.state_json j rev_graph n (suc j) first (omega arith)
                    ∙ e,
                rest,
                some_if,
              ),
            ) in
            (
              t2,
              λ i le lt. elim (Bool-cases (i == j)) [
                | inl y ↦
                    subst (λ k. Follows rev_graph k last.zero_starting_and_idxes)
                      (sym ((==_iff i j).0 y)) here
                | inr other ↦ r i (ground arith) (omega arith)
              ],
            ),
      )

  pub empty_builder-Tests : (lines : List Line) → Tests w (empty_builder lines)
  unfolding empty_builder get
  empty_builder-Tests lines = record {
    equal = λ code k e. cc e;
    within = λ r l a e big small. cc e;
    some_edge = λ outputs m e. cc e;
    some_state = λ outputs m e. cc e;
  }
