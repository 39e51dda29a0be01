-- ===== src/Regex/Circom/Wires/Apart.antt =====
-- `zero_starting_and_idxes`: which components are noted down, and that a state's round leaves those of others alone.
use zk_pse.Base.{
  ℕ, zero, suc, ◌<◌, ◌==◌, Bool, true, false, if◌then◌else◌, List, [], ◌∷◌, ◌++◌, Option, none,
  some, ◌≡◌, refl, ap, ◌∙◌, arith,
}
use zk_pse.Std.Ord.{nat_ord, pair_ord, bytes_ord, same, same_iff}
use zk_pse.Std.Map.{Map, get, insert, get-insert}
use zk_pse.Std.Text.{Text}
use zk_pse.Regex.Circom.Lines.{Gate, Line}
use zk_pse.Regex.Circom.Gates.{
  Builder, push_transition, new_multi_or_transition, add_state_transition, add_state_update,
  state_var_of, push_and, push_if_zero,
}
use zk_pse.Regex.Circom.Transition.{
  add_checks, mark_zero_starting, add_edge, add_edges, add_state, add_states, count_up, edges_to,
  RevGraph,
}
use zk_pse.Regex.Circom.Wires.Marks.{add_checks-marks, update_var-marks}

module _ (edge_json : List (Gate × ℕ) → Text) (state_json : List ℕ → Text) where
  -- A component with something to test is noted down for a state with an edge from state 0.
  pub add_state_transition-idxes :
      (i prev_i : ℕ) (outputs : List (Gate × ℕ)) (b : Builder)
      → ¬ (outputs ≡ [])
      → (add_state_transition edge_json i prev_i outputs b).zero_starting_and_idxes
        ≡ (push_if_zero i prev_i b).0
  unfolding add_state_transition push_transition new_multi_or_transition
  add_state_transition-idxes i prev_i [] b n = absurd (n refl)
  add_state_transition-idxes i prev_i (o ∷ []) b n = refl
  add_state_transition-idxes i prev_i (first ∷ second ∷ others) b n =
      one (get (edge_json (first ∷ second ∷ others)) b.multi_or_checks1)
    where
      one :
          (o : Option ℕ)
          → (elim o as (λ x. Builder) [
            | some m ↦ push_transition i prev_i (Line.and_b_multi_or b.and_i m ∷ []) b
            | none ↦ new_multi_or_transition edge_json i prev_i (first ∷ second ∷ others) b
          ]).zero_starting_and_idxes
            ≡ (push_if_zero i prev_i b).0
      one none = refl
      one (some m) = refl

  get-push_and_other :
      (k i a : ℕ) (m : Map ℕ (List ℕ)) → same k i ≡ false → get k (push_and i a m).0 ≡ get k m
  unfolding push_and
  get-push_and_other k i a m apart = one (get i m)
    where
      one :
          (o : Option (List ℕ))
          → get k
              (elim o as (λ x. Map ℕ (List ℕ) × Bool) [
                | none ↦ (m, true)
                | some ands ↦ (insert i (ands ++ a ∷ []) m, false)
              ]).0
            ≡ get k m
      one none = refl
      one (some ands) =
          get-insert k i (ands ++ a ∷ []) m
          ∙ ap (λ z. if z then some (ands ++ a ∷ []) else get k m) apart

  -- What a state's round leaves alone: the components noted down for another state.
  add_state_transition-other :
      (k i prev_i : ℕ) (outputs : List (Gate × ℕ)) (b : Builder)
      → same k i ≡ false
      → get k (add_state_transition edge_json i prev_i outputs b).zero_starting_and_idxes
        ≡ get k b.zero_starting_and_idxes
  unfolding add_state_transition
  add_state_transition-other k i prev_i [] b apart = refl
  add_state_transition-other k i prev_i (o ∷ outputs) b apart =
      ap (get k) (add_state_transition-idxes i prev_i (o ∷ outputs) b (λ e. cc e))
      ∙ one (prev_i == 0)
    where
      one :
          (z : Bool)
          → get k
              (if z
                then push_and i b.and_i b.zero_starting_and_idxes
                else (b.zero_starting_and_idxes, false)).0
            ≡ get k b.zero_starting_and_idxes
      one true = get-push_and_other k i b.and_i b.zero_starting_and_idxes apart
      one false = refl

  pub mark_zero_starting-idxes :
      (i prev_i : ℕ) (b : Builder)
      → (mark_zero_starting i prev_i b).zero_starting_and_idxes ≡ b.zero_starting_and_idxes
  unfolding mark_zero_starting
  mark_zero_starting-idxes i prev_i b = one (prev_i == 0)
    where
      one :
          (z : Bool)
          → (if z
              then record b { zero_starting_states = b.zero_starting_states ++ i ∷ [] }
              else b).zero_starting_and_idxes
            ≡ b.zero_starting_and_idxes
      one true = refl
      one false = refl

  add_edges-other :
      (k i : ℕ) (from : Map ℕ (List ℕ)) (s : Builder × List ℕ)
      → same k i ≡ false
      → get k (add_edges edge_json state_json i from s).0.zero_starting_and_idxes
        ≡ get k s.0.zero_starting_and_idxes
  unfolding add_edges add_edge
  add_edges-other k i [] s apart = refl
  add_edges-other k i ((prev_i, chars) ∷ from) (b, outputs) apart =
      let marked = mark_zero_starting i prev_i b in
      let (tested, eq_outputs) = add_checks chars marked in
      add_edges-other k i from (add_edge edge_json state_json i prev_i chars (b, outputs)) apart
      ∙ add_state_transition-other k i prev_i eq_outputs tested apart
      ∙ ap (λ z. get k z.0.1) (add_checks-marks chars marked)
      ∙ ap (get k) (mark_zero_starting-idxes i prev_i b)

  add_state-other :
      (k : ℕ) (rev_graph : RevGraph) (i : ℕ) (b : Builder)
      → same k i ≡ false
      → get k (add_state edge_json state_json rev_graph i b).zero_starting_and_idxes
        ≡ get k b.zero_starting_and_idxes
  unfolding add_state add_state_update
  add_state-other k rev_graph i b apart =
      let before = record b { zero_starting_and_idxes = insert i [] b.zero_starting_and_idxes } in
      let (b', outputs) = add_edges edge_json state_json i (edges_to i rev_graph) (before, []) in
      ap (λ z. get k z.0.1)
        (update_var-marks edge_json state_json i outputs (state_var_of i b'.zero_starting_states)
          b')
      ∙ add_edges-other k i (edges_to i rev_graph) (before, []) apart
      ∙ get-insert k i [] b.zero_starting_and_idxes
      ∙ ap (λ z. if z then some [] else get k b.zero_starting_and_idxes) apart

  pub add_states-other :
      (k : ℕ) (rev_graph : RevGraph) (n j : ℕ) (b : Builder)
      → k < j
      → get k (add_states edge_json state_json rev_graph (count_up n j) b).zero_starting_and_idxes
        ≡ get k b.zero_starting_and_idxes
  unfolding add_states count_up
  add_states-other k rev_graph zero j b lt = refl
  add_states-other k rev_graph (suc n) j b lt =
      add_states-other k rev_graph n (suc j) (add_state edge_json state_json rev_graph j b)
        (omega arith)
      ∙ add_state-other k rev_graph j b (ground (arith, same_iff k j))
