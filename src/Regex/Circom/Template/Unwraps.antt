-- ===== src/Regex/Circom/Template/Unwraps.antt =====
-- The `unwrap`s in the loop over the states (compiler/src/circom.rs) never meet a missing key: each
-- round puts its state in the map before it notes components down for it.
use zk_pse.Base.{
  ℕ, ◌==◌, Bool, true, false, ◌||◌, if◌then◌else◌, List, [], ◌∷◌, ◌++◌, Option, none, some, ◌≡◌,
  refl, sym, ap, ap₂, ◌∙◌, subst, ◌-◌,
}
use zk_pse.Std.Ord.{nat_ord, pair_ord, bytes_ord, same_iff}
use zk_pse.Std.Map.{Map, get, insert, get-insert}
use zk_pse.Std.Text.{Text}
use zk_pse.Regex.Circom.Lines.{Gate, Line}
use zk_pse.Regex.Circom.Gates.{
  Builder, push_and, push_transition, new_multi_or_transition, add_state_transition,
  add_state_update, state_var_of,
}
use zk_pse.Regex.Circom.Transition.{
  RevGraph, add_checks, mark_zero_starting, add_edge, add_edges, add_state, add_states, count_up,
  edges_to, loop_start, empty_builder, generate_state_transition_logic,
}
use zk_pse.Regex.Circom.Wires.Marks.{add_checks-marks, update_var-marks}

-- No panic so far, and `i` is a key of the map, as the pair of the map and the flag.
Ready : ℕ → Map ℕ (List ℕ) × Bool → Type 0
Ready i (m, panicked) = (panicked ≡ false) × (ands : List ℕ) × (get i m ≡ some ands)

abbrev noted : Builder → Map ℕ (List ℕ) × Bool
noted b = (b.zero_starting_and_idxes, b.panicked)

push_and-Ready :
    (i a : ℕ) (m : Map ℕ (List ℕ)) (ands : List ℕ) → get i m ≡ some ands → Ready i (push_and i a m)
unfolding Ready push_and
push_and-Ready i a m ands e = go (get i m) e
  where
    go :
        (o : Option (List ℕ))
        → o ≡ some ands
        → Ready i (elim o as (λ x. Map ℕ (List ℕ) × Bool) [
          | none ↦ (m, true)
          | some as' ↦ (insert i (as' ++ a ∷ []) m, false)
        ])
    go none q = cc q
    go (some as') q = (
      refl,
      as' ++ a ∷ [],
      get-insert i i (as' ++ a ∷ []) m
          ∙ ap (λ z. if z then some (as' ++ a ∷ []) else get i m) ((same_iff i i).1 refl),
    )

push_transition-Ready :
    (i prev_i : ℕ) (right : List Line) (b : Builder)
    → Ready i (noted b)
    → Ready i (noted (push_transition i prev_i right b))
unfolding Ready push_transition
push_transition-Ready i prev_i right b (calm, ands, e) = go (prev_i == 0)
  where
    both : (x y : Bool) → x ≡ false → y ≡ false → (x || y) ≡ false
    both x y p q = ap₂ ◌||◌ p q

    go :
        (z : Bool)
        → Ready i (
          (if z
              then push_and i b.and_i b.zero_starting_and_idxes
              else (b.zero_starting_and_idxes, false)).0,
          b.panicked
              || (if z
                  then push_and i b.and_i b.zero_starting_and_idxes
                  else (b.zero_starting_and_idxes, false)).1,
        )
    go true =
        let (quiet, as', e') = push_and-Ready i b.and_i b.zero_starting_and_idxes ands e in
        (both b.panicked (push_and i b.and_i b.zero_starting_and_idxes).1 calm quiet, as', e')
    go false = (both b.panicked false calm refl, ands, e)

module _ (edge_json : List (Gate × ℕ) → Text) (state_json : List ℕ → Text) where
  add_state_transition-Ready :
      (i prev_i : ℕ) (outputs : List (Gate × ℕ)) (b : Builder)
      → Ready i (noted b)
      → Ready i (noted (add_state_transition edge_json i prev_i outputs b))
  unfolding add_state_transition new_multi_or_transition
  add_state_transition-Ready i prev_i [] b h = h
  add_state_transition-Ready i prev_i ((gate, k) ∷ []) b h =
      push_transition-Ready i prev_i (Line.and_b_gate b.and_i gate k ∷ []) b h
  add_state_transition-Ready i prev_i (first ∷ second ∷ others) b h =
      go (get (edge_json (first ∷ second ∷ others)) b.multi_or_checks1)
    where
      go :
          (o : Option ℕ)
          → Ready i (
              noted (elim o as (λ x. Builder) [
                | some m ↦ push_transition i prev_i (Line.and_b_multi_or b.and_i m ∷ []) b
                | none ↦ new_multi_or_transition edge_json i prev_i (first ∷ second ∷ others) b
              ]))
      go none = push_transition-Ready i prev_i _ b h
      go (some m) = push_transition-Ready i prev_i _ b h

  mark_zero_starting-noted :
      (i prev_i : ℕ) (b : Builder) → noted (mark_zero_starting i prev_i b) ≡ noted b
  unfolding mark_zero_starting
  mark_zero_starting-noted i prev_i b = go (prev_i == 0)
    where
      go :
          (z : Bool)
          → noted (
              if z then record b { zero_starting_states = b.zero_starting_states ++ i ∷ [] } else b)
            ≡ noted b
      go true = refl
      go false = refl

  add_edges-Ready :
      (i : ℕ) (from : Map ℕ (List ℕ)) (s : Builder × List ℕ)
      → Ready i (noted s.0)
      → Ready i (noted (add_edges edge_json state_json i from s).0)
  unfolding add_edges add_edge
  add_edges-Ready i [] s h = h
  add_edges-Ready i ((prev_i, chars) ∷ from) (b, outputs) h =
      let marked = mark_zero_starting i prev_i b in
      let (tested, eq_outputs) = add_checks chars marked in
      let same_notes : noted tested ≡ noted b =
        ap (λ z. (z.0.1, z.1)) (add_checks-marks chars marked)
        ∙ mark_zero_starting-noted i prev_i b in
      add_edges-Ready i from (add_edge edge_json state_json i prev_i chars (b, outputs))
        (add_state_transition-Ready i prev_i eq_outputs tested (subst (Ready i) (sym same_notes) h))

  add_state-calm :
      (rev_graph : RevGraph) (i : ℕ) (b : Builder)
      → b.panicked ≡ false
      → (add_state edge_json state_json rev_graph i b).panicked ≡ false
  unfolding add_state add_state_update Ready
  add_state-calm rev_graph i b calm =
      let before = record b { zero_starting_and_idxes = insert i [] b.zero_starting_and_idxes } in
      let (b', outputs) = add_edges edge_json state_json i (edges_to i rev_graph) (before, []) in
      let key : get i (insert i [] b.zero_starting_and_idxes) ≡ some [] =
        get-insert i i [] b.zero_starting_and_idxes
        ∙ ap (λ z. if z then some [] else get i b.zero_starting_and_idxes)
            ((same_iff i i).1 refl) in
      let (quiet, _, _) = add_edges-Ready i (edges_to i rev_graph) (before, []) (calm, [], key) in
      ap (λ z. z.1)
        (update_var-marks edge_json state_json i outputs (state_var_of i b'.zero_starting_states)
          b')
      ∙ quiet

  add_states-calm :
      (rev_graph : RevGraph) (is : List ℕ) (b : Builder)
      → b.panicked ≡ false
      → (add_states edge_json state_json rev_graph is b).panicked ≡ false
  unfolding add_states
  add_states-calm rev_graph [] b calm = calm
  add_states-calm rev_graph (i ∷ is) b calm =
      add_states-calm rev_graph is (add_state edge_json state_json rev_graph i b)
        (add_state-calm rev_graph i b calm)

  pub generate_state_transition_logic-calm :
      (rev_graph : RevGraph) (state_len : ℕ) (end_anchor : Bool)
      → (generate_state_transition_logic edge_json state_json rev_graph state_len
          end_anchor).panicked
        ≡ false
  unfolding generate_state_transition_logic empty_builder
  generate_state_transition_logic-calm rev_graph state_len end_anchor =
      add_states-calm rev_graph (count_up (state_len - 1) 1)
        (empty_builder (loop_start state_len end_anchor)) refl
