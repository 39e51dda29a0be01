-- ===== src/Regex/Circom/Wires/Next.antt =====
-- The circuit of one position as a whole: each state's next value, from the edges to it.
use zk_pse.Base.{
  ℕ, zero, suc, ◌+◌, ◌-◌, ◌<◌, ◌≤◌, ◌==◌, Bool, true, false, not, ◌&&◌, ◌||◌, if◌then◌else◌, List,
  [], ◌∷◌, ◌++◌, map, some, ◌≡◌, refl, sym, ap, ap₂, ◌∙◌, arith, All, subst, eq_of_some,
}
use zk_pse.Std.Ord.{nat_ord, pair_ord, bytes_ord, same, same_iff}
use zk_pse.Std.Map.{Map, get, contains}
use zk_pse.Regex.Circom.Lines.{StateVar, Line}
use zk_pse.Regex.Circom.Gates.{state_var_of}
use zk_pse.Regex.Circom.Transition.{
  RevGraph, add_states, edges_to, generate_state_transition_logic, loop_start, empty_builder,
  count_up, add_from_zero_enabled, add_zero_starting_state_updates, add_state_changed_updates,
}
use zk_pse.Regex.Circom.Wires.{Wiring, Holds, Satisfies, any_on}
use zk_pse.Regex.Circom.Wires.Checks.{or_false}
use zk_pse.Regex.Circom.Wires.Marks.{from_state_0}
use zk_pse.Regex.Circom.Lines.{Line}
use zk_pse.Regex.Circom.Transition.{next_var}
use zk_pse.Regex.Circom.Wires.Checks.{All-append}
use zk_pse.Regex.Circom.Wires.Rounds.{IsTested, var_of_edges, taken, taken_later, taken_zero, Noted}
use zk_pse.Regex.Circom.Wires.Marks.{add_states-zero_starting_states}
use zk_pse.Regex.Circom.Wires.Steps.{Follows, add_states-Tests, empty_builder-Tests}

module _ (w : Wiring) where
  -- The update of a state for which components are noted down is among the lines.
  update-Holds :
      (i a : ℕ) (ands : List ℕ) (idxes : Map ℕ (List ℕ))
      → get i idxes ≡ some (a ∷ ands)
      → Satisfies w.h w.p (add_zero_starting_state_updates idxes)
      → Holds w.h w.p (Line.zero_starting_update i (a ∷ ands))
  unfolding get add_zero_starting_state_updates
  update-Holds i a ands [] e s = cc e
  update-Holds i a ands ((k, as') ∷ idxes) e s = one (same i k) refl e (update-Holds i a ands idxes)
    where
      rest :
          (xs : List ℕ)
          → Satisfies w.h w.p (elim xs as (λ x. List Line) [
            | [] ↦ add_zero_starting_state_updates idxes
            | y ∷ ys ↦ Line.zero_starting_update k (y ∷ ys) ∷ add_zero_starting_state_updates idxes
          ])
          → Satisfies w.h w.p (add_zero_starting_state_updates idxes)
      rest [] s' = s'
      rest (y ∷ ys) (_, s') = s'

      this :
          (xs : List ℕ)
          → some xs ≡ some (a ∷ ands)
          → i ≡ k
          → Satisfies w.h w.p (elim xs as (λ x. List Line) [
            | [] ↦ add_zero_starting_state_updates idxes
            | y ∷ ys ↦ Line.zero_starting_update k (y ∷ ys) ∷ add_zero_starting_state_updates idxes
          ])
          → Holds w.h w.p (Line.zero_starting_update i (a ∷ ands))
      this [] e' q s' = cc e'
      this (y ∷ ys) e' q (h, _) =
          subst (λ z. Holds w.h w.p (Line.zero_starting_update i z)) (eq_of_some e')
            (subst (λ z. Holds w.h w.p (Line.zero_starting_update z (y ∷ ys))) (sym q) h)

      one :
          (z : Bool)
          → same i k ≡ z
          → (if z then some as' else get i idxes) ≡ some (a ∷ ands)
          → (get i idxes ≡ some (a ∷ ands)
              → Satisfies w.h w.p (add_zero_starting_state_updates idxes)
              → Holds w.h w.p (Line.zero_starting_update i (a ∷ ands)))
          → Holds w.h w.p (Line.zero_starting_update i (a ∷ ands))
      one true y e' ih = this as' e' ((same_iff i k).0 y) s
      one false y e' ih = ih e' (rest as' s)

  -- The inputs of the line for `from_zero_enabled`.
  inputs-later :
      (zs : List ℕ) (f : ℕ → Bool) (n j : ℕ)
      → ((k : ℕ) → j ≤ k → k < j + n → w.p.next (state_var_of k zs) k ≡ f k)
      → any_on (map (λ v. w.p.next v.0 v.1) (map (next_var zs) (count_up n j)))
        ≡ any_on (map f (count_up n j))
  unfolding count_up
  inputs-later zs f zero j h = refl
  inputs-later zs f (suc n) j h =
      ap₂ ◌||◌ (h j (omega arith) (omega arith))
        (inputs-later zs f n (suc j) (λ k le lt. h k (omega arith) (omega arith)))

  any_on-and :
      (z : Bool) (ands : List ℕ)
      → any_on (map (λ a. z && w.p.and_out a) ands) ≡ (z && any_on (map w.p.and_out ands))
  any_on-and true ands = refl
  any_on-and false [] = refl
  any_on-and false (a ∷ ands) = any_on-and false ands

  no_taken_zero : (from : Map ℕ (List ℕ)) → from_state_0 from ≡ false → taken_zero w from ≡ false
  no_taken_zero [] e = refl
  no_taken_zero (edge ∷ from) e =
      ap₂ ◌||◌ (ap (λ z. z && taken w edge) (left (edge.0 == 0) e))
        (no_taken_zero from (right (edge.0 == 0) e))
    where
      left : (a : Bool) → (a || from_state_0 from) ≡ false → a ≡ false
      left true e' = e'
      left false e' = refl

      right : (a : Bool) → (a || from_state_0 from) ≡ false → from_state_0 from ≡ false
      right true e' = cc e'
      right false e' = e'

  -- Whether some state from 1 on is reached by an edge from a state other than 0.
  abbrev pub some_later : RevGraph → ℕ → Bool
  some_later rev_graph state_len =
      any_on (map (λ k. taken_later w (edges_to k rev_graph)) (count_up (state_len - 1) 1))

  -- one state, from what holds of its variable, of `from_zero_enabled` and of its update
  next_state :
      (i : ℕ) (from : Map ℕ (List ℕ)) (idxes : Map ℕ (List ℕ)) (z : Bool)
      → w.p.next (var_of_edges from) i ≡ taken_later w from
      → Noted w i idxes (taken_zero w from) (from_state_0 from)
      → w.p.from_zero ≡ z
      → Satisfies w.h w.p (add_zero_starting_state_updates idxes)
      → w.p.next StateVar.states i ≡ (taken_later w from || (z && taken_zero w from))
  next_state i from idxes z later (ands, e, zero_on, some_if) fz updates =
      one (from_state_0 from) refl ands e zero_on some_if later
    where
      one :
          (y : Bool)
          → from_state_0 from ≡ y
          → (ands : List ℕ) → get i idxes ≡ some ands
          → any_on (map w.p.and_out ands) ≡ taken_zero w from
          → (ands ≡ [] → from_state_0 from ≡ false)
          → w.p.next (if from_state_0 from then StateVar.states_tmp else StateVar.states) i
            ≡ taken_later w from
          → w.p.next StateVar.states i ≡ (taken_later w from || (z && taken_zero w from))
      one true y [] e' on if_none l = cc (sym y ∙ if_none refl)
      one true y (a ∷ as') e' on if_none l =
          update-Holds i a as' idxes e' updates
          ∙ w.h.multi_or_lem (
              w.p.next StateVar.states_tmp i
              ∷ map (λ a'. w.p.from_zero && w.p.and_out a') (a ∷ as'))
          ∙ ap₂ ◌||◌
              (ap (λ q. w.p.next (if q then StateVar.states_tmp else StateVar.states) i) (sym y)
                ∙ l)
              (any_on-and w.p.from_zero (a ∷ as') ∙ ap₂ ◌&&◌ fz on)
      one false y as' e' on if_none l =
          ap (λ q. w.p.next (if q then StateVar.states_tmp else StateVar.states) i) (sym y)
          ∙ l
          ∙ or_false (taken_later w from)
          ∙ ap (◌||◌ (taken_later w from)) (and_false z ∙ ap (◌&&◌ z) (sym (no_taken_zero from y)))
        where
          and_false : (q : Bool) → false ≡ (q && false)
          and_false true = refl
          and_false false = refl

  -- On any wires that satisfy all the lines that `generate_state_transition_logic` writes for one
  -- position, each state `i` from 1 on is on next exactly when an edge to `i` from a state other
  -- than 0 is taken, or when no such edge to any state from 1 on is taken and one from state 0 to
  -- `i` is. (An edge is taken when its state is on and the byte is one of its bytes and not 0.) The
  -- bytes of each edge are to be below 256, and one of them is to be other than 0.
  pub generate_state_transition_logic-next_states :
      (rev_graph : RevGraph) (state_len : ℕ) (end_anchor : Bool)
      → ((i : ℕ) → 1 ≤ i → i < state_len → All IsTested (edges_to i rev_graph))
      → Satisfies w.h w.p
          (generate_state_transition_logic w.edge_json w.state_json rev_graph state_len
            end_anchor).lines
      → (i : ℕ) → 1 ≤ i
      → i < state_len
      → w.p.next StateVar.states i ≡ (
          taken_later w (edges_to i rev_graph)
          || (not (some_later rev_graph state_len) && taken_zero w (edges_to i rev_graph)))
  unfolding generate_state_transition_logic add_from_zero_enabled
  generate_state_transition_logic-next_states rev_graph state_len end_anchor all s i le lt =
      let start = empty_builder (loop_start state_len end_anchor) in
      let n = state_len - 1 in
      let b = add_states w.edge_json w.state_json rev_graph (count_up n 1) start in
      let fresh : (j : ℕ) → 1 ≤ j → contains j start.zero_starting_states ≡ false =
        λ j _. unfold empty_builder contains in refl in
      let (before, (enabled, others)) =
        All-append (Holds w.h w.p) b.lines
          (add_from_zero_enabled state_len b.zero_starting_states
            ∷ (add_zero_starting_state_updates b.zero_starting_and_idxes
                ++ (add_state_changed_updates state_len ++ Line.end_for ∷ [])))
          s in
      let (updates, _) =
        All-append (Holds w.h w.p) (add_zero_starting_state_updates b.zero_starting_and_idxes)
          (add_state_changed_updates state_len ++ Line.end_for ∷ []) others in
      let (_, k) =
        add_states-Tests w rev_graph n 1 start fresh (λ j p q. all j p (omega arith)) before in
      let follows : (j : ℕ) → 1 ≤ j → j < 1 + n → Follows w rev_graph j b.zero_starting_and_idxes =
        (k (empty_builder-Tests w (loop_start state_len end_anchor))).1 in
      let later : any_on
            (map (λ v. w.p.next v.0 v.1) (map (next_var b.zero_starting_states) (count_up n 1)))
          ≡ some_later rev_graph state_len =
        inputs-later b.zero_starting_states (λ j. taken_later w (edges_to j rev_graph)) n 1
          (λ j p q.
            ap (λ z. w.p.next (if z then StateVar.states_tmp else StateVar.states) j)
              (add_states-zero_starting_states w.edge_json w.state_json j rev_graph n 1 start p q
                (fresh j p))
            ∙ (follows j p q).0) in
      let (var, noted) = follows i le (omega arith) in
      next_state i (edges_to i rev_graph) b.zero_starting_and_idxes
        (not (some_later rev_graph state_len)) var noted (enabled ∙ ap not later) updates
