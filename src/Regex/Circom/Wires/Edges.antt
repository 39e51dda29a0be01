-- ===== src/Regex/Circom/Wires/Edges.antt =====
-- What the components of one edge, and the update of one state, come to on the wires.
use zk_pse.Base.{
  ℕ, suc, Bool, false, ◌&&◌, List, [], ◌∷◌, ◌++◌, map, Option, none, some, length, ◌≡◌, refl, sym,
  ap, ap₂, ◌∙◌, ⊎_elim,
}
use zk_pse.Std.Ord.{nat_ord, bytes_ord}
use zk_pse.Std.Map.{get, get-insert_cases}
use zk_pse.Std.Text.{Text}
use zk_pse.Regex.Circom.Lines.{Gate, StateVar, Line}
use zk_pse.Regex.Circom.Gates.{
  Builder, multi_or_inputs, multi_or_lines, push_transition, new_multi_or_transition,
  add_state_transition, and_outputs, add_multi_or_gate, push_update, new_multi_or_update,
  update_var,
}
use zk_pse.Regex.Circom.Wires.{Position, Wiring, Holds, Satisfies, any_on, out, values_from}
use zk_pse.Regex.Circom.Wires.Checks.{All-append, Tests, Keeps, or_false}

out-and_outputs :
    (p : Position) (ands : List ℕ) → map (out p) (and_outputs ands) ≡ map p.and_out ands
out-and_outputs p [] = refl
out-and_outputs p (a ∷ ands) = ap (◌∷◌ (p.and_out a)) (out-and_outputs p ands)

module _ (w : Wiring) where
  multi_or_inputs-values :
      (m j : ℕ) (outputs : List (Gate × ℕ))
      → Satisfies w.h w.p (multi_or_inputs m j outputs)
      → values_from (w.p.multi_or_in m) j (length outputs) ≡ map (out w.p) outputs
  unfolding multi_or_inputs values_from
  multi_or_inputs-values m j [] s = refl
  multi_or_inputs-values m j ((gate, k) ∷ outputs) (e, s) =
      ap₂ ◌∷◌ e (multi_or_inputs-values m (suc j) outputs s)

  multi_or_lines-out :
      (m : ℕ) (outputs : List (Gate × ℕ))
      → Satisfies w.h w.p (multi_or_lines m outputs)
      → w.p.multi_or_out m ≡ any_on (map (out w.p) outputs)
  unfolding multi_or_lines
  multi_or_lines-out m outputs (e, s) =
      e
      ∙ w.h.multi_or_lem (values_from (w.p.multi_or_in m) 0 (length outputs))
      ∙ ap any_on (multi_or_inputs-values m 0 outputs s)

  -- the component of an edge from `prev_i`, when `b` of it is `q`
  and-out :
      (k prev_i : ℕ) (q : Bool)
      → w.p.and_out k ≡ w.h.and (w.p.and_a k) (w.p.and_b k)
      → w.p.and_a k ≡ w.p.state prev_i
      → w.p.and_b k ≡ q
      → w.p.and_out k ≡ (w.p.state prev_i && q)
  and-out k prev_i q e a b = e ∙ ap₂ w.h.and a b ∙ w.h.and_lem (w.p.state prev_i) q

  -- Lines that set `b`, when they come to `q` and record nothing.
  push_transition-Tests :
      (i prev_i : ℕ) (right : List Line) (b : Builder) (q : Bool)
      → (Tests w b → Satisfies w.h w.p right → w.p.and_b b.and_i ≡ q)
      → Keeps w b (push_transition i prev_i right b) (w.p.and_out b.and_i ≡ (w.p.state prev_i && q))
  unfolding push_transition
  push_transition-Tests i prev_i right b q f s =
      let (before, (e, (a, r))) =
        All-append (Holds w.h w.p) b.lines
          (Line.and_component b.and_i ∷ Line.and_a_state b.and_i prev_i ∷ right) s in
      (
        before,
        λ t. (
          record {
            equal = t.equal;
            within = t.within;
            some_edge = t.some_edge;
            some_state = t.some_state;
          },
          and-out b.and_i prev_i q e a (f t r),
        ),
      )

  new_multi_or_transition-Tests :
      (i prev_i : ℕ) (outputs : List (Gate × ℕ)) (b : Builder)
      → Keeps w b
          (new_multi_or_transition w.edge_json i prev_i outputs b)
          (w.p.and_out b.and_i ≡ (w.p.state prev_i && any_on (map (out w.p) outputs)))
  unfolding new_multi_or_transition push_transition
  new_multi_or_transition-Tests i prev_i outputs b s =
      let (before, (e, (a, r))) =
        All-append (Holds w.h w.p) b.lines
          (Line.and_component b.and_i
            ∷ Line.and_a_state b.and_i prev_i
            ∷ (multi_or_lines b.multi_or_i outputs
                ++ Line.and_b_multi_or b.and_i b.multi_or_i ∷ []))
          s in
      let (ors, (last, _)) =
        All-append (Holds w.h w.p) (multi_or_lines b.multi_or_i outputs)
          (Line.and_b_multi_or b.and_i b.multi_or_i ∷ []) r in
      let on = multi_or_lines-out b.multi_or_i outputs ors in
      (
        before,
        λ t. (
          record {
            equal = t.equal;
            within = t.within;
            some_edge = λ xs m g.
                ⊎_elim
                  (λ u.
                    ap w.p.multi_or_out (sym u.1)
                    ∙ on
                    ∙ ap (λ z. any_on (map (out w.p) z)) (sym (w.edge_json_inj xs outputs u.0)))
                  (t.some_edge xs m)
                  (get-insert_cases {K = Text} (w.edge_json xs) (w.edge_json outputs) b.multi_or_i m
                    b.multi_or_checks1 g);
            some_state = t.some_state;
          },
          and-out b.and_i prev_i (any_on (map (out w.p) outputs)) e a (last ∙ on),
        ),
      )

  -- an edge with at least one test
  pub add_state_transition-Tests :
      (i prev_i : ℕ) (outputs : List (Gate × ℕ)) (b : Builder)
      → ¬ (outputs ≡ [])
      → Keeps w b
          (add_state_transition w.edge_json i prev_i outputs b)
          (w.p.and_out b.and_i ≡ (w.p.state prev_i && any_on (map (out w.p) outputs)))
  unfolding add_state_transition
  add_state_transition-Tests i prev_i [] b n s = absurd (n refl)
  add_state_transition-Tests i prev_i ((gate, k) ∷ []) b n s =
      push_transition-Tests i prev_i (Line.and_b_gate b.and_i gate k ∷ []) b
        (any_on (out w.p (gate, k) ∷ [])) (λ t (e, _). e ∙ or_false (out w.p (gate, k))) s
  add_state_transition-Tests i prev_i (first ∷ second ∷ others) b n s =
      go (get (w.edge_json (first ∷ second ∷ others)) b.multi_or_checks1) refl s
    where
      go :
          (o : Option ℕ)
          → get (w.edge_json (first ∷ second ∷ others)) b.multi_or_checks1 ≡ o
          → Keeps w b
              (elim o as (λ x. Builder) [
                | some m ↦ push_transition i prev_i (Line.and_b_multi_or b.and_i m ∷ []) b
                | none ↦ new_multi_or_transition w.edge_json i prev_i (first ∷ second ∷ others) b
              ])
              (w.p.and_out b.and_i
                ≡ (w.p.state prev_i && any_on (map (out w.p) (first ∷ second ∷ others))))
      go (some m) e s' =
          push_transition-Tests i prev_i (Line.and_b_multi_or b.and_i m ∷ []) b
            (any_on (map (out w.p) (first ∷ second ∷ others)))
            (λ t (r, _). r ∙ t.some_edge (first ∷ second ∷ others) m e) s'
      go none e s' = new_multi_or_transition-Tests i prev_i (first ∷ second ∷ others) b s'

  push_update-Tests :
      (var : StateVar) (i : ℕ) (line : Line) (b : Builder) (q : Bool)
      → (Tests w b → Holds w.h w.p line → w.p.next var i ≡ q)
      → Keeps w b (push_update (line ∷ []) b) (w.p.next var i ≡ q)
  unfolding push_update
  push_update-Tests var i line b q f s =
      let (before, (e, _)) = All-append (Holds w.h w.p) b.lines (line ∷ []) s in
      (
        before,
        λ t. (
          record {
            equal = t.equal;
            within = t.within;
            some_edge = t.some_edge;
            some_state = t.some_state;
          },
          f t e,
        ),
      )

  new_multi_or_update-Tests :
      (i : ℕ) (outputs : List ℕ) (var : StateVar) (b : Builder)
      → Keeps w b
          (new_multi_or_update w.state_json i outputs var b)
          (w.p.next var i ≡ any_on (map w.p.and_out outputs))
  unfolding new_multi_or_update push_update add_multi_or_gate
  new_multi_or_update-Tests i outputs var b s =
      let (before, new) =
        All-append (Holds w.h w.p) b.lines
          (multi_or_lines b.multi_or_i (and_outputs outputs)
            ++ Line.state_by_multi_or var i b.multi_or_i ∷ [])
          s in
      let (ors, (last, _)) =
        All-append (Holds w.h w.p) (multi_or_lines b.multi_or_i (and_outputs outputs))
          (Line.state_by_multi_or var i b.multi_or_i ∷ []) new in
      let on =
        multi_or_lines-out b.multi_or_i (and_outputs outputs) ors
        ∙ ap any_on (out-and_outputs w.p outputs) in
      (
        before,
        λ t. (
          record {
            equal = t.equal;
            within = t.within;
            some_edge = t.some_edge;
            some_state = λ xs m g.
                ⊎_elim
                  (λ u.
                    ap w.p.multi_or_out (sym u.1)
                    ∙ on
                    ∙ ap (λ z. any_on (map w.p.and_out z)) (sym (w.state_json_inj xs outputs u.0)))
                  (t.some_state xs m)
                  (get-insert_cases {K = Text} (w.state_json xs) (w.state_json outputs) b.multi_or_i
                    m b.multi_or_checks2 g);
          },
          last ∙ on,
        ),
      )

  pub update_var-Tests :
      (i : ℕ) (outputs : List ℕ) (var : StateVar) (b : Builder)
      → Keeps w b
          (update_var w.state_json i outputs var b)
          (w.p.next var i ≡ any_on (map w.p.and_out outputs))
  unfolding update_var
  update_var-Tests i [] var b s =
      push_update-Tests var i (Line.state_off var i) b false (λ t e. e) s
  update_var-Tests i (first ∷ []) var b s =
      push_update-Tests var i (Line.state_by_and var i first) b (any_on (w.p.and_out first ∷ []))
        (λ t e. e ∙ or_false (w.p.and_out first)) s
  update_var-Tests i (first ∷ second ∷ others) var b s =
      go (get (w.state_json (first ∷ second ∷ others)) b.multi_or_checks2) refl s
    where
      go :
          (o : Option ℕ)
          → get (w.state_json (first ∷ second ∷ others)) b.multi_or_checks2 ≡ o
          → Keeps w b
              (elim o as (λ x. Builder) [
                | some m ↦ push_update (Line.state_by_multi_or var i m ∷ []) b
                | none ↦ new_multi_or_update w.state_json i (first ∷ second ∷ others) var b
              ])
              (w.p.next var i ≡ any_on (map w.p.and_out (first ∷ second ∷ others)))
      go (some m) e s' =
          push_update-Tests var i (Line.state_by_multi_or var i m) b
            (any_on (map w.p.and_out (first ∷ second ∷ others)))
            (λ t r. r ∙ t.some_state (first ∷ second ∷ others) m e) s'
      go none e s' = new_multi_or_update-Tests i (first ∷ second ∷ others) var b s'
