-- ===== src/Regex/Circom/Wires/Rounds.antt =====
-- What the edges to a state come to: the outputs of those from other states than 0, and the
-- components noted down for one from state 0.
use zk_pse.Base.{
  ℕ, ◌-◌, ◌<◌, ◌==◌, Bool, true, false, not, ◌&&◌, ◌||◌, if◌then◌else◌, List, [], ◌∷◌, ◌++◌, map,
  none, some, ◌≡◌, refl, sym, ap, ap₂, ◌∙◌, arith, All, subst,
}
use zk_pse.Std.Ord.{nat_ord, pair_ord, bytes_ord, same_iff}
use zk_pse.Std.Map.{Map, get, insert, get-insert, contains}
use zk_pse.Regex.Circom.Lines.{StateVar}
use zk_pse.Regex.Circom.Gates.{Builder, add_state_transition, push_and}
use zk_pse.Regex.Circom.Transition.{add_checks, mark_zero_starting, add_edge, add_edges}
use zk_pse.Regex.Circom.Wires.{Wiring, any_on}
use zk_pse.Regex.Circom.Wires.Checks.{any_on-concat, Keeps, or_assoc, or_false}
use zk_pse.Regex.Circom.Wires.Edges.{add_state_transition-Tests}
use zk_pse.Regex.Circom.Wires.Marks.{add_state_transition-and_i, from_state_0, add_checks-marks}
use zk_pse.Regex.Circom.Wires.Apart.{add_state_transition-idxes, mark_zero_starting-idxes}
use zk_pse.Regex.Circom.Wires.Bytes.{not_nil, add_checks-Tests, add_checks-nil}

-- The bytes of an edge are bytes, and one of them is not 0.
abbrev pub IsTested : ℕ × List ℕ → Type 0
IsTested (prev_i, chars) =
    ((c : ℕ) → contains c chars ≡ true → c < 256)
    × ((c : ℕ) × ((contains c chars && not (c == 0)) ≡ true))

-- the variable that the update of a state sets, by its edges
abbrev pub var_of_edges : Map ℕ (List ℕ) → StateVar
var_of_edges from = if from_state_0 from then StateVar.states_tmp else StateVar.states

module _ (w : Wiring) where
  -- Whether the edge is taken: its state is on, and the byte is one of its bytes and not 0.
  abbrev pub taken : ℕ × List ℕ → Bool
  taken (prev_i, chars) = w.p.state prev_i && (contains w.p.byte chars && not (w.p.byte == 0))

  -- Whether an edge from a state other than 0 is taken.
  abbrev pub taken_later : Map ℕ (List ℕ) → Bool
  taken_later from = any_on (map (λ e. not (e.0 == 0) && taken e) from)

  -- Whether the edge from state 0 is taken.
  abbrev pub taken_zero : Map ℕ (List ℕ) → Bool
  taken_zero from = any_on (map (λ e. (e.0 == 0) && taken e) from)

  -- The components noted down for `i`: whether one is on is `x`, and there are some if `y`.
  abbrev pub Noted : ℕ → Map ℕ (List ℕ) → Bool → Bool → Type 0
  Noted i m x y =
      (ands : List ℕ) × (get i m ≡ some ands)
      × (any_on (map w.p.and_out ands) ≡ x)
      × (ands ≡ [] → y ≡ false)

  push_if_zero-Noted :
      (i a prev_i : ℕ) (m : Map ℕ (List ℕ)) (x y q : Bool)
      → w.p.and_out a ≡ q
      → Noted i m x y
      → Noted i
          (if prev_i == 0 then push_and i a m else (m, false)).0
          (x || ((prev_i == 0) && q))
          (y || (prev_i == 0))
  unfolding push_and
  push_if_zero-Noted i a prev_i m x y q on (ands, e, all, none_yet) = one (prev_i == 0)
    where
      one :
          (z : Bool) → Noted i (if z then push_and i a m else (m, false)).0 (x || (z && q)) (y || z)
      one true = (
        ands ++ a ∷ [],
        ap
              (λ o.
                get i
                  (elim o as (λ z. Map ℕ (List ℕ) × Bool) [
                    | none ↦ (m, true)
                    | some as' ↦ (insert i (as' ++ a ∷ []) m, false)
                  ]).0)
              e
            ∙ get-insert i i (ands ++ a ∷ []) m
            ∙ ap (λ z. if z then some (ands ++ a ∷ []) else get i m) ((same_iff i i).1 refl),
        any_on-concat w.p.and_out ands a ∙ ap₂ ◌||◌ all on,
        λ f. absurd (not_nil ands a f),
      )
      one false = (ands, e, all ∙ or_false x, λ f. sym (or_false y) ∙ none_yet f)

  mark_zero_starting-Tests :
      (i prev_i : ℕ) (b : Builder) → Keeps w b (mark_zero_starting i prev_i b) Unit
  unfolding mark_zero_starting
  mark_zero_starting-Tests i prev_i b = one (prev_i == 0)
    where
      one :
          (x : Bool)
          → Keeps w b
              (if x
                then record b { zero_starting_states = b.zero_starting_states ++ i ∷ [] }
                else b)
              Unit
      one true s = (
        s,
        λ t. (
          record {
            equal = t.equal;
            within = t.within;
            some_edge = t.some_edge;
            some_state = t.some_state;
          },
          tt,
        ),
      )
      one false s = (s, λ t. (t, tt))

  -- After an edge, `outputs` and the components noted down for `i` have it.
  add_edge-Tests :
      (i prev_i : ℕ) (chars : List ℕ) (b : Builder) (outputs : List ℕ) (x y : Bool)
      → IsTested (prev_i, chars)
      → Keeps w b (add_edge w.edge_json w.state_json i prev_i chars (b, outputs)).0 (
          (any_on
              (map w.p.and_out (add_edge w.edge_json w.state_json i prev_i chars (b, outputs)).1)
            ≡ (any_on (map w.p.and_out outputs) || (not (prev_i == 0) && taken (prev_i, chars))))
          × (Noted i b.zero_starting_and_idxes x y
              → Noted i
                  (add_edge w.edge_json w.state_json i prev_i chars
                    (b, outputs)).0.zero_starting_and_idxes
                  (x || ((prev_i == 0) && taken (prev_i, chars)))
                  (y || (prev_i == 0))))
  unfolding add_edge
  add_edge-Tests i prev_i chars b outputs x y (low, (c, on)) s =
      let marked = mark_zero_starting i prev_i b in
      let (tested, eq_outputs) = add_checks chars marked in
      let after = add_state_transition w.edge_json i prev_i eq_outputs tested in
      let some_test : ¬ (eq_outputs ≡ []) =
        λ e. absurd (cc (sym on ∙ add_checks-nil chars marked e c)) in
      let idxes : after.zero_starting_and_idxes
          ≡ (if prev_i == 0
              then push_and i tested.and_i b.zero_starting_and_idxes
              else (b.zero_starting_and_idxes, false)).0 =
        add_state_transition-idxes w.edge_json w.state_json i prev_i eq_outputs tested some_test
        ∙ ap (λ z. (if prev_i == 0 then push_and i tested.and_i z else (z, false)).0)
            (ap (λ z. z.0.1) (add_checks-marks chars marked)
              ∙ mark_zero_starting-idxes w.edge_json w.state_json i prev_i b) in
      let (s1, k3) = add_state_transition-Tests w i prev_i eq_outputs tested some_test s in
      let (s2, k2) = add_checks-Tests w chars marked low s1 in
      let (s3, k1) = mark_zero_starting-Tests i prev_i b s2 in
      (
        s3,
        λ t.
            let (t1, _) = k1 t in
            let (t2, q) = k2 t1 in
            let (t3, r) = k3 t2 in
            let value : w.p.and_out tested.and_i ≡ taken (prev_i, chars) =
              r ∙ ap (λ z. w.p.state prev_i && z) q in
            (
              t3,
              (
                pick (prev_i == 0) (after.and_i - 1) (
                    ap w.p.and_out (
                      ap (λ z. z - 1)
                        (add_state_transition-and_i w.edge_json w.state_json i prev_i eq_outputs
                          tested).0
                      ∙ ground arith)
                    ∙ value),
                λ noted.
                    subst
                      (λ m.
                        Noted i m (x || ((prev_i == 0) && taken (prev_i, chars)))
                          (y || (prev_i == 0)))
                      (sym idxes)
                      (push_if_zero-Noted i tested.and_i prev_i b.zero_starting_and_idxes x y
                        (taken (prev_i, chars)) value noted),
              ),
            ),
      )
    where
      pick :
          (z : Bool) (k : ℕ)
          → w.p.and_out k ≡ taken (prev_i, chars)
          → any_on (map w.p.and_out (if z then outputs else outputs ++ k ∷ []))
            ≡ (any_on (map w.p.and_out outputs) || (not z && taken (prev_i, chars)))
      pick true k e = or_false (any_on (map w.p.and_out outputs))
      pick false k e =
          any_on-concat w.p.and_out outputs k ∙ ap (◌||◌ (any_on (map w.p.and_out outputs))) e

  pub add_edges-Tests :
      (i : ℕ) (from : Map ℕ (List ℕ)) (b : Builder) (outputs : List ℕ) (x y : Bool)
      → All IsTested from
      → Keeps w b (add_edges w.edge_json w.state_json i from (b, outputs)).0 (
          (any_on (map w.p.and_out (add_edges w.edge_json w.state_json i from (b, outputs)).1)
            ≡ (any_on (map w.p.and_out outputs) || taken_later from))
          × (Noted i b.zero_starting_and_idxes x y
              → Noted i
                  (add_edges w.edge_json w.state_json i from (b, outputs)).0.zero_starting_and_idxes
                  (x || taken_zero from)
                  (y || from_state_0 from)))
  unfolding add_edges
  add_edges-Tests i [] b outputs x y _ s = (
    s,
    λ t. (
      t,
      (
        or_false (any_on (map w.p.and_out outputs)),
        λ noted.
            subst (λ z. Noted i b.zero_starting_and_idxes z (y || false)) (or_false x)
              (subst (λ z. Noted i b.zero_starting_and_idxes x z) (or_false y) noted),
      ),
    ),
  )
  add_edges-Tests i ((prev_i, chars) ∷ from) b outputs x y (tested, all) s =
      let first = add_edge w.edge_json w.state_json i prev_i chars (b, outputs) in
      let last = add_edges w.edge_json w.state_json i from first in
      let here = not (prev_i == 0) && taken (prev_i, chars) in
      let x1 = (prev_i == 0) && taken (prev_i, chars) in
      let (s1, k2) = add_edges-Tests i from first.0 first.1 (x || x1) (y || (prev_i == 0)) all s in
      let (s2, k1) = add_edge-Tests i prev_i chars b outputs x y tested s1 in
      (
        s2,
        λ t.
            let (t1, (q, m1)) = k1 t in
            let (t2, (r, m2)) = k2 t1 in
            (
              t2,
              (
                r
                    ∙ ap (λ z. z || taken_later from) q
                    ∙ sym (or_assoc (any_on (map w.p.and_out outputs)) here (taken_later from)),
                λ noted.
                    subst
                      (λ z.
                        Noted i last.0.zero_starting_and_idxes z
                          (y || ((prev_i == 0) || from_state_0 from)))
                      (sym (or_assoc x x1 (taken_zero from)))
                      (subst
                        (λ z.
                          Noted i last.0.zero_starting_and_idxes ((x || x1) || taken_zero from) z)
                        (sym (or_assoc y (prev_i == 0) (from_state_0 from))) (m2 (m1 noted))),
              ),
            ),
      )
