-- ===== src/Regex/Circom/Template/Total.antt =====
-- When the circuit is written, and when the automaton is refused.
use zk_pse.Base.{
  ℕ, Bool, if◌then◌else◌, true, false, List, [], ◌∷◌, ◌++◌, length, get_elem?, Option, none, some,
  ◌⊎◌, inl, inr, ◌≡◌, refl, sym, ap, ◌∙◌, All, arith,
}
use zk_pse.Std.Ord.{nat_ord, same_iff}
use zk_pse.Std.Map.{contains}
use zk_pse.Std.Text.{Text, bytes}
use zk_pse.Regex.Structs.{RegexAndDfa, Result, ok, err, ◌>>=◌, accept_nodes_error}
use zk_pse.Regex.Circom.Lines.{Gate}
use zk_pse.Regex.Circom.Transition.{RevGraph, build_reverse_graph, generate_state_transition_logic}
use zk_pse.Regex.Circom.Template.Unwraps.{generate_state_transition_logic-calm}
use zk_pse.Regex.Circom.Reverse.{build_reverse_graph-transposes}
use zk_pse.Regex.Circom.Reverse.Nodes.{LeadsBelow, accepts_at}
use zk_pse.Regex.Circom.Reveal.{add_substrs_constraints}
use zk_pse.Regex.Circom.Template.{
  generate_accept_logic, circuit_text, gen_circom_allstr, gen_circom_string,
}

unless_panicked :
    {A : Type 0} (z : Bool) (x : A) → z ≡ false → (if z then none else some x) ≡ some x
unless_panicked true x e = cc e
unless_panicked false x e = refl

circuit_text-returns :
    (edge_json : List (Gate × ℕ) → Text) (state_json : List ℕ → Text) (state_len : ℕ)
    (template_name regex_str : Text) (end_anchor : Bool) (g : RevGraph) (a : ℕ) (as' : List ℕ)
    → (text : Text) × (circuit_text edge_json state_json state_len template_name regex_str
          end_anchor
          (g, a ∷ as')
        ≡ some (ok text))
unfolding circuit_text generate_accept_logic
circuit_text-returns edge_json state_json state_len template_name regex_str end_anchor g a as' = (
  _,
  unless_panicked
      (generate_state_transition_logic edge_json state_json g state_len end_anchor).panicked _
      (generate_state_transition_logic-calm edge_json state_json g state_len end_anchor),
)

-- For an automaton whose edges lead to places of nodes, `gen_circom_string` never panics: no edge is looked up at a
-- place that is not there, and no `unwrap` in the loop over the states meets a missing key. It
-- returns the error for missing accepting nodes when no node accepts, and otherwise the text of a circuit.
pub gen_circom_string-cases :
    (edge_json : List (Gate × ℕ) → Text) (state_json : List ℕ → Text) (r : RegexAndDfa)
    (template_name : Text)
    → All (LeadsBelow (length r.dfa.states)) r.dfa.states
    → ((gen_circom_string edge_json state_json r template_name
          ≡ some (err (accept_nodes_error (bytes "Accept node must exist"))))
        × ((q : ℕ) → accepts_at (get_elem? r.dfa.states q) ≡ false))
      ⊎ ((text : Text) × (gen_circom_string edge_json state_json r template_name ≡ some (ok text))
          × (q : ℕ) × (accepts_at (get_elem? r.dfa.states q) ≡ true))
unfolding gen_circom_string gen_circom_allstr
gen_circom_string-cases edge_json state_json r template_name all =
    elim (build_reverse_graph-transposes r.dfa all) [
      | inl (e, no_node) ↦ inl (ap finish e, no_node)
      | inr (g, acc, e, _, accept, some_node) ↦ inr (written g acc e accept some_node)
    ]
  where
    finish : Option (Result (RevGraph × List ℕ)) → Option (Result Text)
    finish o =
        elim (elim o as (λ x. Option (Result Text)) [
          | none ↦ none
          | some (err e) ↦ some (err e)
          | some (ok x) ↦
              circuit_text edge_json state_json (length r.dfa.states) template_name r.regex_pattern
                r.has_end_anchor x
        ]) [
          | none ↦ none
          | some x ↦ some (x >>= λ circom. ok (circom ++ add_substrs_constraints r))
        ]

    add : Option (Result Text) → Option (Result Text)
    add o = elim o [
      | none ↦ none
      | some x ↦ some (x >>= λ circom. ok (circom ++ add_substrs_constraints r))
    ]

    written :
        (g : RevGraph) (acc : List ℕ)
        → build_reverse_graph (length r.dfa.states) r.dfa ≡ some (ok (g, acc))
        → ((q : ℕ) → contains q acc ≡ accepts_at (get_elem? r.dfa.states q))
        → ¬ (acc ≡ [])
        → (text : Text) × (finish (build_reverse_graph (length r.dfa.states) r.dfa)
            ≡ some (ok text))
          × (q : ℕ) × (accepts_at (get_elem? r.dfa.states q) ≡ true)
    written g [] e accept some_node = absurd (some_node refl)
    written g (a ∷ as') e accept some_node =
        let (text, made) =
          circuit_text-returns edge_json state_json (length r.dfa.states) template_name
            r.regex_pattern r.has_end_anchor g a as' in
        (
          _,
          ap finish e ∙ ap add made,
          a,
          sym (accept a) ∙ unfold contains in ground (arith, same_iff a a),
        )
