-- ===== src/Regex/Circom/Reverse.antt =====
-- The reverse graph (compiler/src/circom.rs) against the automaton: its transpose.
pub mod Nodes
use zk_pse.Base.{
  ℕ, zero, suc, ◌+◌, ◌<◌, ◌≤◌, Bool, true, false, ◌&&◌, ◌||◌, if◌then◌else◌, List, [], ◌∷◌, length,
  get_elem?, Option, none, some, ◌≡◌, ◌≢◌, refl, sym, ap, ap₂, ◌∙◌, arith, Bool-cases, ◌⊎◌, inl,
  inr, All,
}
use zk_pse.Std.Ord.{nat_ord, same, same_iff}
use zk_pse.Std.Map.{Map, Set, get, insert, contains, get-insert, add, contains-add}
use zk_pse.Std.Text.{bytes}
use zk_pse.Regex.Structs.{DfaStateNode, DfaGraph, Result, ok, err, accept_nodes_error}
use zk_pse.Regex.Graph.{is_accept}
use zk_pse.Regex.Circom.Transition.{
  RevGraph, edges_to, empty_nodes, add_reversed, add_nodes, build_reverse_graph,
}
use zk_pse.Regex.Circom.Reverse.Nodes.{
  LeadsBelow, HasNodes, edges_to-insert, edge_of, accepts_at, Reversed, add_nodes-Reversed,
}

empty_nodes-edges_to :
    (n i : ℕ) (g : RevGraph)
    → ((j : ℕ) → edges_to j g ≡ [])
    → (j : ℕ) → edges_to j (empty_nodes n i g) ≡ []
unfolding empty_nodes
empty_nodes-edges_to zero i g e j = e j
empty_nodes-edges_to (suc n) i g e j =
    empty_nodes-edges_to n (suc i) (insert i [] g)
      (λ k. edges_to-insert k i [] g ∙ one (same k i) (edges_to k g) (e k)) j
  where
    one : (b : Bool) (x : Map ℕ (List ℕ)) → x ≡ [] → (if b then [] else x) ≡ []
    one true x e' = refl
    one false x e' = e'

empty_nodes-HasNodes :
    (n i : ℕ) (g : RevGraph) → HasNodes i g → HasNodes (i + n) (empty_nodes n i g)
unfolding empty_nodes
empty_nodes-HasNodes zero i g h k lt = h k (omega arith)
empty_nodes-HasNodes (suc n) i g h k lt =
    empty_nodes-HasNodes n (suc i) (insert i [] g) more k (omega arith)
  where
    more : HasNodes (suc i) (insert i [] g)
    more j lt' = elim (Bool-cases (same j i)) [
      | inl y ↦ ([], get-insert j i [] g ∙ ap (λ z. if z then some [] else get j g) y)
      | inr other ↦
          let (f, q) = h j (ground (arith, same_iff j i)) in
          (f, get-insert j i [] g ∙ ap (λ z. if z then some [] else get j g) other ∙ q)
    ]

-- For an automaton whose edges lead to places of nodes, `build_reverse_graph` does not panic. Without an
-- accepting node it returns its error. Otherwise it returns the transpose and the accepting
-- places, of which there is one at least: the bytes of the edge from `q` to `j` are those in the node at `q`, and `q` is among the
-- accepting places exactly when the node there accepts.
pub build_reverse_graph-transposes :
    (dfa_graph : DfaGraph)
    → All (LeadsBelow (length dfa_graph.states)) dfa_graph.states
    → ((build_reverse_graph (length dfa_graph.states) dfa_graph
          ≡ some (err (accept_nodes_error (bytes "Accept node must exist"))))
        × ((q : ℕ) → accepts_at (get_elem? dfa_graph.states q) ≡ false))
      ⊎ ((g : RevGraph) × (acc : Set ℕ) × (build_reverse_graph (length dfa_graph.states) dfa_graph
            ≡ some (ok (g, acc)))
          × ((q j : ℕ) → get q (edges_to j g) ≡ edge_of j (get_elem? dfa_graph.states q))
          × ((q : ℕ) → contains q acc ≡ accepts_at (get_elem? dfa_graph.states q))
          × (acc ≢ []))
unfolding build_reverse_graph
build_reverse_graph-transposes dfa_graph all =
    let n = length dfa_graph.states in
    let start = empty_nodes n 0 [] in
    let (g, acc, e, r) =
      add_nodes-Reversed n 0 dfa_graph.states start [] all
        (λ k lt. empty_nodes-HasNodes n 0 [] (λ k' lt'. absurd (omega arith)) k (omega arith))
        (λ q j _.
          ap (get q) (empty_nodes-edges_to n 0 [] (λ j'. unfold get in refl) j)
          ∙ unfold get in refl)
        (λ q _. unfold contains in refl) in
    go g acc e (λ q j. ap (λ z. get z (edges_to j g)) (omega arith) ∙ r.edges q j)
      (λ q. ap (λ z. contains z acc) (omega arith) ∙ r.accept q)
  where
    finish : Option (RevGraph × Set ℕ) → Option (Result (RevGraph × Set ℕ))
    finish o = elim o [
      | none ↦ none
      | some (rev_graph, accept_nodes) ↦ elim accept_nodes [
        | [] ↦ some (err (accept_nodes_error (bytes "Accept node must exist")))
        | n ∷ ns ↦ some (ok (rev_graph, n ∷ ns))
      ]
    ]

    go :
        (g : RevGraph) (acc : Set ℕ)
        → add_nodes 0 dfa_graph.states (empty_nodes (length dfa_graph.states) 0 [], [])
          ≡ some (g, acc)
        → ((q j : ℕ) → get q (edges_to j g) ≡ edge_of j (get_elem? dfa_graph.states q))
        → ((q : ℕ) → contains q acc ≡ accepts_at (get_elem? dfa_graph.states q))
        → ((finish (add_nodes 0 dfa_graph.states (empty_nodes (length dfa_graph.states) 0 [], []))
              ≡ some (err (accept_nodes_error (bytes "Accept node must exist"))))
            × ((q : ℕ) → accepts_at (get_elem? dfa_graph.states q) ≡ false))
          ⊎ ((g' : RevGraph) × (acc' : Set ℕ) × (finish
                  (add_nodes 0 dfa_graph.states (empty_nodes (length dfa_graph.states) 0 [], []))
                ≡ some (ok (g', acc')))
              × ((q j : ℕ) → get q (edges_to j g') ≡ edge_of j (get_elem? dfa_graph.states q))
              × ((q : ℕ) → contains q acc' ≡ accepts_at (get_elem? dfa_graph.states q))
              × (acc' ≢ []))
    go g [] e edges accept = inl (ap finish e, λ q. sym (accept q) ∙ unfold contains in refl)
    go g (a ∷ as') e edges accept = inr (g, a ∷ as', ap finish e, edges, accept, λ u. cc u)
