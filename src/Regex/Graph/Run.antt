-- ===== src/Regex/Graph/Run.antt =====
-- `match_string_with_dfa_graph` (compiler/src/regex.rs) against the paths of the graph.
use zk_pse.Base.{
  zero, suc, subst, if◌then◌else◌, ◌||◌, ℕ, ◌<◌, Bool, true, false, List, [], ◌∷◌, length,
  get_elem?, Option, none, some, ◌≡◌, refl, ap, ◌∙◌, arith, Bool-cases, inl, inr, ◌↔◌, All,
  All-get_elem?, eq_of_some, sym,
}
use zk_pse.Std.Ord.{same, same_iff, nat_ord}
use zk_pse.Std.Text.{Text}
use zk_pse.Std.Map.{Map, Set, get, contains}
use zk_pse.Regex.Structs.{DfaStateNode, DfaGraph}
use zk_pse.Regex.Graph.{is_accept, next_state, match_from, match_string_with_dfa_graph}
use zk_pse.Regex.Graph.Merge.{in_set, leads_to, leads_out, IsDeterministic}

-- There is a path from place i that reads the text and ends in an accepting state.
abbrev pub HasPath : DfaGraph → ℕ → Text → Type 0
HasPath graph i [] =
    (node : DfaStateNode) × (get_elem? graph.states i ≡ some node) × (is_accept node ≡ true)
HasPath graph i (byte ∷ input) =
    (node : DfaStateNode) × (get_elem? graph.states i ≡ some node)
    × ((j : ℕ) × (leads_to byte j node.transitions ≡ true) × HasPath graph j input)

-- Each state's edges are deterministic and lead to places in the graph.
abbrev pub IsWellFormed : DfaGraph → Type 0
IsWellFormed graph =
    All
      (λ node.
        IsDeterministic node.transitions
        × ((b j : ℕ) → leads_to b j node.transitions ≡ true → j < length graph.states))
      graph.states

pub leads_to-cons :
    (b j k : ℕ) (s : Set ℕ) (m : Map ℕ (Set ℕ))
    → leads_to b j ((k, s) ∷ m) ≡ (if same j k then contains b s else leads_to b j m)
unfolding leads_to get
leads_to-cons b j k s m = by_cases (same j k)
  where
    by_cases :
        (x : Bool)
        → in_set b (if x then some s else get j m)
          ≡ (if x then contains b s else in_set b (get j m))
    by_cases true = refl
    by_cases false = refl

leads_to-of_none : (b j : ℕ) (m : Map ℕ (Set ℕ)) → get j m ≡ none → leads_to b j m ≡ false
unfolding leads_to
leads_to-of_none b j m e = ap (in_set b) e

leads_to-leads_out : (b j : ℕ) (m : Map ℕ (Set ℕ)) → leads_to b j m ≡ true → leads_out b m ≡ true
unfolding leads_out
leads_to-leads_out b j [] h = unfold leads_to get in cc
leads_to-leads_out b j ((k, s) ∷ m) h =
    by_cases (same j k) (contains b s) (sym (leads_to-cons b j k s m) ∙ h)
      (leads_to-leads_out b j m)
  where
    by_cases :
        (x c : Bool)
        → (if x then c else leads_to b j m) ≡ true
        → (leads_to b j m ≡ true → leads_out b m ≡ true)
        → (c || leads_out b m) ≡ true
    by_cases true c e ih = ground arith
    by_cases false true e ih = refl
    by_cases false false e ih = ih e

next_state_iff :
    (b j : ℕ) (m : Map ℕ (Set ℕ))
    → IsDeterministic m
    → (next_state b m ≡ some j) ↔ (leads_to b j m ≡ true)
unfolding next_state
next_state_iff b j [] d = (λ h. cc, unfold leads_to get in λ h. cc)
next_state_iff b j ((k, s) ∷ m) d = elim (Bool-cases (contains b s)) [
  | inl here ↦
      rw (here, leads_to-cons b j k s m)
        (
          λ e. rw ((same_iff j k).1 (sym (eq_of_some e))) here,
          λ h. elim (Bool-cases (same j k)) [
            | inl t ↦ ap some (sym ((same_iff j k).0 t))
            | inr t ↦
                let h' : leads_to b j m ≡ true = ground arith in
                let in_rest = leads_to-leads_out b j m h' in let not_in_rest = d.1 b here in cc
          ],
        )
  | inr out ↦
      rw (out, leads_to-cons b j k s m)
        (elim (Bool-cases (same j k)) [
          | inl t ↦ rw t (
            λ e.
                let h = (next_state_iff b j m d.2).0 e in
                let n = leads_to-of_none b j m (ap (λ z. get z m) ((same_iff j k).0 t) ∙ d.0) in cc,
            λ h. cc,
          )
          | inr t ↦ rw t (next_state_iff b j m d.2)
        ])
]

get_elem?-of_lt {ℓ} :
    {A : Type ℓ} (xs : List A) (i : ℕ) → i < length xs → (x : A) × (get_elem? xs i ≡ some x)
get_elem?-of_lt [] i h = absurd (omega arith)
get_elem?-of_lt (x ∷ xs) zero h = (x, refl)
get_elem?-of_lt (x ∷ xs) (suc i) h = get_elem?-of_lt xs i (omega arith)

module _ (graph : DfaGraph) (wf : IsWellFormed graph) where
  abbrev Decides : ℕ → Text → Type 0
  Decides i input =
      (a : Bool) × (match_from graph i input ≡ some a) × ((a ≡ true) ↔ HasPath graph i input)

  same_node :
      (i : ℕ) {node other : DfaStateNode}
      → get_elem? graph.states i ≡ some node
      → get_elem? graph.states i ≡ some other
      → other ≡ node
  same_node i e eo = eq_of_some (sym eo ∙ e)

  match_from-Decides :
      (input : Text) (i : ℕ) (node : DfaStateNode)
      → get_elem? graph.states i ≡ some node
      → Decides i input
  unfolding match_from
  match_from-Decides [] i node e = (
    is_accept node,
    rw (e, match_from) refl,
    (
      λ h. (node, e, h),
      λ p. let (other, eo, accepting) = p in ap is_accept (sym (same_node i e eo)) ∙ accepting,
    ),
  )
  match_from-Decides (byte ∷ input) i node e =
      go (next_state byte node.transitions) refl (match_from-Decides input)
    where
      here :
          IsDeterministic node.transitions
          × ((b j : ℕ) → leads_to b j node.transitions ≡ true → j < length graph.states)
      here =
          All-get_elem?
            (λ node.
              IsDeterministic node.transitions
              × ((b j : ℕ) → leads_to b j node.transitions ≡ true → j < length graph.states))
            graph.states i wf e

      next_of_path :
          (other : DfaStateNode) (j : ℕ)
          → get_elem? graph.states i ≡ some other
          → leads_to byte j other.transitions ≡ true
          → next_state byte node.transitions ≡ some j
      next_of_path other j eo l =
          (next_state_iff byte j node.transitions here.0).1
            (ap (λ z. leads_to byte j z.transitions) (sym (same_node i e eo)) ∙ l)

      go :
          (o : Option ℕ)
          → next_state byte node.transitions ≡ o
          → ((j : ℕ) (next : DfaStateNode) → get_elem? graph.states j ≡ some next → Decides j input)
          → Decides i (byte ∷ input)
      go none n ih = (
        false,
        rw (e, match_from, n) refl,
        (λ h. cc, λ p. let (other, eo, (j, l, q)) = p in let s = next_of_path other j eo l in cc),
      )
      go (some j) n ih =
          let l = (next_state_iff byte j node.transitions here.0).0 n in
          let (next, en) = get_elem?-of_lt graph.states j (here.1 byte j l) in
          let (a, ea, decides) = ih j next en in
          (
            a,
            rw (e, match_from, n) ea,
            (
              λ h. (node, e, (j, l, decides.0 h)),
              λ p.
                  let (other, eo, (k, lk, q)) = p in
                  decides.1 (
                    subst (λ z. HasPath graph z input)
                      (eq_of_some (sym (next_of_path other k eo lk) ∙ n)) q),
            ),
          )

  -- On a graph that is not empty, whose states' edges are deterministic and lead to places in the
  -- graph, matching does not panic, and says yes exactly when a path from place 0 reads the input
  -- and ends in an accepting state.
  pub match_string_with_dfa_graph-HasPath :
      (input : Text)
      → 0 < length graph.states
      → (a : Bool) × (match_string_with_dfa_graph graph input ≡ some a)
        × ((a ≡ true) ↔ HasPath graph 0 input)
  unfolding match_string_with_dfa_graph
  match_string_with_dfa_graph-HasPath input h =
      let (node, e) = get_elem?-of_lt graph.states 0 h in match_from-Decides input 0 node e
