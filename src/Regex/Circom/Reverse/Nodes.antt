-- ===== src/Regex/Circom/Reverse/Nodes.antt =====
-- What turning round the edges of one node, and of all, comes to.
use zk_pse.Base.{
  ℕ, zero, suc, ◌+◌, ◌<◌, ◌≤◌, Bool, true, false, ◌&&◌, ◌||◌, if◌then◌else◌, List, [], ◌∷◌,
  get_elem?, Option, none, some, ◌≡◌, refl, sym, ap, ap₂, ◌∙◌, arith, Bool-cases, inl, inr, All,
}
use zk_pse.Std.Ord.{nat_ord, same, same_iff}
use zk_pse.Std.Map.{Map, Set, get, insert, contains, get-insert, add, contains-add}
use zk_pse.Regex.Structs.{DfaStateNode}
use zk_pse.Regex.Graph.{is_accept}
use zk_pse.Regex.Circom.Transition.{RevGraph, edges_to, add_reversed, add_nodes}

-- `or_else`
abbrev or_else {ℓ} : {A : Type ℓ} → Option A → Option A → Option A
or_else none b = b
or_else (some a) b = some a

-- No key twice: what a `BTreeMap` keeps.
abbrev pub HasDistinctKeys {ℓ} : {V : Type ℓ} → Map ℕ V → Type ℓ
HasDistinctKeys [] = Unit
HasDistinctKeys ((k, v) ∷ m) = (get k m ≡ none) × HasDistinctKeys m

-- A node whose edges lead to places below `n`, with no target twice.
abbrev pub LeadsBelow : ℕ → DfaStateNode → Type 0
LeadsBelow n node = All (λ t. t.0 < n) node.transitions × HasDistinctKeys node.transitions

abbrev pub HasNodes : ℕ → RevGraph → Type 0
HasNodes n g = (k : ℕ) → k < n → (from : Map ℕ (List ℕ)) × (get k g ≡ some from)

edges_to_eq :
    (j : ℕ) (g : RevGraph) (from : Map ℕ (List ℕ)) → get j g ≡ some from → edges_to j g ≡ from
edges_to_eq j g from e = ap (λ o. elim o as (λ x. Map ℕ (List ℕ)) [ none ↦ [] | some f ↦ f ]) e

pub edges_to-insert :
    (j k : ℕ) (from : Map ℕ (List ℕ)) (g : RevGraph)
    → edges_to j (insert k from g) ≡ (if same j k then from else edges_to j g)
edges_to-insert j k from g =
    ap (λ o. elim o as (λ x. Map ℕ (List ℕ)) [ none ↦ [] | some f ↦ f ]) (get-insert j k from g)
    ∙ one (same j k)
  where
    one :
        (b : Bool)
        → (elim (if b then some from else get j g) as (λ x. Map ℕ (List ℕ)) [
          | none ↦ []
          | some f ↦ f
        ])
          ≡ (if b then from else edges_to j g)
    one true = refl
    one false = refl

insert-HasNodes :
    (n k : ℕ) (from : Map ℕ (List ℕ)) (g : RevGraph) → HasNodes n g → HasNodes n (insert k from g)
insert-HasNodes n k from g h j lt = one (same j k) (get-insert j k from g)
  where
    one :
        (b : Bool)
        → get j (insert k from g) ≡ (if b then some from else get j g)
        → (f : Map ℕ (List ℕ)) × (get j (insert k from g) ≡ some f)
    one true e = (from, e)
    one false e = let (f, q) = h j lt in (f, e ∙ q)

or_else-none {ℓ} : {A : Type ℓ} (a : Option A) → or_else a none ≡ a
or_else-none none = refl
or_else-none (some a) = refl

-- `a`: the node is the one asked for; `b`: so is the target of its first edge, to which no later edge leads.
turned {ℓ} :
    {V : Type ℓ} (a b : Bool) (later : Option V) (v : V) (new old : Option V)
    → (b ≡ true → new ≡ (if a then some v else old))
    → (b ≡ false → new ≡ old)
    → (b ≡ true → later ≡ none)
    → (if a then or_else later new else new)
      ≡ (if a then or_else (if b then some v else later) old else old)
turned true true later v new old e1 e2 e3 = ap₂ or_else (e3 refl) (e1 refl)
turned true false later v new old e1 e2 e3 = ap (or_else later) (e2 refl)
turned false true later v new old e1 e2 e3 = e1 refl
turned false false later v new old e1 e2 e3 = e2 refl

-- One node's edges are put in, turned round.
add_reversed-edges :
    (n i : ℕ) (ts : Map ℕ (Set ℕ)) (g : RevGraph)
    → All (λ t. t.0 < n) ts
    → HasDistinctKeys ts
    → HasNodes n g
    → (g' : RevGraph) × (add_reversed i ts g ≡ some g')
      × HasNodes n g'
      × ((q j : ℕ)
          → get q (edges_to j g') ≡ (
              if same q i then or_else (get j ts) (get q (edges_to j g)) else get q (edges_to j g)))
unfolding add_reversed get
add_reversed-edges n i [] g low distinct h =
    (g, refl, h, λ q j. same_branches (same q i) (get q (edges_to j g)))
  where
    same_branches : (b : Bool) (x : Option (Set ℕ)) → x ≡ (if b then x else x)
    same_branches true x = refl
    same_branches false x = refl
add_reversed-edges n i ((k, v) ∷ ts) g (lt, low) (apart, distinct) h =
    let (from, e) = h k lt in
    let (g', r, h', spec) =
      add_reversed-edges n i ts (insert k (insert i v from) g) low distinct
        (insert-HasNodes n k (insert i v from) g h) in
    (
      g',
      ap
            (λ o. elim o as (λ x. Option RevGraph) [
              | none ↦ none
              | some f ↦ add_reversed i ts (insert k (insert i v f) g)
            ])
            e
          ∙ r,
      h',
      λ q j.
          spec q j
          ∙ turned (same q i) (same j k) (get j ts) v
              (get q (edges_to j (insert k (insert i v from) g))) (get q (edges_to j g))
              (λ b.
                ap (get q) (
                  edges_to-insert j k (insert i v from) g
                  ∙ ap (λ z. if z then insert i v from else edges_to j g) b)
                ∙ get-insert q i v from
                ∙ ap (λ z. if same q i then some v else z)
                    (ap (get q) (
                      sym (edges_to_eq k g from e)
                      ∙ ap (λ z. edges_to z g) (sym ((same_iff j k).0 b)))))
              (λ b. ap (get q) (
                edges_to-insert j k (insert i v from) g
                ∙ ap (λ z. if z then insert i v from else edges_to j g) b))
              (λ b. ap (λ z. get z ts) ((same_iff j k).0 b) ∙ apart),
    )

-- What the nodes from place `i` on say of the edge from place `i + m` to `j`.
abbrev pub edge_of : ℕ → Option DfaStateNode → Option (Set ℕ)
edge_of j none = none
edge_of j (some node) = get j node.transitions

abbrev pub accepts_at : Option DfaStateNode → Bool
accepts_at none = false
accepts_at (some node) = is_accept node

abbrev with_accept : ℕ → DfaStateNode → Set ℕ → Set ℕ
with_accept i node acc = if is_accept node then add i acc else acc

contains-with_accept :
    (q i : ℕ) (node : DfaStateNode) (acc : Set ℕ)
    → contains q (with_accept i node acc) ≡ (contains q acc || (same q i && is_accept node))
contains-with_accept q i node acc = elim (Bool-cases (is_accept node)) [
  | inl y ↦ rw y (contains-add q i acc ∙ ground arith)
  | inr n ↦ rw n (ground arith)
]

pub record Reversed (n i : ℕ) (nodes : List DfaStateNode) (g : RevGraph) (acc : Set ℕ)
    (g' : RevGraph) (acc' : Set ℕ) : Type 0 where
  old_edges : (q j : ℕ) → q < i → get q (edges_to j g') ≡ get q (edges_to j g)
  old_accept : (q : ℕ) → q < i → contains q acc' ≡ contains q acc
  pub edges : (m j : ℕ) → get (i + m) (edges_to j g') ≡ edge_of j (get_elem? nodes m)
  pub accept : (m : ℕ) → contains (i + m) acc' ≡ accepts_at (get_elem? nodes m)

pub add_nodes-Reversed :
    (n i : ℕ) (nodes : List DfaStateNode) (g : RevGraph) (acc : Set ℕ)
    → All (LeadsBelow n) nodes
    → HasNodes n g
    → ((q j : ℕ) → i ≤ q → get q (edges_to j g) ≡ none)
    → ((q : ℕ) → i ≤ q → contains q acc ≡ false)
    → (g' : RevGraph) × (acc' : Set ℕ) × (add_nodes i nodes (g, acc) ≡ some (g', acc'))
      × Reversed n i nodes g acc g' acc'
unfolding add_nodes
add_nodes-Reversed n i [] g acc _ h no_edge no_accept = (
  g,
  acc,
  refl,
  record {
    old_edges = λ q j lt. refl;
    old_accept = λ q lt. refl;
    edges = λ m j. no_edge (i + m) j (omega arith);
    accept = λ m. no_accept (i + m) (omega arith);
  },
)
add_nodes-Reversed n i (node ∷ nodes) g acc ((low, distinct), all) h no_edge no_accept =
    let (g1, e1, h1, spec) = add_reversed-edges n i node.transitions g low distinct h in
    let acc1 = with_accept i node acc in
    let (g', acc', e2, r) =
      add_nodes-Reversed n (suc i) nodes g1 acc1 all h1
        (λ q j le. spec q j ∙ other q j (apart q le) ∙ no_edge q j (omega arith))
        (λ q le.
          contains-with_accept q i node acc
          ∙ ground (arith, apart q le, no_accept q (omega arith))) in
    (
      g',
      acc',
      ap
            (λ o. elim o as (λ x. Option (RevGraph × Set ℕ)) [
              | none ↦ none
              | some f ↦ add_nodes (suc i) nodes (f, acc1)
            ])
            e1
          ∙ e2,
      record {
        old_edges = λ q j lt.
            r.old_edges q j (omega arith) ∙ spec q j ∙ other q j (ground (arith, same_iff q i));
        old_accept = λ q lt.
            r.old_accept q (omega arith)
            ∙ contains-with_accept q i node acc
            ∙ ground (arith, same_iff q i);
        edges = λ m j.
            elim m as (λ k. get (i + k) (edges_to j g') ≡ edge_of j (get_elem? (node ∷ nodes) k)) [
              | zero ↦
                  ap (λ z. get z (edges_to j g')) (omega arith)
                  ∙ r.old_edges i j (omega arith)
                  ∙ spec i j
                  ∙ own j (no_edge i j (omega arith))
              | suc k ↦ ap (λ z. get z (edges_to j g')) (omega arith) ∙ r.edges k j
            ];
        accept = λ m.
            elim m as (λ k. contains (i + k) acc' ≡ accepts_at (get_elem? (node ∷ nodes) k)) [
              | zero ↦
                  ap (λ z. contains z acc') (omega arith)
                  ∙ r.old_accept i (omega arith)
                  ∙ contains-with_accept i i node acc
                  ∙ ground (arith, no_accept i (omega arith), same_iff i i)
              | suc k ↦ ap (λ z. contains z acc') (omega arith) ∙ r.accept k
            ];
      },
    )
  where
    apart : (q : ℕ) → suc i ≤ q → same q i ≡ false
    apart q le = ground (arith, same_iff q i)

    other :
        (q j : ℕ)
        → same q i ≡ false
        → (if same q i
            then or_else (get j node.transitions) (get q (edges_to j g))
            else get q (edges_to j g))
          ≡ get q (edges_to j g)
    other q j ne = rw ne refl

    own :
        (j : ℕ)
        → get i (edges_to j g) ≡ none
        → (if same i i
            then or_else (get j node.transitions) (get i (edges_to j g))
            else get i (edges_to j g))
          ≡ get j node.transitions
    own j e = rw ((same_iff i i).1 refl, e) (or_else-none (get j node.transitions))
