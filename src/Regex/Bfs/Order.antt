-- ===== src/Regex/Bfs/Order.antt =====
-- What the breadth-first search of `sort_and_rename_states` (compiler/src/regex.rs) has collected
-- when it ends: the states that can be reached, each once, the start state first.
use zk_pse.Base.{
  ℕ, ◌+◌, ◌==◌, true, false, not, ◌||◌, ◌&&◌, List, [], ◌∷◌, ◌++◌, map, get_elem?, none, some, ◌≡◌,
  refl, sym, ap, ◌∙◌, arith, Bool-cases, Option-cases, inl, inr, All, All-map, All-concat, ◌⊎◌,
  ⊎_elim, subst,
}
use mathlib.Core.List.{map-append}
use zk_pse.Std.Ord.{same, same_iff, nat_ord}
use zk_pse.Std.Map.{Set, contains, add, contains-add, contains-append, Unique, Unique-concat}
use zk_pse.Regex.Structs.{DfaStateInfo}
use zk_pse.Regex.Bfs.{find_state, targets, unvisited, Search, visit, search, count_edges}
use zk_pse.Regex.Bfs.Rounds.{search_rule, search_ends, work-le}

abbrev pub sources : List DfaStateInfo → List ℕ
sources states = map (λ s. s.source) states

pub source-find_state :
    (id : ℕ) (states : List DfaStateInfo) {s : DfaStateInfo}
    → find_state id states ≡ some s
    → s.source ≡ id
unfolding find_state
source-find_state id [] h = cc
source-find_state id (x ∷ states) h = elim (Bool-cases (x.source == id)) [
  | inl e ↦ let h' : some x ≡ some _ = rw (e, find_state) at h in ground (arith)
  | inr e ↦ source-find_state id states (rw (e, find_state) at h)
]

contains-unvisited :
    (d : ℕ) (visited : Set ℕ) (ds : List ℕ)
    → contains d (unvisited visited ds) ≡ (contains d ds && not (contains d visited))
unfolding unvisited contains
contains-unvisited d visited [] = refl
contains-unvisited d visited (x ∷ ds) = elim (Bool-cases (contains x visited)) [
  | inl e ↦ ground (arith, contains-unvisited d visited ds, same_iff d x)
  | inr e ↦ ground (arith, contains-unvisited d visited ds, same_iff d x)
]

module _ (states : List DfaStateInfo) (start : ℕ) (first_state : DfaStateInfo)
    (has_start : find_state start states ≡ some first_state) where
  abbrev Frontier : Set ℕ → List ℕ → DfaStateInfo → Type 0
  Frontier visited queue x =
      (d : ℕ) → contains d (targets x) ≡ true → (contains d visited || contains d queue) ≡ true

  pub record Inv (s : Search) : Type 0 where
    pub known :
        (id : ℕ) → contains id (sources s.sorted_states) ≡ true → contains id s.visited ≡ true
    pub covered :
        (id : ℕ) (x : DfaStateInfo)
        → contains id s.visited ≡ true
        → find_state id states ≡ some x
        → contains id (sources s.sorted_states) ≡ true
    pub found : All (λ x. find_state x.source states ≡ some x) s.sorted_states
    pub unique : Unique (sources s.sorted_states)
    pub frontier : All (Frontier s.visited s.queue) s.sorted_states
    pub first :
        ((s.sorted_states ≡ []) × (s.queue ≡ start ∷ []) × (s.visited ≡ []))
        ⊎ (get_elem? (sources s.sorted_states) 0 ≡ some start)

  Inv-start : Inv (record { sorted_states = []; visited = []; queue = start ∷ [] })
  unfolding contains
  Inv-start = record {
    known = λ id h. h;
    covered = λ id x h e. h;
    found = tt;
    unique = tt;
    frontier = tt;
    first = inl (refl, refl, refl);
  }

  visit-old :
      (id : ℕ) (rest : List ℕ) (s : Search)
      → s.queue ≡ id ∷ rest
      → Inv s
      → contains id s.visited ≡ true
      → Inv (record s { queue = rest })
  unfolding contains
  visit-old id rest s e h old = record {
    known = h.known;
    covered = h.covered;
    found = h.found;
    unique = h.unique;
    frontier = All-map (λ x p d m. keep d (p d m)) s.sorted_states h.frontier;
    first = ⊎_elim (λ (a, b, c). cc (subst (λ v. contains id v ≡ true) c old)) inr h.first;
  }
    where
      keep :
          (d : ℕ)
          → (contains d s.visited || contains d s.queue) ≡ true
          → (contains d s.visited || contains d rest) ≡ true
      keep d p =
          let p' : (contains d s.visited || contains d (id ∷ rest)) ≡ true = rw e at p in
          ground (arith, same_iff d id)

  visit-missing :
      (id : ℕ) (rest : List ℕ) (s : Search)
      → s.queue ≡ id ∷ rest
      → Inv s
      → find_state id states ≡ none
      → Inv (record s { visited = add id s.visited; queue = rest })
  unfolding contains
  visit-missing id rest s e h missing = record {
    known = λ j m. ground (arith, contains-add j id s.visited, h.known j m);
    covered = λ j x m fj. h.covered j x (other j x fj (contains-add j id s.visited) m) fj;
    found = h.found;
    unique = h.unique;
    frontier = All-map (λ x p d m. keep d (p d m)) s.sorted_states h.frontier;
    first =
        ⊎_elim
          (λ (a, b, c). cc (sym missing ∙ ap (λ j. find_state j states) (same_head b) ∙ has_start))
          inr h.first;
  }
    where
      same_head : s.queue ≡ start ∷ [] → id ≡ start
      same_head b = cc

      other :
          (j : ℕ) (x : DfaStateInfo)
          → find_state j states ≡ some x
          → contains j (add id s.visited) ≡ (same j id || contains j s.visited)
          → contains j (add id s.visited) ≡ true
          → contains j s.visited ≡ true
      other j x fj a m = elim (Bool-cases (same j id)) [
        | inl p ↦ cc (sym missing ∙ ap (λ k. find_state k states) (sym ((same_iff j id).0 p)) ∙ fj)
        | inr p ↦ ground arith
      ]

      keep :
          (d : ℕ)
          → (contains d s.visited || contains d s.queue) ≡ true
          → (contains d (add id s.visited) || contains d rest) ≡ true
      keep d p =
          let p' : (contains d s.visited || contains d (id ∷ rest)) ≡ true = rw e at p in
          ground (arith, contains-add d id s.visited)

  visit-new :
      (id : ℕ) (rest : List ℕ) (s : Search) (state : DfaStateInfo)
      → s.queue ≡ id ∷ rest
      → Inv s
      → contains id s.visited ≡ false
      → find_state id states ≡ some state
      → Inv (record {
        sorted_states = s.sorted_states ++ state ∷ [];
        visited = add id s.visited;
        queue = rest ++ unvisited (add id s.visited) (targets state);
      })
  unfolding contains
  visit-new id rest s state e h new fs = record {
    known = λ j m. ground (
      arith,
      in_sources j,
      contains-add j id s.visited,
      h.known j,
      named,
      same_iff j state.source,
      same_iff j id,
    );
    covered = λ j x m fj. ground (
      arith,
      in_sources j,
      contains-add j id s.visited,
      h.covered j x,
      named,
      same_iff j state.source,
      same_iff j id,
    );
    found =
        All-concat (λ x. find_state x.source states ≡ some x) s.sorted_states h.found
          (ap (λ j. find_state j states) named ∙ fs);
    unique =
        rw (map-append (λ (x : DfaStateInfo). x.source) s.sorted_states (state ∷ []))
          (Unique-concat (sources s.sorted_states) state.source h.unique fresh);
    frontier =
        All-concat (Frontier (add id s.visited) queue') s.sorted_states
          (All-map (λ x p d m. keep d (p d m)) s.sorted_states h.frontier)
          (λ d m. ground (
            arith,
            contains-append d rest (unvisited (add id s.visited) (targets state)),
            contains-unvisited d (add id s.visited) (targets state),
          ));
    first = inr (⊎_elim (λ (a, b, c). at_start a b) (λ g. later s.sorted_states g) h.first);
  }
    where
      queue' : List ℕ
      queue' = rest ++ unvisited (add id s.visited) (targets state)

      named : state.source ≡ id
      named = source-find_state id states fs

      in_sources :
          (j : ℕ)
          → contains j (sources (s.sorted_states ++ state ∷ []))
            ≡ (contains j (sources s.sorted_states) || contains j (state.source ∷ []))
      in_sources j =
          ap (contains j) (map-append (λ (x : DfaStateInfo). x.source) s.sorted_states (state ∷ []))
          ∙ contains-append j (sources s.sorted_states) (state.source ∷ [])

      fresh : contains state.source (sources s.sorted_states) ≡ false
      fresh = rw named (elim (Bool-cases (contains id (sources s.sorted_states))) [
        | inl m ↦ cc (sym new ∙ h.known id m)
        | inr m ↦ m
      ])

      keep :
          (d : ℕ)
          → (contains d s.visited || contains d s.queue) ≡ true
          → (contains d (add id s.visited) || contains d queue') ≡ true
      keep d p =
          let p' : (contains d s.visited || contains d (id ∷ rest)) ≡ true = rw e at p in
          ground (
            arith,
            contains-add d id s.visited,
            contains-append d rest (unvisited (add id s.visited) (targets state)),
          )

      at_start :
          s.sorted_states ≡ []
          → s.queue ≡ start ∷ []
          → get_elem? (sources (s.sorted_states ++ state ∷ [])) 0 ≡ some start
      at_start a b = rw a (ap some (named ∙ cc))

      later :
          (xs : List DfaStateInfo)
          → get_elem? (sources xs) 0 ≡ some start
          → get_elem? (sources (xs ++ state ∷ [])) 0 ≡ some start
      later [] g = cc
      later (x ∷ xs) g = g

  Inv-visit :
      (id : ℕ) (rest : List ℕ) (s : Search)
      → s.queue ≡ id ∷ rest
      → Inv s
      → Inv (visit states id (record s { queue = rest }))
  unfolding visit
  Inv-visit id rest s e h = elim (Bool-cases (contains id s.visited)) [
    | inl old ↦ rw old (visit-old id rest s e h old)
    | inr new ↦ elim (Option-cases (find_state id states)) [
      | inl missing ↦ rw (new, missing) (visit-missing id rest s e h missing)
      | inr (state, fs) ↦ rw (new, fs) (visit-new id rest s state e h new fs)
    ]
  ]

  -- The states of a finished search: where each stands in the input, that none stands twice, that
  -- the start is the first, and that an edge to a state of the input leads to one of them.
  pub record IsOrdered (r : List DfaStateInfo) : Type 0 where
    pub found : All (λ x. find_state x.source states ≡ some x) r
    pub unique : Unique (sources r)
    pub first : get_elem? (sources r) 0 ≡ some start
    pub closed :
        All
          (λ x.
            (d : ℕ) (y : DfaStateInfo)
            → contains d (targets x) ≡ true
            → find_state d states ≡ some y
            → contains d (sources r) ≡ true)
          r

  Inv-IsOrdered : (s : Search) → Inv s → s.queue ≡ [] → IsOrdered s.sorted_states
  unfolding contains
  Inv-IsOrdered s h e = record {
    found = h.found;
    unique = h.unique;
    first = ⊎_elim (λ (a, b, c). cc) (λ g. g) h.first;
    closed =
        All-map (λ x p d y m fd. h.covered d y (visited_only d (p d m)) fd) s.sorted_states
          h.frontier;
  }
    where
      visited_only :
          (d : ℕ)
          → (contains d s.visited || contains d s.queue) ≡ true
          → contains d s.visited ≡ true
      visited_only d p =
          let p' : (contains d s.visited || contains d []) ≡ true = rw e at p in ground arith

  pub search-IsOrdered :
      (r : List DfaStateInfo) × (search
          (count_edges states + 2)
          states
          (record { sorted_states = []; visited = []; queue = start ∷ [] })
        ≡ some r)
      × IsOrdered r
  search-IsOrdered =
      let begin : Search = record { sorted_states = []; visited = []; queue = start ∷ [] } in
      let (r, e) =
        search_ends (count_edges states + 2) states begin (omega (arith, work-le [] states)) in
      let (t, inv, empty, same_list) =
        search_rule states Inv Inv-visit (count_edges states + 2) begin r Inv-start e in
      (r, e, subst IsOrdered same_list (Inv-IsOrdered t inv empty))
