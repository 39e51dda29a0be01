-- ===== src/Regex/Bfs/Rounds.antt =====
-- The breadth-first search of `sort_and_rename_states` (compiler/src/regex.rs) ends, and what it
-- has collected by then.
use zk_pse.Base.{
  ℕ, zero, suc, ◌+◌, ◌≤◌, ◌<◌, ◌==◌, false, if◌then◌else◌, List, [], ◌∷◌, length, some, ◌≡◌, ap,
  arith, length-append, List-cases, Bool-cases, Option-cases, inl, inr,
}
use zk_pse.Std.Ord.{same_iff, nat_ord}
use zk_pse.Std.Map.{Set, contains, add, contains-add}
use zk_pse.Regex.Structs.{DfaStateInfo}
use zk_pse.Regex.Bfs.{find_state, targets, unvisited, Search, visit, search, count_edges}

-- The edges of the states whose ids are not visited.
pub work : Set ℕ → List DfaStateInfo → ℕ
work visited [] = 0
work visited (s ∷ states) =
    (if contains s.source visited then 0 else length (targets s)) + work visited states

pub work-le :
    (visited : Set ℕ) (states : List DfaStateInfo) → work visited states ≤ count_edges states
unfolding work count_edges
work-le visited [] = omega arith
work-le visited (s ∷ states) = ground (arith, work-le visited states)

length-unvisited : (visited : Set ℕ) (ds : List ℕ) → length (unvisited visited ds) ≤ length ds
unfolding unvisited
length-unvisited visited [] = omega arith
length-unvisited visited (d ∷ ds) = ground (arith, length-unvisited visited ds)

work-add_le :
    (id : ℕ) (visited : Set ℕ) (states : List DfaStateInfo)
    → work (add id visited) states ≤ work visited states
unfolding work
work-add_le id visited [] = omega arith
work-add_le id visited (s ∷ states) =
    ground (arith, work-add_le id visited states, contains-add s.source id visited)

work-add :
    (id : ℕ) (visited : Set ℕ) (states : List DfaStateInfo) (state : DfaStateInfo)
    → contains id visited ≡ false
    → find_state id states ≡ some state
    → work (add id visited) states + length (targets state) ≤ work visited states
unfolding work find_state
work-add id visited [] state new found = cc
work-add id visited (s ∷ states) state new found = elim (Bool-cases (s.source == id)) [
  | inl here ↦
      ground (
        arith,
        work-add_le id visited states,
        contains-add s.source id visited,
        same_iff s.source id,
      )
  | inr there ↦ ground (
    arith,
    work-add id visited states state,
    contains-add s.source id visited,
    same_iff s.source id,
  )
]

abbrev pub measure : List DfaStateInfo → Search → ℕ
measure states s = work s.visited states + length s.queue

visit-measure :
    (states : List DfaStateInfo) (id : ℕ) (s : Search)
    → measure states (visit states id s) ≤ measure states s
unfolding visit
visit-measure states id s = elim (Bool-cases (contains id s.visited)) [
  | inl old ↦ rw old (omega arith)
  | inr new ↦ elim (Option-cases (find_state id states)) [
    | inl none' ↦ rw (new, none') (omega (arith, work-add_le id s.visited states))
    | inr (state, found) ↦
        rw (new, found)
          (omega (
            arith,
            work-add id s.visited states state new found,
            length-append s.queue (unvisited (add id s.visited) (targets state)),
            length-unvisited (add id s.visited) (targets state),
          ))
  ]
]

-- With more fuel than the measure the search returns.
pub search_ends :
    (fuel : ℕ) (states : List DfaStateInfo) (s : Search)
    → measure states s < fuel
    → (r : List DfaStateInfo) × (search fuel states s ≡ some r)
unfolding search
search_ends zero states s h = absurd (omega arith)
search_ends (suc fuel) states s h = elim (List-cases s.queue) [
  | inl empty ↦ (s.sorted_states, rw (empty, search))
  | inr (id, rest, e) ↦
      let (r, ends) =
        search_ends fuel states (visit states id (record s { queue = rest }))
          (omega (arith, visit-measure states id (record s { queue = rest }), ap length e)) in
      (r, rw (e, search) ends)
]

-- An invariant that each round keeps holds when the queue is empty.
pub search_rule {ℓ} :
    (states : List DfaStateInfo) (P : Search → Type ℓ)
    → ((id : ℕ) (rest : List ℕ) (s : Search)
        → s.queue ≡ id ∷ rest
        → P s
        → P (visit states id (record s { queue = rest })))
    → (fuel : ℕ) (s : Search) (r : List DfaStateInfo) → P s
    → search fuel states s ≡ some r
    → (t : Search) × P t × (t.queue ≡ []) × (t.sorted_states ≡ r)
unfolding search
search_rule states P keep zero s r p h = cc
search_rule states P keep (suc fuel) s r p h = elim (List-cases s.queue) [
  | inl empty ↦
      (s, p, empty, cc (let h' : some s.sorted_states ≡ some r = rw (empty, search) at h in h'))
  | inr (id, rest, e) ↦
      search_rule states P keep fuel (visit states id (record s { queue = rest })) r
        (keep id rest s e p) (rw (e, search) at h)
]
