-- ===== src/Regex/Bfs/Language.antt =====
-- `sort_and_rename_states` (compiler/src/regex.rs) keeps the language of the states.
use zk_pse.Base.{
  ℕ, zero, suc, ◌+◌, ◌==◌, ==_iff, Bool, true, false, List, [], ◌∷◌, get_elem?, map, Option, none,
  some, ◌≡◌, refl, sym, ap, ◌∙◌, arith, Bool-cases, inl, inr, All, All-get_elem?, eq_of_some, subst,
}
use zk_pse.Std.Ord.{same, same_iff, nat_ord, bytes_ord}
use zk_pse.Std.Map.{Map, get, insert, get-insert, contains, Unique}
use zk_pse.Std.Text.{Text, bytes}
use zk_pse.Regex.Structs.{DfaStateInfo, DfaGraphInfo}
use zk_pse.Regex.Bfs.{
  find_state, targets, collect_ids, new_target, rename_edges, renumber, sort_and_rename_states,
}
use zk_pse.Regex.Bfs.Order.{sources, IsOrdered, search-IsOrdered}

abbrev follow : Option ℕ → (ℕ → Bool) → Bool
follow none go = false
follow (some d) go = go d

abbrev renamed_target : Map ℕ ℕ → Option ℕ → Option ℕ
renamed_target m none = none
renamed_target m (some d) = some (new_target m d)

-- Whether the labels lead from the state of an id to one of type "accept".
unfoldable pub accepts : List DfaStateInfo → ℕ → List Text → Bool
accepts states id [] = elim (find_state id states) [
  | none ↦ false
  | some s ↦ same s.typ (bytes "accept")
]
accepts states id (label ∷ labels) = elim (find_state id states) [
  | none ↦ false
  | some s ↦ follow (get label s.edges) (λ d. accepts states d labels)
]

-- Every edge leads to the id of some state.
abbrev pub IsComplete : List DfaStateInfo → Type 0
IsComplete states =
    All
      (λ s.
        (d : ℕ)
        → contains d (targets s) ≡ true
        → (y : DfaStateInfo) × (find_state d states ≡ some y))
      states

All-find_state :
    (P : DfaStateInfo → Type 0) (states : List DfaStateInfo) (id : ℕ) {x : DfaStateInfo}
    → All P states
    → find_state id states ≡ some x
    → P x
unfolding find_state
All-find_state P [] id h e = cc
All-find_state P (s ∷ states) id {x} h e = elim (Bool-cases (s.source == id)) [
  | inl p ↦ subst P (eq_of_some (rw (p, find_state) at e)) h.0
  | inr p ↦ All-find_state P states id h.1 (rw (p, find_state) at e)
]

get_elem?-sources :
    (r : List DfaStateInfo) (j : ℕ) {q : ℕ}
    → get_elem? (sources r) j ≡ some q
    → (x : DfaStateInfo) × (get_elem? r j ≡ some x) × (x.source ≡ q)
get_elem?-sources [] j e = cc
get_elem?-sources (x ∷ r) zero e = (x, refl, eq_of_some e)
get_elem?-sources (x ∷ r) (suc j) e = get_elem?-sources r j e

get_elem?-contains :
    (d : ℕ) (ids : List ℕ) → contains d ids ≡ true → (j : ℕ) × (get_elem? ids j ≡ some d)
unfolding contains
get_elem?-contains d [] h = cc
get_elem?-contains d (i ∷ ids) h = elim (Bool-cases (same d i)) [
  | inl p ↦ (0, ap some (sym ((same_iff d i).0 p)))
  | inr p ↦ let (j, e) = get_elem?-contains d ids (ground arith) in (suc j, e)
]

contains-get_elem? :
    (d : ℕ) (ids : List ℕ) (j : ℕ) → get_elem? ids j ≡ some d → contains d ids ≡ true
unfolding contains
contains-get_elem? d [] j e = cc
contains-get_elem? d (i ∷ ids) zero e = ground (arith, same_iff d i)
contains-get_elem? d (i ∷ ids) (suc j) e = ground (arith, contains-get_elem? d ids j e)

get-collect_ids_other :
    (d i : ℕ) (r : List DfaStateInfo) (m : Map ℕ ℕ)
    → contains d (sources r) ≡ false
    → get d (collect_ids i r m) ≡ get d m
unfolding collect_ids contains
get-collect_ids_other d i [] m h = refl
get-collect_ids_other d i (x ∷ r) m h =
    get-collect_ids_other d (suc i) r (insert x.source i m) (ground arith)
    ∙ get-insert d x.source i m
    ∙ ground arith

get-collect_ids :
    (d i j : ℕ) (r : List DfaStateInfo) (m : Map ℕ ℕ)
    → Unique (sources r)
    → get_elem? (sources r) j ≡ some d
    → get d (collect_ids i r m) ≡ some (i + j)
unfolding collect_ids
get-collect_ids d i j [] m u e = cc
get-collect_ids d i zero (x ∷ r) m u e =
    get-collect_ids_other d (suc i) r (insert x.source i m)
      (subst (λ k. contains k (sources r) ≡ false) (eq_of_some e) u.0)
    ∙ get-insert d x.source i m
    ∙ (rw ((same_iff d x.source).1 (sym (eq_of_some e))) (ap some (omega arith)))
get-collect_ids d i (suc j) (x ∷ r) m u e =
    get-collect_ids d (suc i) j r (insert x.source i m) u.1 e ∙ ap some (omega arith)

find_state-renumber :
    (m : Map ℕ ℕ) (i j k : ℕ) (r : List DfaStateInfo) {x : DfaStateInfo}
    → k ≡ i + j
    → get_elem? r j ≡ some x
    → find_state k (renumber m i r) ≡ some (record x { source = k; edges = rename_edges m x.edges })
unfolding find_state renumber
find_state-renumber m i j k [] h e = cc
find_state-renumber m i zero k (y ∷ r) h e =
    let stay : i ≡ k = omega arith in
    rw (stay, (==_iff k k).1 refl)
      (ap (λ (z : DfaStateInfo). some (record z { source = k; edges = rename_edges m z.edges }))
        (eq_of_some e))
find_state-renumber m i (suc j) k (y ∷ r) h e =
    let far : (i == k) ≡ false = ground arith in
    rw far (find_state-renumber m (suc i) j k r (omega arith) e)

get-rename_edges :
    (m : Map ℕ ℕ) (label : Text) (edges : Map Text ℕ)
    → get label (rename_edges m edges) ≡ renamed_target m (get label edges)
unfolding get rename_edges
get-rename_edges m label [] = refl
get-rename_edges m label ((l, d) ∷ edges) = elim (Bool-cases (same label l)) [
  | inl p ↦ rw p
  | inr p ↦ rw p (get-rename_edges m label edges)
]

contains-targets :
    (label : Text) (edges : Map Text ℕ) {d : ℕ}
    → get label edges ≡ some d
    → contains d (map (λ e. e.1) edges) ≡ true
unfolding get contains
contains-targets label [] h = cc
contains-targets label ((l, d') ∷ edges) {d} h = elim (Bool-cases (same label l)) [
  | inl p ↦ let h' : some d' ≡ some d = rw (p, get) at h in ground (arith, same_iff d d')
  | inr p ↦ let ih = contains-targets label edges (rw (p, get) at h) in ground arith
]

accepts_here :
    (states : List DfaStateInfo) (id : ℕ) {x : DfaStateInfo}
    → find_state id states ≡ some x
    → accepts states id [] ≡ same x.typ (bytes "accept")
unfolding accepts
accepts_here states id h = rw (accepts, h)

accepts_next :
    (states : List DfaStateInfo) (id : ℕ) (label : Text) (labels : List Text) {x : DfaStateInfo}
    → find_state id states ≡ some x
    → accepts states id (label ∷ labels) ≡ follow (get label x.edges) (λ d. accepts states d labels)
unfolding accepts
accepts_next states id label labels h = rw (accepts, h)

module _ (states : List DfaStateInfo) (start : ℕ) (first_state : DfaStateInfo)
    (has_start : find_state start states ≡ some first_state) (complete : IsComplete states)
    (r : List DfaStateInfo) (ordered : IsOrdered states start first_state has_start r) where
  abbrev renamed : List DfaStateInfo
  renamed = renumber (collect_ids 0 r []) 0 r

  place :
      (j q : ℕ)
      → get_elem? (sources r) j ≡ some q
      → (x : DfaStateInfo) × (get_elem? r j ≡ some x)
        × (find_state q states ≡ some x)
        × (find_state j renamed
            ≡ some (record x { source = j; edges = rename_edges (collect_ids 0 r []) x.edges }))
  place j q e =
      let (x, ex, named) = get_elem?-sources r j e in
      (
        x,
        ex,
        subst (λ k. find_state k states ≡ some x) named
            (All-get_elem? (λ x. find_state x.source states ≡ some x) r j ordered.found ex),
        find_state-renumber (collect_ids 0 r []) 0 j j r (omega arith) ex,
      )

  new_target-place :
      (d k : ℕ) → get_elem? (sources r) k ≡ some d → new_target (collect_ids 0 r []) d ≡ k
  unfolding new_target
  new_target-place d k e =
      rw (get-collect_ids d 0 k r [] ordered.unique e, new_target) (omega arith)

  follow-renamed :
      (labels : List Text) (j q : ℕ) (x : DfaStateInfo) (label : Text) (o : Option ℕ)
      → ((j q : ℕ)
          → get_elem? (sources r) j ≡ some q
          → accepts renamed j labels ≡ accepts states q labels)
      → get_elem? r j ≡ some x
      → find_state q states ≡ some x
      → get label x.edges ≡ o
      → follow (renamed_target (collect_ids 0 r []) o) (λ d. accepts renamed d labels)
        ≡ follow o (λ d. accepts states d labels)
  follow-renamed labels j q x label none ih ex old eo = refl
  follow-renamed labels j q x label (some d) ih ex old eo =
      let out = contains-targets label x.edges eo in
      let (y, ey) =
        All-find_state
          (λ s.
            (d : ℕ)
            → contains d (targets s) ≡ true
            → (y : DfaStateInfo) × (find_state d states ≡ some y))
          states q complete old d out in
      let (k, ek) = get_elem?-contains d (sources r) (
        All-get_elem?
          (λ x.
            (d : ℕ) (y : DfaStateInfo)
            → contains d (targets x) ≡ true
            → find_state d states ≡ some y
            → contains d (sources r) ≡ true)
          r j ordered.closed ex d y out ey) in
      rw (new_target-place d k ek) (ih k d ek)

  -- The state at place j of the search has the words of its old id.
  accepts-renamed :
      (labels : List Text) (j q : ℕ)
      → get_elem? (sources r) j ≡ some q
      → accepts renamed j labels ≡ accepts states q labels
  accepts-renamed [] j q e =
      let (x, ex, old, new) = place j q e in
      accepts_here renamed j new ∙ sym (accepts_here states q old)
  accepts-renamed (label ∷ labels) j q e =
      let (x, ex, old, new) = place j q e in
      accepts_next renamed j label labels new
      ∙ ap (λ o. follow o (λ d. accepts renamed d labels))
          (get-rename_edges (collect_ids 0 r []) label x.edges)
      ∙ follow-renamed labels j q x label (get label x.edges) (accepts-renamed labels) ex old refl
      ∙ sym (accepts_next states q label labels old)

-- From a start id that is a state's, and where every edge leads to a state, the search has fuel
-- enough, and the renamed states accept from 0 the words that the old ones accept from the start.
pub accepts-sort_and_rename_states :
    (info : DfaGraphInfo) (start : ℕ) (first_state : DfaStateInfo)
    → find_state start info.states ≡ some first_state
    → IsComplete info.states
    → (sorted : DfaGraphInfo) × (sort_and_rename_states info start ≡ some sorted)
      × ((labels : List Text) → accepts sorted.states 0 labels ≡ accepts info.states start labels)
unfolding sort_and_rename_states
accepts-sort_and_rename_states info start first_state h complete =
    let (r, e, ordered) = search-IsOrdered info.states start first_state h in
    (
      record { states = renumber (collect_ids 0 r []) 0 r },
      rw (e, sort_and_rename_states),
      λ labels.
          accepts-renamed info.states start first_state h complete r ordered labels 0 start
            ordered.first,
    )
