-- ===== src/Regex/Public/Edges.antt =====
-- `update_public_edges` (compiler/src/regex.rs) replaces the state where two parts meet by every
-- accepting state of the graph before it.
use zk_pse.Base.{
  ℕ, ◌==◌, Bool, true, false, not, ◌&&◌, ◌||◌, if◌then◌else◌, List, [], ◌∷◌, map, ◌≡◌, refl, ap,
  ◌∙◌, arith, Bool-cases, inl, inr, All,
}
use zk_pse.Std.Ord.{Ord, same, same_iff, nat_ord, pair_ord}
use zk_pse.Std.Map.{
  Set, contains, add_all, delete, contains-add, contains-delete, contains-append, add,
}
use zk_pse.Regex.Structs.{DfaStateNode}
use zk_pse.Regex.Public.{touching, pairs, replacements, update_edges_loop, update_public_edges}

-- An end of an edge: `m` stands for any of the accepting ids, any other id for itself.
unfoldable pub end_matches : ℕ → List ℕ → ℕ → ℕ → Bool
end_matches m accepting a x = if a == m then contains x accepting else same x a

unfoldable pub edge_matches : ℕ → List ℕ → ℕ × ℕ → ℕ × ℕ → Bool
edge_matches m accepting (a, b) (x, y) = end_matches m accepting a x && end_matches m accepting b y

-- Whether a pair comes from some edge of the list.
unfoldable pub from_some_edge : ℕ → List ℕ → List (ℕ × ℕ) → ℕ × ℕ → Bool
from_some_edge m accepting [] p = false
from_some_edge m accepting (e ∷ edges) p =
    edge_matches m accepting e p || from_some_edge m accepting edges p

abbrev touches : ℕ → ℕ × ℕ → Bool
touches m (a, b) = a == m || b == m

pub same_pair : (a b c d : ℕ) → same {K = ℕ × ℕ} (a, b) (c, d) ≡ (same a c && same b d)
same_pair a b c d = ground arith

pub contains-add_all {ℓ} :
    {K : Type ℓ} ⦃o : Ord K⦄ (p : K) (ks : List K) (s : Set K)
    → contains p (add_all ks s) ≡ (contains p ks || contains p s)
unfolding contains add_all
contains-add_all p [] s = refl
contains-add_all p (k ∷ ks) s =
    contains-add_all p ks (add k s)
    ∙ ap (◌||◌ (contains p ks)) (contains-add p k s)
    ∙ swap (contains p ks) (same p k) (contains p s)
  where
    swap : (a b c : Bool) → (a || (b || c)) ≡ ((b || a) || c)
    swap true true c = refl
    swap true false c = refl
    swap false true c = refl
    swap false false c = refl

contains-map_left :
    (x y b : ℕ) (ids : List ℕ)
    → contains {K = ℕ × ℕ} (x, y) (map (λ a. (a, b)) ids) ≡ (contains x ids && same y b)
unfolding contains
contains-map_left x y b [] = refl
contains-map_left x y b (i ∷ ids) = ground (arith, contains-map_left x y b ids, same_pair x y i b)

contains-map_right :
    (x y a : ℕ) (ids : List ℕ)
    → contains {K = ℕ × ℕ} (x, y) (map (λ b. (a, b)) ids) ≡ (same x a && contains y ids)
unfolding contains
contains-map_right x y a [] = ground arith
contains-map_right x y a (i ∷ ids) = ground (arith, contains-map_right x y a ids, same_pair x y a i)

contains-pairs :
    (x y : ℕ) (xs ys : List ℕ)
    → contains {K = ℕ × ℕ} (x, y) (pairs xs ys) ≡ (contains x xs && contains y ys)
unfolding pairs contains
contains-pairs x y [] ys = refl
contains-pairs x y (i ∷ xs) ys =
    contains-append (x, y) (map (λ b. (i, b)) ys) (pairs xs ys)
    ∙ ground (arith, contains-map_right x y i ys, contains-pairs x y xs ys)

contains-replacements :
    (m : ℕ) (accepting : List ℕ) (e p : ℕ × ℕ)
    → touches m e ≡ true
    → contains p (replacements m accepting e) ≡ edge_matches m accepting e p
unfolding replacements edge_matches end_matches
contains-replacements m accepting (a, b) (x, y) h = ground (
  arith,
  contains-pairs x y accepting accepting,
  contains-map_left x y b accepting,
  contains-map_right x y a accepting,
)

-- A pair at `m` that comes from some edge comes from itself: `m` is one of the accepting ids.
edge_matches_self :
    (m : ℕ) (accepting : List ℕ) (e p : ℕ × ℕ)
    → edge_matches m accepting e p ≡ true
    → edge_matches m accepting p p ≡ true
unfolding edge_matches end_matches
edge_matches_self m accepting (a, b) (x, y) h =
    ground (arith, same_iff x x, same_iff y y, same_iff x a, same_iff y b)

from_itself :
    (m : ℕ) (accepting : List ℕ) (todo : List (ℕ × ℕ)) (p : ℕ × ℕ)
    → edge_matches m accepting p p ≡ true
    → contains p todo ≡ true
    → from_some_edge m accepting todo p ≡ true
unfolding from_some_edge contains
from_itself m accepting [] p h c = cc
from_itself m accepting (e ∷ todo) p h c = elim (Bool-cases (same p e)) [
  | inl s ↦ rw (← (same_iff p e).0 s, h)
  | inr s ↦ ground (arith, from_itself m accepting todo p h)
]

loop_contains :
    (m : ℕ) (accepting : List ℕ) (todo : List (ℕ × ℕ)) (edges : Set (ℕ × ℕ)) (p : ℕ × ℕ)
    → All (λ e. touches m e ≡ true) todo
    → contains p (update_edges_loop m accepting todo edges)
      ≡ ((contains p edges && not (contains p todo)) || from_some_edge m accepting todo p)
unfolding update_edges_loop from_some_edge contains
loop_contains m accepting [] edges p h = ground arith
loop_contains m accepting (e ∷ todo) edges p h =
    loop_contains m accepting todo (add_all (replacements m accepting e) (delete e edges)) p h.1
    ∙ ground (
      arith,
      contains-add_all p (replacements m accepting e) (delete e edges),
      contains-delete p e edges,
      contains-replacements m accepting e p h.0,
      edge_matches_self m accepting e p,
      from_itself m accepting todo p,
    )

contains-touching :
    (m : ℕ) (edges : List (ℕ × ℕ)) (p : ℕ × ℕ)
    → contains p (touching m edges) ≡ (contains p edges && touches m p)
unfolding touching contains
contains-touching m [] p = refl
contains-touching m ((a, b) ∷ edges) (x, y) = elim (Bool-cases (a == m || b == m)) [
  | inl t ↦
      rw t (ground (arith, contains-touching m edges (x, y), same_iff {K = ℕ × ℕ} (x, y) (a, b)))
  | inr t ↦
      rw t (ground (arith, contains-touching m edges (x, y), same_iff {K = ℕ × ℕ} (x, y) (a, b)))
]

untouched :
    (m : ℕ) (accepting : List ℕ) (edges : List (ℕ × ℕ)) (p : ℕ × ℕ)
    → ((contains p edges && not (contains p (touching m edges)))
        || from_some_edge m accepting (touching m edges) p)
      ≡ from_some_edge m accepting edges p
unfolding touching from_some_edge contains edge_matches end_matches
untouched m accepting [] p = refl
untouched m accepting ((a, b) ∷ edges) (x, y) = elim (Bool-cases (a == m || b == m)) [
  | inl t ↦ rw t (
      ground (
        arith,
        untouched m accepting edges (x, y),
        contains-touching m edges (x, y),
        same_pair x y a b,
      ))
  | inr t ↦ rw t (
      ground (
        arith,
        untouched m accepting edges (x, y),
        contains-touching m edges (x, y),
        same_pair x y a b,
      ))
]

touching_touch : (m : ℕ) (edges : List (ℕ × ℕ)) → All (λ e. touches m e ≡ true) (touching m edges)
unfolding touching
touching_touch m [] = tt
touching_touch m ((a, b) ∷ edges) = elim (Bool-cases (a == m || b == m)) [
  | inl t ↦ rw t (t, touching_touch m edges)
  | inr t ↦ rw t (touching_touch m edges)
]

-- Below a boundary state other than 0, `update_public_edges` holds exactly the pairs that come
-- from some old edge with any accepting id put for the boundary state, at either end; with the
-- boundary state 0 the edges are unchanged.
pub contains-update_public_edges :
    (public_edges : Set (ℕ × ℕ)) (m : ℕ) (accepting : List DfaStateNode) (p : ℕ × ℕ)
    → contains p (update_public_edges public_edges m accepting) ≡ (
        if m == 0
        then contains p public_edges
        else from_some_edge m (map (λ s. s.state_id) accepting) public_edges p)
unfolding update_public_edges
contains-update_public_edges public_edges m accepting p = elim (Bool-cases (m == 0)) [
  | inl z ↦ rw z
  | inr z ↦ rw z (
      loop_contains m (map (λ s. s.state_id) accepting) (touching m public_edges) public_edges p
        (touching_touch m public_edges)
      ∙ untouched m (map (λ s. s.state_id) accepting) public_edges p)
]
