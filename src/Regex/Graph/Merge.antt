-- ===== src/Regex/Graph/Merge.antt =====
-- `merge_edges` (compiler/src/regex.rs): which byte leads where once an accepting state has taken
-- over the edges of the next start state.
use zk_pse.Base.{
  ℕ, Bool, true, false, not, ◌&&◌, ◌||◌, if◌then◌else◌, List, [], ◌∷◌, Option, none, some, ◌≡◌,
  refl, ap, ◌∙◌, arith, Bool-cases, inl, inr,
}
use zk_pse.Std.Ord.{same, same_iff, nat_ord, bytes_ord}
use zk_pse.Std.Text.{bytes}
use zk_pse.Std.Map.{Map, Set, get, insert, contains, get-insert, contains-delete}
use zk_pse.Regex.Structs.{DfaStateNode}
use zk_pse.Regex.Graph.{
  is_accept, retain_others, retain_none_of, merge_transitions, merge_edges, update_state_type,
  process_accept_state,
}

abbrev pub in_set : ℕ → Option (Set ℕ) → Bool
in_set b none = false
in_set b (some s) = contains b s

-- Whether byte b is in the set that leads to k.
unfoldable pub leads_to : ℕ → ℕ → Map ℕ (Set ℕ) → Bool
unfolding contains
leads_to b k m = in_set b (get k m)

abbrev is_some : Option (Set ℕ) → Bool
is_some none = false
is_some (some s) = true

unfoldable pub has_key : ℕ → Map ℕ (Set ℕ) → Bool
has_key k m = is_some (get k m)

-- Whether byte b is in some set.
unfoldable pub leads_out : ℕ → Map ℕ (Set ℕ) → Bool
leads_out b [] = false
leads_out b ((k, s) ∷ m) = contains b s || leads_out b m

-- One key each, and no byte in two sets.
abbrev pub IsDeterministic : Map ℕ (Set ℕ) → Type 0
IsDeterministic [] = Unit
IsDeterministic ((k, s) ∷ m) =
    (get k m ≡ none) × ((b : ℕ) → contains b s ≡ true → leads_out b m ≡ false) × IsDeterministic m

leads_to-retain_others :
    (b k v : ℕ) (m : Map ℕ (Set ℕ))
    → leads_to b k (retain_others v m) ≡ (leads_to b k m && not (same b v))
unfolding leads_to retain_others get
leads_to-retain_others b k v [] = refl
leads_to-retain_others b k v ((j, s) ∷ m) = elim (Bool-cases (same k j)) [
  | inl e ↦ rw e (contains-delete b v s ∙ by_cases (same b v) (contains b s))
  | inr e ↦ rw e (leads_to-retain_others b k v m)
]
  where
    by_cases : (x y : Bool) → (if x then false else y) ≡ (y && not x)
    by_cases true true = refl
    by_cases true false = refl
    by_cases false true = refl
    by_cases false false = refl

leads_to-retain_none_of :
    (b k : ℕ) (v : List ℕ) (m : Map ℕ (Set ℕ))
    → leads_to b k (retain_none_of v m) ≡ (leads_to b k m && not (contains b v))
unfolding retain_none_of contains
leads_to-retain_none_of b k [] m = ground arith
leads_to-retain_none_of b k (e ∷ v) m =
    leads_to-retain_none_of b k v (retain_others e m)
    ∙ ground (arith, leads_to-retain_others b k e m)

leads_to-insert :
    (b k j : ℕ) (v : Set ℕ) (m : Map ℕ (Set ℕ))
    → leads_to b k (insert j v m) ≡ (if same k j then contains b v else leads_to b k m)
unfolding leads_to
leads_to-insert b k j v m = ap (in_set b) (get-insert k j v m) ∙ by_cases (same k j)
  where
    by_cases :
        (x : Bool)
        → in_set b (if x then some v else get k m)
          ≡ (if x then contains b v else in_set b (get k m))
    by_cases true = refl
    by_cases false = refl

get-same : (k j : ℕ) (m : Map ℕ (Set ℕ)) → same k j ≡ true → get k m ≡ get j m
get-same k j m e = ap (λ x. get x m) ((same_iff k j).0 e)

leads_to-merge_transitions :
    (b k : ℕ) (source target : Map ℕ (Set ℕ))
    → IsDeterministic source
    → leads_to b k (merge_transitions source target) ≡ (
        if has_key k source
        then leads_to b k source
        else leads_to b k target && not (leads_out b source))
unfolding merge_transitions has_key leads_out leads_to get
leads_to-merge_transitions b k [] target h = by_cases (in_set b (get k target))
  where
    by_cases : (x : Bool) → x ≡ (x && true)
    by_cases true = refl
    by_cases false = refl
leads_to-merge_transitions b k ((j, v) ∷ source) target h =
    leads_to-merge_transitions b k source (insert j v (retain_none_of v target)) h.2
    ∙ elim (Bool-cases (same k j)) [
      | inl e ↦
          rw (e, leads_to-insert b k j v (retain_none_of v target), get-same k j source e, h.0)
            (rw e (keep (contains b v) (leads_out b source) (h.1 b)))
      | inr e ↦
          rw
            (
              e,
              leads_to-insert b k j v (retain_none_of v target),
              leads_to-retain_none_of b k v target,
            )
            (rw e (
              minus (has_key k source) (leads_to b k source) (leads_to b k target) (contains b v)
                (leads_out b source)))
    ]
  where
    keep : (x y : Bool) → (x ≡ true → y ≡ false) → (x && not y) ≡ x
    keep true y e = ap not (e refl)
    keep false y e = refl

    minus :
        (key s t x y : Bool)
        → (if key then s else (t && not x) && not y) ≡ (if key then s else t && not (x || y))
    minus true s t x y = refl
    minus false s false x y = refl
    minus false s true true y = refl
    minus false s true false y = refl

-- `process_accept_state` gives an accepting state the start state's type, and the edges that
-- `merge_edges` promises: on each state id k that the start state (with one set for each id and no
-- byte in two sets) has an edge to, exactly the bytes of the start state's edge, whatever edge to k
-- the accepting state had; on any other id, the accepting state's own bytes less those on which the
-- start state leads somewhere. The result is accepting exactly when the start state is.
pub process_accept_state-leads_to :
    (accept_state start_state : DfaStateNode)
    → IsDeterministic start_state.transitions
    → ((b k : ℕ)
        → leads_to b k (process_accept_state accept_state start_state).transitions ≡ (
            if has_key k start_state.transitions
            then leads_to b k start_state.transitions
            else leads_to b k accept_state.transitions
              && not (leads_out b start_state.transitions)))
      × (is_accept (process_accept_state accept_state start_state) ≡ is_accept start_state)
unfolding process_accept_state merge_edges update_state_type
process_accept_state-leads_to accept_state start_state h = (
  λ b k. leads_to-merge_transitions b k start_state.transitions accept_state.transitions h,
  state_type (is_accept start_state),
)
  where
    state_type : (x : Bool) → same (if x then bytes "accept" else []) (bytes "accept") ≡ x
    state_type true = refl
    state_type false = refl
