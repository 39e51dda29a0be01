-- ===== src/Net/Exchange/Received.antt =====
-- What the king makes of the collected messages.
use zk_pse.Base.{
  ℕ, suc, ◌<◌, ◌≤◌, ◌==◌, ==_iff, ltb, lt→ltb, Bool, true, false, not, ◌&&◌, if◌then◌else◌, List,
  [], length, get_elem?, Option, none, some, ◌≡◌, refl, sym, ap, ap₂, ◌∙◌, arith, Bool-cases,
  Option-cases, inl, inr,
}
use zk_pse.Std.Ord.{nat_ord, same, same_iff}
use zk_pse.Std.Map.{Map, Set, get, insert, get-insert, length-insert, contains}
use zk_pse.Std.Text.{Text}
use zk_pse.Net.{Answer}
use zk_pse.Net.Exchange.{
  Collection, start_collection, Reaches, KingReceived, full, partial, with_own, remove_sorted,
  king_received,
}
use zk_pse.Net.Exchange.Collected.{
  got, asked, has, count, count-insert, Collected, Reaches-Collected,
}
use zk_pse.Net.Exchange.Counted.{count_all, count_missing, remove_sorted-returns}

-- What party `id` sends: the king's own bytes are its own.
abbrev pub message : (ℕ → Answer Text) → Text → ℕ → Option Text
message answers own id = if id == 0 then some own else got (answers id)

-- The store with the king's own bytes: what each key holds, and how many there are.
record WithOwn (answers : ℕ → Answer Text) (n : ℕ) (own : Text) (c : Collection) (ret : Map ℕ Text)
    : Type 0 where
  value :
      (id : ℕ)
      → get id ret
        ≡ (if ltb id n && not (contains id c.waiting) then message answers own id else none)
  counted : length ret ≡ count n ret

with_own-WithOwn :
    (answers : ℕ → Answer Text) (n : ℕ) (own : Text) (c : Collection)
    → 1 ≤ n
    → Collected answers n c
    → WithOwn answers n own c (with_own own c.store)
unfolding with_own
with_own-WithOwn answers n own c pos h = go (get 0 c.store) absent
  where
    not_waiting : contains 0 c.waiting ≡ false
    not_waiting = elim (Bool-cases (contains 0 c.waiting)) [
      | inl y ↦ let a : asked n 0 ≡ true = h.waits 0 y in ground arith
      | inr other ↦ other
    ]

    absent : get 0 c.store ≡ none
    absent = h.value 0

    at :
        (id : ℕ)
        → (if same id 0 then some own else get id c.store)
          ≡ (if ltb id n && not (contains id c.waiting) then message answers own id else none)
    at id = elim (Bool-cases (same id 0)) [
      | inl y ↦ rw ((same_iff id 0).0 y) (
          ap (λ z. if z then some own else none)
            (sym (ap₂ (λ a z. a && not z) (lt→ltb 0 n (omega arith)) not_waiting)))
      | inr other ↦
          let client : asked n id ≡ ltb id n = ground (arith, same_iff id 0) in
          let not_king : false ≡ (id == 0) = ground (arith, same_iff id 0) in
          ap (λ z. if z then some own else get id c.store) other
          ∙ h.value id
          ∙ ap₂
              (λ a q.
                if a && not (contains id c.waiting)
                then (if q then some own else got (answers id))
                else none)
              client not_king
    ]

    go :
        (o : Option Text)
        → o ≡ none
        → WithOwn answers n own c
            (elim o as (λ x. Map ℕ Text) [ none ↦ insert 0 own c.store | some _ ↦ c.store ])
    go none e = record {
      value = λ id. get-insert id 0 own c.store ∙ at id;
      counted =
          length-insert 0 own c.store absent
          ∙ ap suc h.counted
          ∙ sym (
              count-insert n 0 own c.store
                (ap (λ o. elim o as (λ x. Bool) [ none ↦ false | some _ ↦ true ]) absent)
              ∙ ground arith);
    }
    go (some x) e = cc e

-- What the king has: either a message of every party, in their order, or, when one is missing, the
-- messages of exactly those parties that are not waited for and whose answer is good, each under
-- the party that sent it.
abbrev pub IsFaithful : (ℕ → Answer Text) → ℕ → Text → Set ℕ → KingReceived → Type 0
IsFaithful answers n own waiting (full l) =
    (length l ≡ n)
    × ((id : ℕ)
        → id < n
        → (get_elem? l id ≡ message answers own id) × ¬ (message answers own id ≡ none))
IsFaithful answers n own waiting (partial ret) =
    ((id : ℕ) (b : Text) → get id ret ≡ some b → (id < n) × (message answers own id ≡ some b))
    × ((id : ℕ)
        → id < n
        → get id ret ≡ (if contains id waiting then none else message answers own id))
    × (id : ℕ) × (id < n)
    × (get id ret ≡ none)

-- In whatever order the clients answer, and whenever the timeout comes, the king does not panic. What it has then
-- is all messages, in the order of the parties; or one is missing, and it has its own bytes and the message of every
-- client whose task has ended with a good answer, each under its sender, and nothing else. When no task is left and
-- every client's answer is good, it has them all.
pub king_received-IsFaithful :
    (answers : ℕ → Answer Text) (n_parties : ℕ) (own : Text) (c : Collection)
    → 1 ≤ n_parties
    → Reaches answers (start_collection n_parties) c
    → (r : KingReceived) × (king_received n_parties own c.store ≡ some r)
      × IsFaithful answers n_parties own c.waiting r
      × (c.waiting ≡ []
          → ((id : ℕ) → 1 ≤ id → id < n_parties → ¬ (got (answers id) ≡ none))
          → (l : List Text) × (r ≡ full l))
unfolding king_received
king_received-IsFaithful answers n own c pos reached = elim (Bool-cases (length ret == n)) [
  | inl y ↦
      let all : (k : ℕ) → k < n → has k ret ≡ true =
        count_all n ret (sym h.counted ∙ (==_iff (length ret) n).0 y) in
      let (l, r, len, at) = remove_sorted-returns n 0 ret (λ k _ lt. all k (omega arith)) in
      (
        full l,
        ap (λ z. if z then taken (remove_sorted n 0 ret) else some (partial ret)) y ∙ ap taken r,
        (
          len,
          λ id lt.
              let (e, there) = present id (all id lt) in
              (at id lt ∙ ap (λ z. get z ret) (omega arith) ∙ e, there),
        ),
        λ _ _. (l, refl),
      )
  | inr p ↦
      let (k, lt, gone) = count_missing n ret (λ e. short p (h.counted ∙ e)) in
      (
        partial ret,
        ap (λ z. if z then taken (remove_sorted n 0 ret) else some (partial ret)) p,
        (λ id b e. sender id b e, exactly, k, lt, missing k gone),
        λ none_left good. absurd (arrived k lt none_left good (missing k gone)),
      )
]
  where
    ret : Map ℕ Text
    ret = with_own own c.store

    h : WithOwn answers n own c ret
    h = with_own-WithOwn answers n own c pos (Reaches-Collected answers n c reached)

    taken : Option (List Text) → Option KingReceived
    taken o = elim o [ none ↦ none | some sorted_ret ↦ some (full sorted_ret) ]

    short : (length ret == n) ≡ false → ¬ (length ret ≡ n)
    short p e = cc (sym p ∙ (==_iff (length ret) n).1 e)

    missing : (k : ℕ) → has k ret ≡ false → get k ret ≡ none
    missing k gone = elim (Option-cases (get k ret)) [
      | inl e ↦ e
      | inr (b, e) ↦
          cc (sym (ap (λ o. elim o as (λ x. Bool) [ none ↦ false | some _ ↦ true ]) e) ∙ gone)
    ]

    sender :
        (id : ℕ) (b : Text) → get id ret ≡ some b → (id < n) × (message answers own id ≡ some b)
    sender id b e = elim (Bool-cases (ltb id n && not (contains id c.waiting))) [
      | inl y ↦ (
        ground arith,
        sym (h.value id ∙ ap (λ z. if z then message answers own id else none) y) ∙ e,
      )
      | inr p ↦ cc (sym e ∙ h.value id ∙ ap (λ z. if z then message answers own id else none) p)
    ]

    exactly :
        (id : ℕ)
        → id < n
        → get id ret ≡ (if contains id c.waiting then none else message answers own id)
    exactly id lt =
        h.value id
        ∙ ap (λ z. if z && not (contains id c.waiting) then message answers own id else none)
            (lt→ltb id n lt)
        ∙ turned (contains id c.waiting)
      where
        turned :
            (w : Bool)
            → (if not w then message answers own id else none)
              ≡ (if w then none else message answers own id)
        turned true = refl
        turned false = refl

    present :
        (id : ℕ)
        → has id ret ≡ true
        → (get id ret ≡ message answers own id) × ¬ (message answers own id ≡ none)
    present id e = elim (Option-cases (get id ret)) [
      | inl q ↦ cc (sym (ap (λ o. elim o as (λ x. Bool) [ none ↦ false | some _ ↦ true ]) q) ∙ e)
      | inr (b, q) ↦ let m = (sender id b q).1 in (q ∙ sym m, λ u. cc (sym m ∙ u))
    ]

    arrived :
        (k : ℕ)
        → k < n
        → c.waiting ≡ []
        → ((id : ℕ) → 1 ≤ id → id < n → ¬ (got (answers id) ≡ none))
        → ¬ (get k ret ≡ none)
    arrived k lt none_left good e =
        let no_wait : contains k c.waiting ≡ false =
          ap (contains k) none_left ∙ unfold contains in refl in
        let m : message answers own k ≡ none =
          sym (
            h.value k
            ∙ ap (λ z. if z then message answers own k else none)
                (ap₂ (λ a z. a && not z) (lt→ltb k n lt) no_wait))
          ∙ e in
        elim (Bool-cases (k == 0)) [
          | inl y ↦ cc (sym (ap (λ z. if z then some own else got (answers k)) y) ∙ m)
          | inr p ↦
              good k (ground arith) lt
                (sym (ap (λ z. if z then some own else got (answers k)) p) ∙ m)
        ]
