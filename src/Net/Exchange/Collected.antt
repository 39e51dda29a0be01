-- ===== src/Net/Exchange/Collected.antt =====
-- What the king has collected at the timeout, in whatever order the clients' tasks ended.
use zk_pse.Base.{
  ℕ, zero, suc, ◌+◌, ◌-◌, ◌==◌, ==_iff, leb, ltb, Bool, true, false, not, ◌&&◌, ◌||◌, if◌then◌else◌,
  [], length, Option, none, some, ◌≡◌, refl, sym, ap, ap₂, ◌∙◌, arith, Bool-cases, inl, inr, subst,
}
use zk_pse.Std.Ord.{nat_ord, same, same_iff}
use zk_pse.Std.Map.{Map, get, insert, get-insert, length-insert, contains, delete, contains-delete}
use zk_pse.Std.Text.{Text}
use zk_pse.Net.{Answer, ok, err}
use zk_pse.Net.Exchange.{Collection, clients, start_collection, on_answer, Reaches, start, answer}

-- the bytes of an answer
abbrev pub got : Answer Text → Option Text
got (ok b) = some b
got (err e) = none

-- Whether the king waits for a message of `id`.
abbrev pub asked : ℕ → ℕ → Bool
asked n_parties id = leb 1 id && ltb id n_parties

abbrev pub has : ℕ → Map ℕ Text → Bool
has k m = elim (get k m) [ none ↦ false | some _ ↦ true ]

-- how many of the ids below `n` are keys
unfoldable pub count : ℕ → Map ℕ Text → ℕ
count zero m = 0
count (suc n) m = (if has n m then 1 else 0) + count n m

pub has-insert :
    (j k : ℕ) (v : Text) (m : Map ℕ Text) → has j (insert k v m) ≡ (same j k || has j m)
has-insert j k v m =
    ap (λ o. elim o as (λ x. Bool) [ none ↦ false | some _ ↦ true ]) (get-insert j k v m)
    ∙ one (same j k)
  where
    one :
        (b : Bool)
        → (elim (if b then some v else get j m) as (λ x. Bool) [ none ↦ false | some _ ↦ true ])
          ≡ (b || has j m)
    one true = refl
    one false = refl

pub count-insert :
    (n k : ℕ) (v : Text) (m : Map ℕ Text)
    → has k m ≡ false
    → count n (insert k v m) ≡ (if ltb k n then suc (count n m) else count n m)
unfolding count
count-insert zero k v m fresh = ground arith
count-insert (suc n) k v m fresh =
    ap₂ (λ a c. (if a then 1 else 0) + c) (has-insert n k v m) (count-insert n k v m fresh)
    ∙ elim (Bool-cases (n == k)) [
      | inl y ↦
          let e : n ≡ k = (==_iff n k).0 y in
          ground (arith, same_iff n k, fresh, ap (λ z. has z m) e)
      | inr other ↦ ground (arith, same_iff n k)
    ]

contains-clients : (id left j : ℕ) → contains id (clients left j) ≡ (leb j id && ltb id (j + left))
unfolding contains clients
contains-clients id zero j = ground arith
contains-clients id (suc left) j = ground (arith, contains-clients id left (suc j), same_iff id j)

pub record Collected (answers : ℕ → Answer Text) (n_parties : ℕ) (c : Collection) : Type 0 where
  pub value :
      (id : ℕ)
      → get id c.store
        ≡ (if asked n_parties id && not (contains id c.waiting) then got (answers id) else none)
  pub waits : (id : ℕ) → contains id c.waiting ≡ true → asked n_parties id ≡ true
  pub counted : length c.store ≡ count n_parties c.store

count-nil : (n : ℕ) → count n [] ≡ 0
unfolding count get
count-nil zero = refl
count-nil (suc n) = omega (arith, count-nil n)

start_collection-Collected :
    (answers : ℕ → Answer Text) (n : ℕ) → Collected answers n (start_collection n)
unfolding start_collection get
start_collection-Collected answers n = record {
  value = λ id. ap (λ z. if z then got (answers id) else none) (none_yet id);
  waits = λ id e. ground (arith, contains-clients id (n - 1) 1);
  counted = sym (count-nil n);
}
  where
    none_yet : (id : ℕ) → false ≡ (asked n id && not (contains id (clients (n - 1) 1)))
    none_yet id = ground (arith, contains-clients id (n - 1) 1)

-- A client that the king waits for has nothing stored.
fresh :
    (answers : ℕ → Answer Text) (n id : ℕ) (c : Collection)
    → Collected answers n c
    → contains id c.waiting ≡ true
    → get id c.store ≡ none
fresh answers n id c h w =
    h.value id
    ∙ ap (λ z. if z then got (answers id) else none) (waited (asked n id) (contains id c.waiting) w)
  where
    waited : (a b : Bool) → b ≡ true → (a && not b) ≡ false
    waited true true e = refl
    waited true false e = cc e
    waited false b e = refl

on_answer-Collected :
    (answers : ℕ → Answer Text) (n id : ℕ) (c : Collection)
    → Collected answers n c
    → contains id c.waiting ≡ true
    → Collected answers n (on_answer id (answers id) c)
unfolding on_answer
on_answer-Collected answers n id c h w = go (answers id) refl
  where
    others :
        (k : ℕ) (stored : Option Text)
        → (same k id ≡ true → stored ≡ got (answers id))
        → (same k id ≡ false → stored ≡ get k c.store)
        → stored
          ≡ (if asked n k && not (contains k (delete id c.waiting)) then got (answers k) else none)
    others k stored here there = elim (Bool-cases (same k id)) [
      | inl y ↦
          let eq : k ≡ id = (same_iff k id).0 y in
          let open_now : (asked n k && not (contains k (delete id c.waiting))) ≡ true = rw eq (
            ap₂ (λ a z. a && not z) (h.waits id w)
              (contains-delete id id c.waiting
                ∙ ap (λ z. if z then false else contains id c.waiting)
                    ((same_iff id id).1 refl))) in
          here y
          ∙ ap (λ z. got (answers z)) (sym eq)
          ∙ ap (λ z. if z then got (answers k) else none) (sym open_now)
      | inr other ↦
          there other
          ∙ h.value k
          ∙ ap (λ z. if asked n k && not z then got (answers k) else none)
              (sym (
                contains-delete k id c.waiting
                ∙ ap (λ z. if z then false else contains k c.waiting) other))
    ]

    still_asked : (k : ℕ) → contains k (delete id c.waiting) ≡ true → asked n k ≡ true
    still_asked k e = h.waits k (ground (arith, contains-delete k id c.waiting))

    go : (a : Answer Text) → answers id ≡ a → Collected answers n (on_answer id a c)
    go (ok b) e = record {
      value = λ k.
          others k (get k (insert id b c.store))
            (λ y.
              get-insert k id b c.store
              ∙ ap (λ z. if z then some b else get k c.store) y
              ∙ sym (ap got e))
            (λ other.
              get-insert k id b c.store ∙ ap (λ z. if z then some b else get k c.store) other);
      waits = still_asked;
      counted =
          let gone = fresh answers n id c h w in
          length-insert id b c.store gone
          ∙ ap suc h.counted
          ∙ sym (
              count-insert n id b c.store
                (ap (λ o. elim o as (λ x. Bool) [ none ↦ false | some _ ↦ true ]) gone)
              ∙ ground (arith, h.waits id w));
    }
    go (err x) e = record {
      value = λ k.
          others k (get k c.store)
            (λ y.
              ap (λ z. get z c.store) ((same_iff k id).0 y)
              ∙ fresh answers n id c h w
              ∙ sym (ap got e))
            (λ other. refl);
      waits = still_asked;
      counted = h.counted;
    }

pub Reaches-Collected :
    (answers : ℕ → Answer Text) (n_parties : ℕ) (c : Collection)
    → Reaches answers (start_collection n_parties) c
    → Collected answers n_parties c
Reaches-Collected answers n c (start c' e) =
    subst (Collected answers n) (sym e) (start_collection-Collected answers n)
Reaches-Collected answers n c (answer id c1 c' r w e) =
    subst (Collected answers n) (sym e)
      (on_answer-Collected answers n id c1 (Reaches-Collected answers n c1 r) w)
