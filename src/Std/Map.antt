-- ===== src/Std/Map.antt =====
-- `BTreeMap` as its list of entries in the order of the keys, and `BTreeSet` as that of its members.
use zk_pse.Base.{
  suc, length, List, [], ◌∷◌, ◌++◌, Bool, true, false, ◌||◌, Option, none, some, if◌then◌else◌, ◌≡◌,
  ◌↔◌, ◌⊎◌, eq_of_some, inl, inr, refl, sym, ap, ◌∙◌, Ordering, arith, Bool-cases,
}
use zk_pse.Std.Ord.{Ord, same, same_iff}

abbrev pub Map {ℓ κ} : Type ℓ → Type κ → Type (ℓ ⊔ κ)
Map K V = List (K × V)

abbrev pub Set {ℓ} : Type ℓ → Type ℓ
Set K = List K

module _ {ℓ κ} {K : Type ℓ} {V : Type κ} ⦃o : Ord K⦄ where
  unfoldable pub get : K → Map K V → Option V
  get k [] = none
  get k ((j, w) ∷ m) = if same k j then some w else get k m

  unfoldable pub insert : K → V → Map K V → Map K V
  insert k v [] = (k, v) ∷ []
  insert k v ((j, w) ∷ m) =
      let rest = insert k v m in
      elim (o.cmp k j) [
        | Ordering.lt ↦ (k, v) ∷ (j, w) ∷ m
        | Ordering.eq ↦ (k, v) ∷ m
        | Ordering.gt ↦ (j, w) ∷ rest
      ]

  unfoldable pub remove : K → Map K V → Map K V
  remove k [] = []
  remove k ((j, w) ∷ m) = if same k j then remove k m else (j, w) ∷ remove k m

  -- `entry(k).or_insert(v)` and then a change `g` of the value there.
  unfoldable pub entry : K → V → (V → V) → Map K V → Map K V
  entry k v g m = elim (get k m) [ none ↦ insert k (g v) m | some w ↦ insert k (g w) m ]

  pub get-insert :
      (j k : K) (v : V) (m : Map K V)
      → get j (insert k v m) ≡ (if same j k then some v else get j m)
  unfolding get insert
  get-insert j k v [] = refl
  get-insert j k v ((i, w) ∷ m) = go (o.cmp k i) (o.cmp_eq k i) (get-insert j k v m)
    where
      go :
          (c : Ordering)
          → (c ≡ Ordering.eq) ↔ (k ≡ i)
          → get j (insert k v m) ≡ (if same j k then some v else get j m)
          → get j (elim c [
            | Ordering.lt ↦ (k, v) ∷ (i, w) ∷ m
            | Ordering.eq ↦ (k, v) ∷ m
            | Ordering.gt ↦ (i, w) ∷ insert k v m
          ])
            ≡ (if same j k then some v else if same j i then some w else get j m)
      go Ordering.lt e ih = refl
      go Ordering.eq e ih = rw (← e.0 refl) (collapse (same j k))
        where
          collapse :
              (b : Bool)
              → (if b then some v else get j m)
                ≡ (if b then some v else if b then some w else get j m)
          collapse true = refl
          collapse false = refl
      go Ordering.gt e ih = ap (λ z. if same j i then some w else z) ih ∙ apart
        where
          apart :
              (if same j i then some w else if same j k then some v else get j m)
              ≡ (if same j k then some v else if same j i then some w else get j m)
          apart = elim (Bool-cases (same j i)) [
            | inl p ↦ elim (Bool-cases (same j k)) [
              | inl q ↦ cc (e.1 (sym ((same_iff j k).0 q) ∙ (same_iff j i).0 p))
              | inr q ↦ rw (p, q)
            ]
            | inr p ↦ rw p
          ]

  pub get-entry :
      (j k : K) (v : V) (g : V → V) (m : Map K V)
      → get j (entry k v g m)
        ≡ (if same j k then some (g (elim (get k m) [ none ↦ v | some w ↦ w ])) else get j m)
  unfolding entry
  get-entry j k v g m = go (get k m)
    where
      go :
          (e : Option V)
          → get j (elim e [ none ↦ insert k (g v) m | some w ↦ insert k (g w) m ])
            ≡ (if same j k then some (g (elim e [ none ↦ v | some w ↦ w ])) else get j m)
      go none = get-insert j k (g v) m
      go (some w) = get-insert j k (g w) m

module _ {ℓ κ} {K : Type ℓ} {V : Type κ} ⦃o : Ord K⦄ where
  -- A value found after an insertion is the one inserted, or was there before.
  pub get-insert_cases :
      (j k : K) (v w : V) (m : Map K V)
      → get j (insert k v m) ≡ some w
      → ((j ≡ k) × (v ≡ w)) ⊎ (get j m ≡ some w)
  get-insert_cases j k v w m e = elim (Bool-cases (same j k)) [
    | inl y ↦ inl (
      (same_iff j k).0 y,
      eq_of_some (sym (ap (λ x. if x then some v else get j m) y) ∙ sym (get-insert j k v m) ∙ e),
    )
    | inr n ↦ inr (sym (ap (λ x. if x then some v else get j m) n) ∙ sym (get-insert j k v m) ∙ e)
  ]

module _ {ℓ κ} {K : Type ℓ} {V : Type κ} ⦃o : Ord K⦄ where
  pub get-remove :
      (j k : K) (m : Map K V) → get j (remove k m) ≡ (if same j k then none else get j m)
  unfolding get remove
  get-remove j k [] = one (same j k)
    where
      one : (b : Bool) → ◌≡◌ {A = Option V} none (if b then none else none)
      one true = refl
      one false = refl
  get-remove j k ((i, w) ∷ m) = elim (Bool-cases (same k i)) [
    | inl y ↦ rw y (
        get-remove j k m ∙ elim (Bool-cases (same j k)) [
          | inl p ↦ rw p refl
          | inr p ↦ elim (Bool-cases (same j i)) [
            | inl q ↦ cc ((same_iff j k).1 ((same_iff j i).0 q ∙ sym ((same_iff k i).0 y)))
            | inr q ↦ rw (p, q) refl
          ]
        ])
    | inr n ↦ rw n (elim (Bool-cases (same j i)) [
      | inl q ↦ elim (Bool-cases (same j k)) [
        | inl p ↦ cc ((same_iff k i).1 (sym ((same_iff j k).0 p) ∙ (same_iff j i).0 q))
        | inr p ↦ rw (p, q) refl
      ]
      | inr q ↦ rw q (get-remove j k m)
    ])
  ]

  -- An insertion under a new key makes the map longer by one.
  pub length-insert :
      (k : K) (v : V) (m : Map K V) → get k m ≡ none → length (insert k v m) ≡ suc (length m)
  unfolding insert get
  length-insert k v [] e = refl
  length-insert k v ((j, w) ∷ m) e = go (o.cmp k j) (o.cmp_eq k j) (length-insert k v m)
    where
      go :
          (c : Ordering)
          → (c ≡ Ordering.eq) ↔ (k ≡ j)
          → (get k m ≡ none → length (insert k v m) ≡ suc (length m))
          → length (elim c as (λ x. List (K × V)) [
            | Ordering.lt ↦ (k, v) ∷ (j, w) ∷ m
            | Ordering.eq ↦ (k, v) ∷ m
            | Ordering.gt ↦ (j, w) ∷ insert k v m
          ])
            ≡ suc (suc (length m))
      go Ordering.lt q ih = refl
      go Ordering.eq q ih =
          cc (sym e ∙ ap (λ z. if z then some w else get k m) ((same_iff k j).1 (q.0 refl)))
      go Ordering.gt q ih = elim (Bool-cases (same k j)) [
        | inl y ↦ cc (q.1 ((same_iff k j).0 y))
        | inr n ↦ ap suc (ih (sym (ap (λ z. if z then some w else get k m) n) ∙ e))
      ]

module _ {ℓ} {K : Type ℓ} ⦃o : Ord K⦄ where
  unfoldable pub contains : K → Set K → Bool
  contains k [] = false
  contains k (j ∷ s) = same k j || contains k s

  unfoldable pub add : K → Set K → Set K
  add k [] = k ∷ []
  add k (j ∷ s) =
      let rest = add k s in
      elim (o.cmp k j) [ Ordering.lt ↦ k ∷ j ∷ s | Ordering.eq ↦ k ∷ s | Ordering.gt ↦ j ∷ rest ]

  unfoldable pub delete : K → Set K → Set K
  delete k [] = []
  delete k (j ∷ s) = if same k j then delete k s else j ∷ delete k s

  -- `extend`
  unfoldable pub add_all : List K → Set K → Set K
  add_all [] s = s
  add_all (k ∷ ks) s = add_all ks (add k s)

  pub contains-add : (j k : K) (s : Set K) → contains j (add k s) ≡ (same j k || contains j s)
  unfolding contains add
  contains-add j k [] = refl
  contains-add j k (i ∷ s) = go (o.cmp k i) (o.cmp_eq k i) (contains-add j k s)
    where
      swap : (a b c : Bool) → (b || (a || c)) ≡ (a || (b || c))
      swap true true c = refl
      swap true false c = refl
      swap false b c = refl

      twice : (a c : Bool) → (a || c) ≡ (a || (a || c))
      twice true c = refl
      twice false c = refl

      go :
          (c : Ordering)
          → (c ≡ Ordering.eq) ↔ (k ≡ i)
          → contains j (add k s) ≡ (same j k || contains j s)
          → contains j
              (elim c [ Ordering.lt ↦ k ∷ i ∷ s | Ordering.eq ↦ k ∷ s | Ordering.gt ↦ i ∷ add k s ])
            ≡ (same j k || (same j i || contains j s))
      go Ordering.lt e ih = refl
      go Ordering.eq e ih = rw (← e.0 refl) (twice (same j k) (contains j s))
      go Ordering.gt e ih = ap (◌||◌ (same j i)) ih ∙ swap (same j k) (same j i) (contains j s)

  pub contains-delete :
      (j k : K) (s : Set K) → contains j (delete k s) ≡ (if same j k then false else contains j s)
  unfolding contains delete
  contains-delete j k [] = ground arith
  contains-delete j k (i ∷ s) =
      ground (arith, contains-delete j k s, same_iff k i, same_iff j k, same_iff j i)

module _ {ℓ} {K : Type ℓ} ⦃o : Ord K⦄ where
  pub contains-append :
      (j : K) (xs ys : List K) → contains j (xs ++ ys) ≡ (contains j xs || contains j ys)
  unfolding contains
  contains-append j [] ys = refl
  contains-append j (x ∷ xs) ys =
      ap (◌||◌ (same j x)) (contains-append j xs ys)
      ∙ or_assoc (same j x) (contains j xs) (contains j ys)
    where
      or_assoc : (a b c : Bool) → (a || (b || c)) ≡ ((a || b) || c)
      or_assoc true b c = refl
      or_assoc false b c = refl

  -- No member stands twice.
  abbrev pub Unique : List K → Type 0
  Unique [] = Unit
  Unique (x ∷ xs) = (contains x xs ≡ false) × Unique xs

  pub Unique-concat :
      (xs : List K) (y : K) → Unique xs → contains y xs ≡ false → Unique (xs ++ y ∷ [])
  unfolding contains
  Unique-concat [] y u h = (refl, tt)
  Unique-concat (x ∷ xs) y u h = (
    contains-append x xs (y ∷ []) ∙ ground (arith, same_iff x y, same_iff y x),
    Unique-concat xs y u.1 (ground arith),
  )
