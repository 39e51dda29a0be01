-- ===== src/Std/Sort.antt =====
-- `sort` and `sort_by` of the standard library: stable, and here by insertion.
use zk_pse.Base.{
  ℕ, ◌≤◌, All, arith, Bool, true, false, ◌||◌, List, [], ◌∷◌, ◌≡◌, refl, ap, ◌∙◌, Ordering,
}
use zk_pse.Std.Ord.{Ord, same, nat_ord}
use zk_pse.Std.Map.{contains}

module _ {ℓ} {K : Type ℓ} ⦃o : Ord K⦄ where
  -- before the first entry that is not smaller
  unfoldable pub insert_sorted : K → List K → List K
  insert_sorted k [] = k ∷ []
  insert_sorted k (j ∷ ks) =
      let rest = insert_sorted k ks in elim (o.cmp j k) [ Ordering.lt ↦ j ∷ rest | _ ↦ k ∷ j ∷ ks ]

  unfoldable pub sort : List K → List K
  sort [] = []
  sort (k ∷ ks) = insert_sorted k (sort ks)

  contains-insert_sorted :
      (j k : K) (ks : List K) → contains j (insert_sorted k ks) ≡ (same j k || contains j ks)
  unfolding insert_sorted contains
  contains-insert_sorted j k [] = refl
  contains-insert_sorted j k (i ∷ ks) = go (o.cmp i k) (contains-insert_sorted j k ks)
    where
      swap : (a b c : Bool) → (b || (a || c)) ≡ (a || (b || c))
      swap true true c = refl
      swap true false c = refl
      swap false b c = refl

      go :
          (c : Ordering)
          → contains j (insert_sorted k ks) ≡ (same j k || contains j ks)
          → contains j (elim c [ Ordering.lt ↦ i ∷ insert_sorted k ks | _ ↦ k ∷ i ∷ ks ])
            ≡ (same j k || (same j i || contains j ks))
      go Ordering.lt ih = ap (◌||◌ (same j i)) ih ∙ swap (same j k) (same j i) (contains j ks)
      go Ordering.eq ih = refl
      go Ordering.gt ih = refl

  -- Sorting keeps the entries.
  pub contains-sort : (j : K) (ks : List K) → contains j (sort ks) ≡ contains j ks
  unfolding sort contains
  contains-sort j [] = refl
  contains-sort j (k ∷ ks) =
      contains-insert_sorted j k (sort ks) ∙ ap (◌||◌ (same j k)) (contains-sort j ks)

-- No entry is greater than one behind it.
abbrev pub IsSorted : List ℕ → Type 0
IsSorted [] = Unit
IsSorted (x ∷ xs) = All (λ y. x ≤ y) xs × IsSorted xs

All-insert_sorted :
    (x k : ℕ) (ks : List ℕ) → x ≤ k → All (λ y. x ≤ y) ks → All (λ y. x ≤ y) (insert_sorted k ks)
unfolding insert_sorted
All-insert_sorted x k [] le all = (le, tt)
All-insert_sorted x k (j ∷ ks) le (le', all) =
    go (nat_ord.cmp j k) (All-insert_sorted x k ks le all)
  where
    go :
        (c : Ordering)
        → All (λ y. x ≤ y) (insert_sorted k ks)
        → All (λ y. x ≤ y) (elim c [ Ordering.lt ↦ j ∷ insert_sorted k ks | _ ↦ k ∷ j ∷ ks ])
    go Ordering.lt ih = (le', ih)
    go Ordering.eq ih = (le, (le', all))
    go Ordering.gt ih = (le, (le', all))

All-le : (k j : ℕ) (ks : List ℕ) → k ≤ j → All (λ y. j ≤ y) ks → All (λ y. k ≤ y) ks
All-le k j [] le all = tt
All-le k j (i ∷ ks) le (le', all) = (omega arith, All-le k j ks le all)

insert_sorted-IsSorted : (k : ℕ) (ks : List ℕ) → IsSorted ks → IsSorted (insert_sorted k ks)
unfolding insert_sorted
insert_sorted-IsSorted k [] s = (tt, tt)
insert_sorted-IsSorted k (j ∷ ks) (all, s) =
    go (nat_ord.cmp j k) refl (insert_sorted-IsSorted k ks s)
  where
    first : k ≤ j → IsSorted (k ∷ j ∷ ks)
    first le = ((le, All-le k j ks le all), (all, s))

    go :
        (c : Ordering)
        → nat_ord.cmp j k ≡ c
        → IsSorted (insert_sorted k ks)
        → IsSorted (elim c [ Ordering.lt ↦ j ∷ insert_sorted k ks | _ ↦ k ∷ j ∷ ks ])
    go Ordering.lt e ih = (All-insert_sorted j k ks (ground arith) all, ih)
    go Ordering.eq e ih = first (ground arith)
    go Ordering.gt e ih = first (ground arith)

pub sort-IsSorted : (ks : List ℕ) → IsSorted (sort ks)
unfolding sort
sort-IsSorted [] = tt
sort-IsSorted (k ∷ ks) = insert_sorted-IsSorted k (sort ks) (sort-IsSorted ks)
