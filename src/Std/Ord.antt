-- ===== src/Std/Ord.antt =====
-- `std::cmp::Ord`, the order that `BTreeMap` and `BTreeSet` keep their keys in.
use zk_pse.Base.{ℕ, List, [], ◌∷◌, Bool, true, false, ◌≡◌, ◌↔◌, refl, compare, Ordering, arith}

pub record Ord {ℓ} (K : Type ℓ) : Type ℓ where
  pub cmp : K → K → Ordering
  pub cmp_eq : (a b : K) → (cmp a b ≡ Ordering.eq) ↔ (a ≡ b)

-- `a == b`, for keys.
abbrev pub same {ℓ} : {K : Type ℓ} ⦃o : Ord K⦄ → K → K → Bool
same ⦃o⦄ a b = elim (o.cmp a b) [ Ordering.eq ↦ true | _ ↦ false ]

pub same_iff {ℓ} : {K : Type ℓ} ⦃o : Ord K⦄ (a b : K) → (same a b ≡ true) ↔ (a ≡ b)
same_iff ⦃o⦄ a b = go (o.cmp a b) (o.cmp_eq a b)
  where
    go :
        (c : Ordering)
        → (c ≡ Ordering.eq) ↔ (a ≡ b)
        → (elim c [ Ordering.eq ↦ true | _ ↦ false ] ≡ true) ↔ (a ≡ b)
    go Ordering.lt e = (λ h. cc, λ h. cc (e.1 h))
    go Ordering.eq e = (λ _. e.0 refl, λ _. refl)
    go Ordering.gt e = (λ h. cc, λ h. cc (e.1 h))

pub compare_eq : (a b : ℕ) → (compare a b ≡ Ordering.eq) ↔ (a ≡ b)
compare_eq a b = ground arith

instance abbrev pub nat_ord : Ord ℕ
nat_ord = record { cmp = compare; cmp_eq = compare_eq }

-- `Ordering::then`
abbrev pub then_with : Ordering → Ordering → Ordering
then_with Ordering.eq o = o
then_with Ordering.lt o = Ordering.lt
then_with Ordering.gt o = Ordering.gt

abbrev pub compare_pair : ℕ × ℕ → ℕ × ℕ → Ordering
compare_pair (a, b) (c, d) = then_with (compare a c) (compare b d)

pub compare_pair_eq : (p q : ℕ × ℕ) → (compare_pair p q ≡ Ordering.eq) ↔ (p ≡ q)
compare_pair_eq (a, b) (c, d) = ground arith

instance abbrev pub pair_ord : Ord (ℕ × ℕ)
pair_ord = record { cmp = compare_pair; cmp_eq = compare_pair_eq }

-- Strings compare by their bytes.
abbrev pub compare_bytes : List ℕ → List ℕ → Ordering
compare_bytes [] [] = Ordering.eq
compare_bytes [] (y ∷ ys) = Ordering.lt
compare_bytes (x ∷ xs) [] = Ordering.gt
compare_bytes (x ∷ xs) (y ∷ ys) = then_with (compare x y) (compare_bytes xs ys)

pub compare_bytes_eq : (xs ys : List ℕ) → (compare_bytes xs ys ≡ Ordering.eq) ↔ (xs ≡ ys)
compare_bytes_eq [] [] = (λ _. refl, λ _. refl)
compare_bytes_eq [] (y ∷ ys) = (λ h. cc, λ h. cc)
compare_bytes_eq (x ∷ xs) [] = (λ h. cc, λ h. cc)
compare_bytes_eq (x ∷ xs) (y ∷ ys) = ground (arith, compare_bytes_eq xs ys)

instance abbrev pub bytes_ord : Ord (List ℕ)
bytes_ord = record { cmp = compare_bytes; cmp_eq = compare_bytes_eq }
