-- ===== src/Net/Exchange/Counted.antt =====
-- Counting the keys of the store, and taking its values out in order.
use zk_pse.Base.{
  ℕ, zero, suc, ◌+◌, ◌<◌, ◌≤◌, ◌==◌, ==_iff, Bool, true, false, if◌then◌else◌, List, [], ◌∷◌,
  length, get_elem?, Option, none, some, ◌≡◌, refl, sym, ap, ap₂, ◌∙◌, arith, Bool-cases,
  Option-cases, inl, inr,
}
use zk_pse.Std.Ord.{nat_ord, same, same_iff}
use zk_pse.Std.Map.{Map, get, remove, get-remove}
use zk_pse.Std.Text.{Text}
use zk_pse.Net.Exchange.{remove_sorted}
use zk_pse.Net.Exchange.Collected.{has, count}

count_bound : (n : ℕ) (m : Map ℕ Text) → count n m ≤ n
unfolding count
count_bound zero m = omega arith
count_bound (suc n) m = ground (arith, count_bound n m)

-- All ids below `n` are keys when there are `n` of them.
pub count_all : (n : ℕ) (m : Map ℕ Text) → count n m ≡ n → (k : ℕ) → k < n → has k m ≡ true
unfolding count
count_all zero m e k lt = absurd (omega arith)
count_all (suc n) m e k lt = elim (Bool-cases (has n m)) [
  | inl y ↦
      let e' : count n m ≡ n =
        let r = ap (λ z. (if z then 1 else 0) + count n m) (sym y) ∙ e in omega arith in
      elim (Bool-cases (k == n)) [
        | inl q ↦ ap (λ z. has z m) ((==_iff k n).0 q) ∙ y
        | inr other ↦ count_all n m e' k (ground arith)
      ]
  | inr p ↦
      let r = ap (λ z. (if z then 1 else 0) + count n m) (sym p) ∙ e in
      absurd (omega (arith, count_bound n m))
]

-- If there are fewer, one is missing.
pub count_missing :
    (n : ℕ) (m : Map ℕ Text) → ¬ (count n m ≡ n) → (k : ℕ) × (k < n) × (has k m ≡ false)
unfolding count
count_missing zero m e = absurd (e refl)
count_missing (suc n) m e = elim (Bool-cases (has n m)) [
  | inl y ↦
      let (k, lt, p) =
        count_missing n m (λ q. e (ap₂ (λ z x. (if z then 1 else 0) + x) y q ∙ omega arith)) in
      (k, omega arith, p)
  | inr p ↦ (n, omega arith, p)
]

abbrev put_first : Option Text → Option (List Text) → Option (List Text)
put_first first rest = elim first [
  | none ↦ none
  | some b ↦ elim rest [ none ↦ none | some bs ↦ some (b ∷ bs) ]
]

-- When the ids from `x` on have values, they are taken out in order.
pub remove_sorted-returns :
    (left x : ℕ) (ret : Map ℕ Text)
    → ((k : ℕ) → x ≤ k → k < x + left → has k ret ≡ true)
    → (l : List Text) × (remove_sorted left x ret ≡ some l)
      × (length l ≡ left)
      × ((i : ℕ) → i < left → get_elem? l i ≡ get (x + i) ret)
unfolding remove_sorted
remove_sorted-returns zero x ret all = ([], refl, refl, λ i lt. absurd (omega arith))
remove_sorted-returns (suc left) x ret all = elim (Option-cases (get x ret)) [
  | inl e ↦ cc (
      sym (ap (λ o. elim o as (λ x. Bool) [ none ↦ false | some _ ↦ true ]) e)
      ∙ all x (omega arith) (omega arith))
  | inr (b, e) ↦
      let kept : (k : ℕ) → suc x ≤ k → get k (remove x ret) ≡ get k ret = λ k le.
        let apart : same k x ≡ false = ground (arith, same_iff k x) in
        get-remove k x ret ∙ ap (λ z. if z then none else get k ret) apart in
      let (l, r, len, at) = remove_sorted-returns left (suc x) (remove x ret) (λ k le lt.
        ap (λ o. elim o as (λ x. Bool) [ none ↦ false | some _ ↦ true ]) (kept k le)
        ∙ all k (omega arith) (omega arith)) in
      (
        b ∷ l,
        ap₂ put_first e r,
        ap suc len,
        λ i lt.
            elim i as (λ i. i < suc left → get_elem? (b ∷ l) i ≡ get (x + i) ret) [
              | zero ↦ λ _. sym (ap (λ z. get z ret) (omega arith) ∙ e)
              | suc j ↦ λ lt'.
                  at j (omega arith)
                  ∙ kept (suc x + j) (omega arith)
                  ∙ ap (λ z. get z ret) (omega arith)
            ]
              lt,
      )
]
