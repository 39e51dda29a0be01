-- ===== src/Sharing/Poly/Lagrange/Slope.antt =====
-- The denominators of `lagrange_interpolate`: the quotient by x - z, at z, is the slope of the
-- polynomial there, and the slope at one of several distinct roots is not zero.
use zk_pse.Base.{
  eq_of_some, ℕ, zero, suc, List, [], ◌∷◌, get_elem?, All, All-get_elem?, some, ◌≡◌, ◌≢◌, refl, sym,
  ap, ◌∙◌, subst,
}
use zk_pse.Algebra.{Field, ◌⊕◌, ◌⊗◌, ◌⊖◌}
use zk_pse.Algebra.Laws.{zero-mul, mul-zero, add-zero, sub-eq-zero, mul-ne-zero}
use zk_pse.Algebra.Ring.{ring, norm, v0, v1, v2, v3, v4, v5, ◌⊞◌, ◌⊠◌, ⊟, ø}
use zk_pse.Sharing.Poly.{eval, divide_linear}
use zk_pse.Sharing.Poly.Eval.{eval-nil, eval-cons}
use zk_pse.Sharing.Poly.Division.{divide_linear-remainder}
use zk_pse.Sharing.Poly.Roots.{sub_shifted, eval-sub_shifted, eval-shift_root, with_roots}

-- No two entries are equal.
abbrev pub Distinct {ℓ} : {A : Type ℓ} → List A → Type ℓ
Distinct [] = Unit
Distinct (x ∷ xs) = All (λ y. x ≢ y) xs × Distinct xs

module _ {ℓ} {F : Type ℓ} ⦃f : Field F⦄ where
  abbrev pub slope : List F → F → F
  slope p x = eval (divide_linear x p).0 x

  slope-cons : (c : F) (p : List F) (x : F) → slope (c ∷ p) x ≡ (slope p x ⊗ x) ⊕ eval p x
  unfolding divide_linear
  slope-cons c p x = eval-cons _ _ x ∙ ap (λ z. (slope p x ⊗ x) ⊕ z) (divide_linear-remainder x p)

  slope-nil : (x : F) → slope [] x ≡ f.zero
  unfolding divide_linear
  slope-nil x = eval-nil x

  slope-sub_shifted :
      (y c : F) (p : List F) (x : F)
      → slope (sub_shifted y (c ∷ p)) x ≡ slope (c ∷ p) x ⊖ (slope p x ⊗ y)
  unfolding sub_shifted norm
  slope-sub_shifted y c [] x = sym (
      ap (λ z. slope (c ∷ []) x ⊖ (z ⊗ y)) (slope-nil x)
      ∙ ring (slope (c ∷ []) x ∷ y ∷ []) (v0 ⊞ ⊟ (ø ⊠ v1)) v0 refl)
  slope-sub_shifted y c (d ∷ p) x =
      slope-cons (c ⊖ (d ⊗ y)) (sub_shifted y (d ∷ p)) x
      ∙ ap (λ z. (z ⊗ x) ⊕ eval (sub_shifted y (d ∷ p)) x) (slope-sub_shifted y d p x)
      ∙ ap (λ z. ((slope (d ∷ p) x ⊖ (slope p x ⊗ y)) ⊗ x) ⊕ z) (eval-sub_shifted y d p x)
      ∙ ring (slope (d ∷ p) x ∷ slope p x ∷ y ∷ x ∷ eval (d ∷ p) x ∷ eval p x ∷ [])
          ((v0 ⊞ ⊟ (v1 ⊠ v2)) ⊠ v3 ⊞ (v4 ⊞ ⊟ (v5 ⊠ v2))) (v0 ⊠ v3 ⊞ v4 ⊞ ⊟ ((v1 ⊠ v3 ⊞ v5) ⊠ v2))
          refl
      ∙ sym (
          rw (slope-cons c (d ∷ p) x)
            (ap (λ z. ((slope (d ∷ p) x ⊗ x) ⊕ eval (d ∷ p) x) ⊖ (z ⊗ y)) (slope-cons d p x)))

  -- The product rule for (x - y) c.
  slope-shift_root :
      (y : F) (c : List F) (x : F)
      → slope (sub_shifted y (f.zero ∷ c)) x ≡ (slope c x ⊗ (x ⊖ y)) ⊕ eval c x
  unfolding norm
  slope-shift_root y c x =
      slope-sub_shifted y f.zero c x
      ∙ ap (λ z. z ⊖ (slope c x ⊗ y)) (slope-cons f.zero c x)
      ∙ ring (slope c x ∷ x ∷ eval c x ∷ y ∷ []) (v0 ⊠ v1 ⊞ v2 ⊞ ⊟ (v0 ⊠ v3))
          (v0 ⊠ (v1 ⊞ ⊟ v3) ⊞ v2) refl

  -- A simple root stays simple.
  slope_keeps :
      (c xs : List F) (z : F)
      → eval c z ≡ f.zero
      → slope c z ≢ f.zero
      → All (λ y. z ≢ y) xs
      → slope (with_roots c xs) z ≢ f.zero
  unfolding with_roots
  slope_keeps c [] z root simple h = simple
  slope_keeps c (y ∷ xs) z root simple h =
      slope_keeps (sub_shifted y (f.zero ∷ c)) xs z
        (eval-shift_root y c z ∙ ap (λ v. v ⊗ (z ⊖ y)) root ∙ zero-mul _)
        (λ e.
          mul-ne-zero _ _ simple (λ d. h.0 (sub-eq-zero z y d))
            (sym (add-zero _)
              ∙ ap (◌⊕◌ (slope c z ⊗ (z ⊖ y))) (sym root)
              ∙ sym (slope-shift_root y c z)
              ∙ e))
        h.1

  pub slope-ne-zero :
      (c xs : List F) (i : ℕ) {z : F}
      → eval c z ≢ f.zero
      → Distinct xs
      → get_elem? xs i ≡ some z
      → slope (with_roots c xs) z ≢ f.zero
  unfolding with_roots
  slope-ne-zero c [] i nonzero h e = cc
  slope-ne-zero c (y ∷ xs) zero {z} nonzero h e =
      slope_keeps (sub_shifted y (f.zero ∷ c)) xs z
        (eval-shift_root y c z ∙ ap (◌⊗◌ (eval c z)) apart ∙ mul-zero _)
        (λ s. nonzero (
          sym (ap (λ v. v ⊕ eval c z) (ap (◌⊗◌ (slope c z)) apart ∙ mul-zero _) ∙ f.zero-add _)
          ∙ sym (slope-shift_root y c z)
          ∙ s))
        (subst (λ v. All (λ u. v ≢ u) xs) (eq_of_some e) h.0)
    where
      apart : z ⊖ y ≡ f.zero
      apart = ap (λ v. z ⊖ v) (eq_of_some e) ∙ f.add-neg z
  slope-ne-zero c (y ∷ xs) (suc i) {z} nonzero h e =
      slope-ne-zero (sub_shifted y (f.zero ∷ c)) xs i
        (λ s.
          mul-ne-zero _ _ nonzero
            (λ d. All-get_elem? (λ u. y ≢ u) xs i h.0 e (sym (sub-eq-zero z y d)))
            (sym (eval-shift_root y c z) ∙ s))
        h.1 e
