-- ===== src/Sharing/Pss/Product/Times.antt =====
-- Products of polynomials, and what transforms make of them.
use zk_pse.Base.{
  ℕ, zero, suc, ◌+◌, ◌*◌, ◌≤◌, List, [], ◌∷◌, ◌++◌, map, length, resize, take, zip_with, ◌≡◌, refl,
  sym, ap, ap₂, ◌∙◌, arith, length-map, fun_ext,
}
use zk_pse.Algebra.{Field, DomainCoeff, ◌⊕◌, ◌⊗◌}
use zk_pse.Algebra.Laws.{zero-mul, mul-zero, add-zero, mul-one}
use zk_pse.Algebra.Ring.{ring, norm, v0, v1, v2, v3, v4, ◌⊞◌, ◌⊠◌, ø}
use zk_pse.Sharing.Poly.Lagrange.Coeff.{eval_coeff}
use zk_pse.Sharing.Pss.{EvaluationDomain, step_by_two}

pub scale_plus {ℓ} : {F : Type ℓ} ⦃f : Field F⦄ (a c e : F) → a ⊗ (c ⊕ e) ≡ (a ⊗ c) ⊕ (a ⊗ e)
unfolding norm
scale_plus a c e = ring (a ∷ c ∷ e ∷ []) (v0 ⊠ (v1 ⊞ v2)) (v0 ⊠ v1 ⊞ v0 ⊠ v2) refl

-- A field is its own coefficients.
instance abbrev pub field_coeff {ℓ} : {F : Type ℓ} ⦃f : Field F⦄ → DomainCoeff F F
field_coeff ⦃f⦄ = record {
  zero = f.zero;
  add = f.add;
  neg = f.neg;
  scale = f.mul;
  beq = f.beq;
  beq_iff = f.beq_iff;
  add_assoc = f.add_assoc;
  add_comm = f.add_comm;
  zero-add = f.zero-add;
  add-neg = f.add-neg;
  scale-add = f.add-mul;
  scale-plus = scale_plus ⦃f = f⦄;
  scale-scale = f.mul_assoc;
  scale-one = mul-one ⦃f = f⦄;
}

module _ {ℓ} {F : Type ℓ} ⦃f : Field F⦄ where
  -- The value of a polynomial over the field.
  pub value : List F → F → F
  value c x = eval_coeff c x

  pub value-cons : (a : F) (p : List F) (x : F) → value (a ∷ p) x ≡ (value p x ⊗ x) ⊕ a
  unfolding value eval_coeff
  value-cons a p x = refl

  pub value-nil : (x : F) → value [] x ≡ f.zero
  unfolding value eval_coeff
  value-nil x = refl

  pub plus_poly : List F → List F → List F
  plus_poly [] q = q
  plus_poly (a ∷ p) [] = a ∷ p
  plus_poly (a ∷ p) (b ∷ q) = (a ⊕ b) ∷ plus_poly p q

  pub scale_poly : F → List F → List F
  scale_poly a q = map (f.mul a) q

  pub times_poly : List F → List F → List F
  unfolding plus_poly scale_poly
  times_poly [] q = []
  times_poly (a ∷ p) q = plus_poly (scale_poly a q) (f.zero ∷ times_poly p q)

  pub value-plus_poly : (p q : List F) (x : F) → value (plus_poly p q) x ≡ value p x ⊕ value q x
  unfolding plus_poly norm
  value-plus_poly [] q x = sym (ap (λ z. z ⊕ value q x) (value-nil x) ∙ f.zero-add _)
  value-plus_poly (a ∷ p) [] x = sym (ap (◌⊕◌ (value (a ∷ p) x)) (value-nil x) ∙ add-zero _)
  value-plus_poly (a ∷ p) (b ∷ q) x =
      value-cons _ (plus_poly p q) x
      ∙ ap (λ z. (z ⊗ x) ⊕ (a ⊕ b)) (value-plus_poly p q x)
      ∙ ring (value p x ∷ value q x ∷ x ∷ a ∷ b ∷ []) ((v0 ⊞ v1) ⊠ v2 ⊞ (v3 ⊞ v4))
          ((v0 ⊠ v2 ⊞ v3) ⊞ (v1 ⊠ v2 ⊞ v4)) refl
      ∙ ap₂ ◌⊕◌ (sym (value-cons a p x)) (sym (value-cons b q x))

  pub value-scale_poly : (a : F) (q : List F) (x : F) → value (scale_poly a q) x ≡ a ⊗ value q x
  unfolding scale_poly norm
  value-scale_poly a [] x = value-nil x ∙ sym (ap (◌⊗◌ a) (value-nil x) ∙ mul-zero a)
  value-scale_poly a (b ∷ q) x =
      value-cons _ (map (f.mul a) q) x
      ∙ ap (λ z. (z ⊗ x) ⊕ (a ⊗ b)) (value-scale_poly a q x)
      ∙ ring (a ∷ value q x ∷ x ∷ b ∷ []) ((v0 ⊠ v1) ⊠ v2 ⊞ v0 ⊠ v3) (v0 ⊠ (v1 ⊠ v2 ⊞ v3)) refl
      ∙ ap (◌⊗◌ a) (sym (value-cons b q x))

  pub value-times_poly : (p q : List F) (x : F) → value (times_poly p q) x ≡ value p x ⊗ value q x
  unfolding times_poly norm
  value-times_poly [] q x = value-nil x ∙ sym (ap (λ z. z ⊗ value q x) (value-nil x) ∙ zero-mul _)
  value-times_poly (a ∷ p) q x =
      value-plus_poly (scale_poly a q) (f.zero ∷ times_poly p q) x
      ∙ ap₂ ◌⊕◌ (value-scale_poly a q x) (value-cons f.zero (times_poly p q) x)
      ∙ ap (λ z. (a ⊗ value q x) ⊕ ((z ⊗ x) ⊕ f.zero)) (value-times_poly p q x)
      ∙ ring (a ∷ value q x ∷ value p x ∷ x ∷ []) (v0 ⊠ v1 ⊞ ((v2 ⊠ v1) ⊠ v3 ⊞ ø))
          ((v2 ⊠ v3 ⊞ v0) ⊠ v1) refl
      ∙ ap (λ z. z ⊗ value q x) (sym (value-cons a p x))

  pub length-plus_poly :
      (p q : List F) (k : ℕ) → length p ≤ k → length q ≤ k → length (plus_poly p q) ≤ k
  unfolding plus_poly
  length-plus_poly [] q k hp hq = hq
  length-plus_poly (a ∷ p) [] k hp hq = hp
  length-plus_poly (a ∷ p) (b ∷ q) zero hp hq = absurd (omega arith)
  length-plus_poly (a ∷ p) (b ∷ q) (suc k) hp hq =
      omega (arith, length-plus_poly p q k (omega arith) (omega arith))

  pub length-times_poly : (p q : List F) → length (times_poly p q) ≤ length p + length q
  unfolding times_poly scale_poly
  length-times_poly [] q = omega arith
  length-times_poly (a ∷ p) q =
      length-plus_poly (map (f.mul a) q) (f.zero ∷ times_poly p q) (length (a ∷ p) + length q)
        (omega (arith, length-map (f.mul a) q)) (omega (arith, length-times_poly p q))

  pub value-resize :
      (k : ℕ) (c : List F) (x : F) → length c ≤ k → value (resize k f.zero c) x ≡ value c x
  value-resize zero [] x h = refl
  value-resize zero (a ∷ c) x h = absurd (omega arith)
  value-resize (suc k) [] x h =
      value-cons f.zero _ x
      ∙ ap (λ z. (z ⊗ x) ⊕ f.zero) (value-resize k [] x (omega arith) ∙ value-nil x)
      ∙ add-zero _
      ∙ zero-mul x
      ∙ sym (value-nil x)
  value-resize (suc k) (a ∷ c) x h =
      value-cons a _ x
      ∙ ap (λ z. (z ⊗ x) ⊕ a) (value-resize k c x (omega arith))
      ∙ sym (value-cons a c x)

  pub zip_with-map :
      (g h : F → F) (xs : List F) → zip_with f.mul (map g xs) (map h xs) ≡ map (λ x. g x ⊗ h x) xs
  zip_with-map g h [] = refl
  zip_with-map g h (x ∷ xs) = ap (◌∷◌ (g x ⊗ h x)) (zip_with-map g h xs)

  pub fft-value :
      (e : EvaluationDomain F F) (c : List F)
      → length c ≤ e.size
      → e.fft c ≡ map (value c) e.elements
  unfolding value
  fft-value e c h =
      e.fft-eval c ∙ ap (λ g. map g e.elements) (fun_ext (λ x. value-resize e.size c x h))

  -- The values of two polynomials, multiplied, are those of the product.
  pub fft-times_poly :
      (e : EvaluationDomain F F) (p q : List F)
      → length p + length q ≤ e.size
      → zip_with f.mul (e.fft p) (e.fft q) ≡ e.fft (times_poly p q)
  fft-times_poly e p q h =
      ap₂ (zip_with f.mul) (fft-value e p (omega arith)) (fft-value e q (omega arith))
      ∙ zip_with-map (value p) (value q) e.elements
      ∙ ap (λ g. map g e.elements) (fun_ext (λ x. sym (value-times_poly p q x)))
      ∙ sym (fft-value e (times_poly p q) (omega (arith, length-times_poly p q)))

pub step_by_two-map {ℓ κ} :
    {A : Type ℓ} {B : Type κ} (g : A → B) (xs : List A)
    → step_by_two (map g xs) ≡ map g (step_by_two xs)
unfolding step_by_two
step_by_two-map g [] = refl
step_by_two-map g (x ∷ []) = refl
step_by_two-map g (x ∷ y ∷ xs) = ap (◌∷◌ (g x)) (step_by_two-map g xs)

pub take-nil {ℓ} : {A : Type ℓ} (k : ℕ) → ◌≡◌ {A = List A} (take k []) []
take-nil zero = refl
take-nil (suc k) = refl

pub step_by_two-take {ℓ} :
    {A : Type ℓ} (k : ℕ) (xs : List A) → step_by_two (take (k + k) xs) ≡ take k (step_by_two xs)
unfolding step_by_two
step_by_two-take zero xs = refl
step_by_two-take (suc k) [] = let e : suc k + suc k ≡ suc (suc (k + k)) = omega arith in rw e
step_by_two-take (suc k) (x ∷ []) =
    let e : suc k + suc k ≡ suc (suc (k + k)) = omega arith in rw e (ap (◌∷◌ x) (sym (take-nil k)))
step_by_two-take (suc k) (x ∷ y ∷ xs) =
    let e : suc k + suc k ≡ suc (suc (k + k)) = omega arith in
    rw e (ap (◌∷◌ x) (step_by_two-take k xs))

pub take-zip_with {ℓ} :
    {A : Type ℓ} (g : A → A → A) (xs ys us vs : List A)
    → length ys ≡ length xs
    → take (length xs) (zip_with g (xs ++ us) (ys ++ vs)) ≡ zip_with g xs ys
take-zip_with g [] [] us vs h = refl
take-zip_with g [] (y ∷ ys) us vs h = absurd (omega arith)
take-zip_with g (x ∷ xs) [] us vs h = absurd (omega arith)
take-zip_with g (x ∷ xs) (y ∷ ys) us vs h =
    ap (◌∷◌ (g x y)) (take-zip_with g xs ys us vs (omega arith))

pub take_first_half {ℓ} :
    {A : Type ℓ} (l : ℕ) (xs : List A) → step_by_two (take (2 * l) xs) ≡ take l (step_by_two xs)
take_first_half l xs = let e : 2 * l ≡ l + l = omega arith in rw e (step_by_two-take l xs)
