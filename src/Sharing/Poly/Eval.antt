-- ===== src/Sharing/Poly/Eval.antt =====
-- Horner's rule in `eval` (secret-sharing/src/utils.rs), and its laws.
use zk_pse.Base.{
  ℕ, zero, suc, List, [], ◌∷◌, ◌++◌, foldl, reverse, replicate, length, ◌≡◌, refl, sym, ap, ◌∙◌,
}
use mathlib.Core.List.{reverse-append}
use zk_pse.Algebra.{Field, ◌⊕◌, ◌⊗◌}
use zk_pse.Algebra.Laws.{zero-mul, add-zero}
use zk_pse.Algebra.Ring.{ring, norm, v0, v1, v2, v3, v4, ◌⊞◌, ◌⊠◌}
use zk_pse.Sharing.Poly.{horner, eval}

module _ {ℓ} {F : Type ℓ} ⦃f : Field F⦄ where
  unfoldable pub power : F → ℕ → F
  power x zero = f.one
  power x (suc n) = x ⊗ power x n

  -- The sum of the terms c_i x^i, from i = k on.
  unfoldable pub sum_of_terms : F → ℕ → List F → F
  sum_of_terms x k [] = f.zero
  sum_of_terms x k (c ∷ p) = (c ⊗ power x k) ⊕ sum_of_terms x (suc k) p

  pub eval-nil : (x : F) → eval [] x ≡ f.zero
  unfolding eval
  eval-nil x = refl

  foldl-concat :
      (x : F) (acc : F) (p : List F) (c : F)
      → foldl (horner x) acc (p ++ c ∷ []) ≡ horner x (foldl (horner x) acc p) c
  foldl-concat x acc [] c = refl
  foldl-concat x acc (a ∷ p) c = foldl-concat x (horner x acc a) p c

  pub eval-cons : (c : F) (p : List F) (x : F) → eval (c ∷ p) x ≡ (eval p x ⊗ x) ⊕ c
  unfolding eval
  eval-cons c p x =
      ap (foldl (horner x) f.zero) (reverse-append (c ∷ []) p) ∙ foldl-concat x f.zero (reverse p) c

  sum_of_terms-shift : (x : F) (k : ℕ) (p : List F) → sum_of_terms x k p ≡ power x k ⊗ eval p x
  unfolding sum_of_terms power norm
  sum_of_terms-shift x k [] = sym (ap (◌⊗◌ (power x k)) (eval-nil x) ∙ f.mul_comm _ _ ∙ zero-mul _)
  sum_of_terms-shift x k (c ∷ p) =
      ap (◌⊕◌ (c ⊗ power x k)) (sum_of_terms-shift x (suc k) p)
      ∙ ring (c ∷ power x k ∷ x ∷ eval p x ∷ []) (v0 ⊠ v1 ⊞ v2 ⊠ v1 ⊠ v3) (v1 ⊠ (v3 ⊠ v2 ⊞ v0)) refl
      ∙ ap (◌⊗◌ (power x k)) (sym (eval-cons c p x))

  -- `eval` is the sum of the coefficients times the powers of the point.
  pub eval-sum_of_terms : (p : List F) (x : F) → eval p x ≡ sum_of_terms x 0 p
  unfolding power
  eval-sum_of_terms p x = sym (sum_of_terms-shift x 0 p ∙ f.one-mul _)

  pub eval-zeros : (n : ℕ) (x : F) → eval (replicate n f.zero) x ≡ f.zero
  eval-zeros zero x = eval-nil x
  eval-zeros (suc n) x =
      eval-cons _ _ x ∙ ap (λ z. (z ⊗ x) ⊕ f.zero) (eval-zeros n x) ∙ add-zero _ ∙ zero-mul x

  pub eval-append :
      (p q : List F) (x : F) → eval (p ++ q) x ≡ eval p x ⊕ (power x (length p) ⊗ eval q x)
  unfolding power norm
  eval-append [] q x =
      sym (ap (λ z. z ⊕ (f.one ⊗ eval q x)) (eval-nil x) ∙ f.zero-add _ ∙ f.one-mul _)
  eval-append (c ∷ p) q x =
      eval-cons c (p ++ q) x
      ∙ ap (λ z. (z ⊗ x) ⊕ c) (eval-append p q x)
      ∙ ring (eval p x ∷ power x (length p) ∷ eval q x ∷ x ∷ c ∷ []) ((v0 ⊞ v1 ⊠ v2) ⊠ v3 ⊞ v4)
          (v0 ⊠ v3 ⊞ v4 ⊞ v3 ⊠ v1 ⊠ v2) refl
      ∙ ap (λ z. z ⊕ ((x ⊗ power x (length p)) ⊗ eval q x)) (sym (eval-cons c p x))

  pub eval-append_zeros : (p : List F) (n : ℕ) (x : F) → eval (p ++ replicate n f.zero) x ≡ eval p x
  eval-append_zeros p n x =
      eval-append p _ x
      ∙ ap (λ z. eval p x ⊕ (power x (length p) ⊗ z)) (eval-zeros n x)
      ∙ ap (◌⊕◌ (eval p x)) (f.mul_comm _ _ ∙ zero-mul _)
      ∙ add-zero _
