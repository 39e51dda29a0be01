-- ===== src/Dist/Partial/Product.antt =====
-- The partial products of `d_pp` (dist-primitives/src/dpp/mod.rs).
use zk_pse.Base.{
  ℕ, zero, suc, ◌/◌, Bool-cases, if◌then◌else◌, List, [], ◌∷◌, ◌++◌, length, get_elem?, take, none,
  some, ◌>>=◌, ◌≡◌, ◌≢◌, refl, sym, ap, ◌∙◌, arith, inl, inr, All, eq_of_some, length-append,
  take-length-append, drop-length-append,
}
use zk_pse.Algebra.{Field, ◌⊗◌}
use zk_pse.Algebra.Laws.{mul-one}
use zk_pse.Algebra.Ring.{ring, norm, v0, v1, v2, v3, v4, ◌⊠◌}
use zk_pse.Dist.Partial.{divide_each, multiply_up, partial_products, king_products}

module _ {ℓ} {F : Type ℓ} ⦃f : Field F⦄ where
  unfoldable pub product : List F → F
  product [] = f.one
  product (x ∷ xs) = x ⊗ product xs

  product-empty : (i : ℕ) → product (take i []) ≡ f.one
  unfolding product
  product-empty zero = refl
  product-empty (suc i) = refl

  divide_each-returns :
      (nums dens : List F)
      → length nums ≡ length dens
      → All (λ d. d ≢ f.zero) dens
      → (qs : List F) × (divide_each nums dens ≡ some qs)
        × (length qs ≡ length nums)
        × ((i : ℕ) → product (take i qs) ⊗ product (take i dens) ≡ product (take i nums))
  unfolding divide_each product
  divide_each-returns [] [] l h = ([], refl, refl, λ i. rw (product-empty i) (f.one-mul f.one))
  divide_each-returns [] (d ∷ dens) l h = absurd (omega arith)
  divide_each-returns (n ∷ nums) [] l h = absurd (omega arith)
  divide_each-returns (n ∷ nums) (d ∷ dens) l (hd, hs) =
      let (qs, e, lq, products) = divide_each-returns nums dens (omega arith) hs in
      ((n ⊗ f.inverse d) ∷ qs, divided qs e, ap suc lq, all_products qs products)
    where
      divided :
          (qs : List F)
          → divide_each nums dens ≡ some qs
          → (divide_each nums dens >>= λ rest.
              if f.beq d f.zero then none else some ((n ⊗ f.inverse d) ∷ rest))
            ≡ some ((n ⊗ f.inverse d) ∷ qs)
      divided qs e = elim (Bool-cases (f.beq d f.zero)) [
        | inl t ↦ absurd (hd ((f.beq_iff d f.zero).0 t))
        | inr t ↦ rw (e, t) refl
      ]

      all_products :
          (qs : List F)
          → ((i : ℕ) → product (take i qs) ⊗ product (take i dens) ≡ product (take i nums))
          → (i : ℕ)
          → product (take i ((n ⊗ f.inverse d) ∷ qs)) ⊗ product (take i (d ∷ dens))
            ≡ product (take i (n ∷ nums))
      all_products qs products zero = f.one-mul f.one
      all_products qs products (suc i) =
          unfold norm in
          ring (n ∷ f.inverse d ∷ product (take i qs) ∷ d ∷ product (take i dens) ∷ [])
            (((v0 ⊠ v1) ⊠ v2) ⊠ (v3 ⊠ v4)) (v0 ⊠ ((v3 ⊠ v1) ⊠ (v2 ⊠ v4))) refl
          ∙ ap (λ z. n ⊗ (z ⊗ (product (take i qs) ⊗ product (take i dens)))) (f.mul-inverse d hd)
          ∙ ap (◌⊗◌ n) (f.one-mul _ ∙ products i)

  -- Each entry is the product of the quotients up to it and of what stood before.
  multiply_up-entries :
      (last : F) (xs : List F) (i : ℕ) {x : F}
      → get_elem? (multiply_up last xs) i ≡ some x
      → x ≡ last ⊗ product (take (suc i) xs)
  unfolding multiply_up product
  multiply_up-entries last [] i e = cc
  multiply_up-entries last (y ∷ xs) zero e =
      sym (eq_of_some e) ∙ f.mul_comm y last ∙ ap (◌⊗◌ last) (sym (mul-one y))
  multiply_up-entries last (y ∷ xs) (suc i) e =
      multiply_up-entries (y ⊗ last) xs i e
      ∙ (unfold norm in
          ring (y ∷ last ∷ product (take (suc i) xs) ∷ []) ((v0 ⊠ v1) ⊠ v2) (v1 ⊠ (v0 ⊠ v2)) refl)

  partial_products-entries :
      (xs : List F) (i : ℕ) {x : F}
      → get_elem? (partial_products xs) i ≡ some x
      → x ≡ product (take (suc i) xs)
  unfolding partial_products product
  partial_products-entries [] i e = cc
  partial_products-entries (y ∷ xs) zero e = sym (eq_of_some e) ∙ sym (mul-one y)
  partial_products-entries (y ∷ xs) (suc i) e = multiply_up-entries y xs i e

  length-multiply_up : (last : F) (xs : List F) → length (multiply_up last xs) ≡ length xs
  unfolding multiply_up
  length-multiply_up last [] = refl
  length-multiply_up last (y ∷ xs) = ap suc (length-multiply_up (y ⊗ last) xs)

  length-partial_products : (xs : List F) → length (partial_products xs) ≡ length xs
  unfolding partial_products
  length-partial_products [] = refl
  length-partial_products (y ∷ xs) = ap suc (length-multiply_up y xs)

  -- On as many denominators as numerators, none of them zero, the king does not panic, and each
  -- entry of the result, times the product of the denominators up to it, is the product of the
  -- numerators up to it.
  pub king_products-returns :
      (nums dens : List F)
      → length nums ≡ length dens
      → All (λ d. d ≢ f.zero) dens
      → (r : List F) × (king_products (nums ++ dens) ≡ some r)
        × (length r ≡ length nums)
        × ((i : ℕ) (x : F)
            → get_elem? r i ≡ some x
            → x ⊗ product (take (suc i) dens) ≡ product (take (suc i) nums))
  unfolding king_products
  king_products-returns nums dens l h =
      let (qs, e, lq, products) = divide_each-returns nums dens l h in
      let half : length (nums ++ dens) / 2 ≡ length nums = omega (arith, length-append nums dens) in
      (
        partial_products qs,
        rw (half, take-length-append nums dens, drop-length-append nums dens, e) refl,
        length-partial_products qs ∙ lq,
        λ i x ex.
            ap (λ z. z ⊗ product (take (suc i) dens)) (partial_products-entries qs i ex)
            ∙ products (suc i),
      )
