-- ===== src/Sharing/Poly/Roots.antt =====
-- `get_zero_roots` (secret-sharing/src/utils.rs): the polynomial with given roots.
use zk_pse.Base.{
  ℕ, zero, suc, ◌+◌, ◌-◌, List, [], ◌∷◌, ◌++◌, set, replicate, length, ◌≡◌, refl, sym, ap, ◌∙◌,
  arith,
}
use zk_pse.Algebra.{Field, ◌⊕◌, ◌⊗◌, ◌⊖◌}
use zk_pse.Algebra.Laws.{zero-mul, add-zero, mul-one, neg-zero}
use zk_pse.Algebra.Ring.{ring, norm, v0, v1, v2, v3, v4, ◌⊞◌, ◌⊠◌, ⊟, ø}
use zk_pse.Sharing.Poly.{eval, subtract_shifted, zero_roots_loop, get_zero_roots}
use zk_pse.Sharing.Poly.Eval.{eval-nil, eval-cons}

module _ {ℓ} {F : Type ℓ} ⦃f : Field F⦄ where
  -- The product of x - a over the entries `a` of a list.
  unfoldable pub root_product : List F → F → F
  root_product [] x = f.one
  root_product (a ∷ rest) x = (x ⊖ a) ⊗ root_product rest x

  -- What one round of the inner loop makes of the coefficients from index n on.
  unfoldable pub sub_shifted : F → List F → List F
  sub_shifted x [] = []
  sub_shifted x (c ∷ []) = c ∷ []
  sub_shifted x (c ∷ d ∷ p) = (c ⊖ (d ⊗ x)) ∷ sub_shifted x (d ∷ p)

  pub length-sub_shifted : (x : F) (p : List F) → length (sub_shifted x p) ≡ length p
  unfolding sub_shifted
  length-sub_shifted x [] = refl
  length-sub_shifted x (c ∷ []) = refl
  length-sub_shifted x (c ∷ d ∷ p) = ap suc (length-sub_shifted x (d ∷ p))

  -- The polynomial (y - x) p.
  pub eval-sub_shifted :
      (x c : F) (p : List F) (y : F)
      → eval (sub_shifted x (c ∷ p)) y ≡ eval (c ∷ p) y ⊖ (eval p y ⊗ x)
  unfolding sub_shifted norm
  eval-sub_shifted x c [] y = sym (
      ap (λ z. eval (c ∷ []) y ⊖ (z ⊗ x)) (eval-nil y)
      ∙ ap (λ z. eval (c ∷ []) y ⊖ z) (zero-mul x)
      ∙ ap (◌⊕◌ (eval (c ∷ []) y)) neg-zero
      ∙ add-zero _)
  eval-sub_shifted x c (d ∷ p) y =
      eval-cons _ (sub_shifted x (d ∷ p)) y
      ∙ ap (λ z. (z ⊗ y) ⊕ (c ⊖ (d ⊗ x))) (eval-sub_shifted x d p y)
      ∙ ap (λ z. ((z ⊖ (eval p y ⊗ x)) ⊗ y) ⊕ (c ⊖ (d ⊗ x))) (eval-cons d p y)
      ∙ ring (eval p y ∷ d ∷ y ∷ x ∷ c ∷ [])
          ((v0 ⊠ v2 ⊞ v1 ⊞ ⊟ (v0 ⊠ v3)) ⊠ v2 ⊞ (v4 ⊞ ⊟ (v1 ⊠ v3)))
          (((v0 ⊠ v2 ⊞ v1) ⊠ v2 ⊞ v4) ⊞ ⊟ ((v0 ⊠ v2 ⊞ v1) ⊠ v3)) refl
      ∙ sym (rw (eval-cons c, eval-cons d p y) refl)

  -- The coefficients that the outer loop builds.
  unfoldable pub with_roots : List F → List F → List F
  with_roots c [] = c
  with_roots c (x ∷ xs) = with_roots (sub_shifted x (f.zero ∷ c)) xs

  subtract_shifted-cons :
      (x : F) (k j : ℕ) (c : F) (p : List F)
      → subtract_shifted x k (suc j) (c ∷ p) ≡ c ∷ subtract_shifted x k j p
  unfolding subtract_shifted
  subtract_shifted-cons x zero j c p = refl
  subtract_shifted-cons x (suc k) j c p = subtract_shifted-cons x k (suc j) c _

  subtract_shifted-zero :
      (x : F) (k : ℕ) (p : List F) → length p ≡ suc k → subtract_shifted x k 0 p ≡ sub_shifted x p
  unfolding subtract_shifted sub_shifted
  subtract_shifted-zero x k [] h = absurd (omega arith)
  subtract_shifted-zero x zero (c ∷ []) h = refl
  subtract_shifted-zero x (suc k) (c ∷ []) h = absurd (omega arith)
  subtract_shifted-zero x zero (c ∷ d ∷ p) h = absurd (omega arith)
  subtract_shifted-zero x (suc k) (c ∷ d ∷ p) h =
      subtract_shifted-cons x k 0 _ (d ∷ p)
      ∙ ap (◌∷◌ (c ⊖ (d ⊗ x))) (subtract_shifted-zero x k (d ∷ p) (omega arith))

  subtract_shifted-prefix :
      (x : F) (k n : ℕ) (p : List F)
      → subtract_shifted x k n (replicate n f.zero ++ p)
        ≡ replicate n f.zero ++ subtract_shifted x k 0 p
  subtract_shifted-prefix x k zero p = refl
  subtract_shifted-prefix x k (suc n) p =
      subtract_shifted-cons x k n f.zero _ ∙ ap (◌∷◌ f.zero) (subtract_shifted-prefix x k n p)

  set-zero_prefix :
      (n : ℕ) (c : List F)
      → set (replicate (suc n) f.zero ++ c) n f.zero ≡ replicate n f.zero ++ (f.zero ∷ c)
  set-zero_prefix zero c = refl
  set-zero_prefix (suc n) c = ap (◌∷◌ f.zero) (set-zero_prefix n c)

  set-last : (n : ℕ) (v : F) → set (replicate (suc n) f.zero) n v ≡ replicate n f.zero ++ v ∷ []
  set-last zero v = refl
  set-last (suc n) v = ap (◌∷◌ f.zero) (set-last n v)

  zero_roots_loop-with_roots :
      (len : ℕ) (xs c : List F)
      → length xs + length c ≡ suc len
      → zero_roots_loop len (length xs) xs (replicate (length xs) f.zero ++ c) ≡ with_roots c xs
  unfolding zero_roots_loop with_roots
  zero_roots_loop-with_roots len [] c h = refl
  zero_roots_loop-with_roots len (x ∷ xs) c h =
      let m = length xs in
      let before : suc m - 1 ≡ m = omega arith in
      rw
        (
          before,
          set-zero_prefix m c,
          subtract_shifted-prefix x (len - m) m (f.zero ∷ c),
          subtract_shifted-zero x (len - m) (f.zero ∷ c) (omega arith),
        )
        (zero_roots_loop-with_roots len xs (sub_shifted x (f.zero ∷ c))
          (omega (arith, length-sub_shifted x (f.zero ∷ c))))

  pub get_zero_roots-with_roots : (xs : List F) → get_zero_roots xs ≡ with_roots (f.one ∷ []) xs
  unfolding get_zero_roots
  get_zero_roots-with_roots xs =
      let n = length xs in
      let next : n + 1 ≡ suc n = omega arith in
      rw (next, set-last n f.one) (zero_roots_loop-with_roots n xs (f.one ∷ []) (omega arith))

  pub eval-shift_root :
      (x : F) (c : List F) (y : F) → eval (sub_shifted x (f.zero ∷ c)) y ≡ eval c y ⊗ (y ⊖ x)
  unfolding norm
  eval-shift_root x c y =
      eval-sub_shifted x f.zero c y
      ∙ ap (λ z. z ⊖ (eval c y ⊗ x)) (eval-cons f.zero c y)
      ∙ ring (eval c y ∷ y ∷ x ∷ []) (v0 ⊠ v1 ⊞ ø ⊞ ⊟ (v0 ⊠ v2)) (v0 ⊠ (v1 ⊞ ⊟ v2)) refl

  pub eval-with_roots :
      (c xs : List F) (y : F) → eval (with_roots c xs) y ≡ eval c y ⊗ root_product xs y
  unfolding with_roots root_product
  eval-with_roots c [] y = sym (mul-one _)
  eval-with_roots c (x ∷ xs) y =
      eval-with_roots (sub_shifted x (f.zero ∷ c)) xs y
      ∙ ap (λ z. z ⊗ root_product xs y) (eval-shift_root x c y)
      ∙ f.mul_assoc _ _ _

  pub length-with_roots : (c xs : List F) → length (with_roots c xs) ≡ length xs + length c
  unfolding with_roots
  length-with_roots c [] = omega arith
  length-with_roots c (x ∷ xs) =
      omega (
        arith,
        length-with_roots (sub_shifted x (f.zero ∷ c)) xs,
        length-sub_shifted x (f.zero ∷ c),
      )

  -- `get_zero_roots` returns one coefficient more than there are roots, and the value at any point
  -- is the product of the differences to the roots.
  pub eval-get_zero_roots :
      (xs : List F)
      → (length (get_zero_roots xs) ≡ suc (length xs))
        × ((y : F) → eval (get_zero_roots xs) y ≡ root_product xs y)
  eval-get_zero_roots xs = rw (get_zero_roots-with_roots xs) (
    omega (arith, length-with_roots (f.one ∷ []) xs),
    λ y.
        eval-with_roots (f.one ∷ []) xs y
        ∙ simp (eval-cons, eval-nil, zero-mul, f.zero-add, f.one-mul),
  )
