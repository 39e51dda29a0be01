-- ===== src/Sharing/Poly/Lagrange.antt =====
-- `lagrange_interpolate` (secret-sharing/src/utils.rs) returns the polynomial through the points.
pub mod Slope
pub mod Trim
pub mod Coeff
use zk_pse.Base.{
  ℕ, zero, suc, ◌+◌, ◌≤◌, ◌<◌, List, [], ◌∷◌, map, length, get_elem?, take, replicate, zip_with,
  traverse, min, All, All-get_elem?, Option, none, some, ◌≡◌, ◌≢◌, refl, sym, ap, ap₂, ◌∙◌, arith,
  length-map, length-replicate, length-take, eq_of_some, eq_of_get_elem?, get_elem?-map, fun_ext,
  Bool-cases, inl, inr, subst, ◌>>=◌,
}
use zk_pse.Algebra.{Field, DomainCoeff, ◌⊕◌, ◌⊗◌, ◌⊖◌}
use zk_pse.Algebra.Laws.{zero-mul, add-zero, mul-ne-zero, mul-zero, sub-eq-zero}
use zk_pse.Sharing.Poly.{
  eval, divide_linear, syn_div, get_zero_roots, interpolate_loop, remove_leading_zeros,
  find_truncate_pos, lagrange_interpolate,
}
use zk_pse.Sharing.Poly.Eval.{eval-nil, eval-cons}
use zk_pse.Sharing.Poly.Division.{syn_div-one, eval-divide_linear, length-divide_linear}
use zk_pse.Sharing.Poly.Roots.{
  root_product, with_roots, eval-get_zero_roots, get_zero_roots-with_roots,
}
use zk_pse.Sharing.Poly.Lagrange.Slope.{Distinct, slope, slope-ne-zero}
use zk_pse.Sharing.Poly.Lagrange.Coeff.{
  eval_coeff, eval_coeff-zeros, eval_coeff-remove_leading_zeros, sum_of_values, sum_of_values-at,
  interpolate_loop-sum,
}

module _ {ℓ} {F : Type ℓ} ⦃f : Field F⦄ where
  -- The last coefficient of a quotient by x - b is zero.
  eval-take_quotient :
      (b : F) (n : ℕ) (p : List F) (x : F)
      → length p ≡ suc n
      → eval (take n (divide_linear b p).0) x ≡ eval (divide_linear b p).0 x
  unfolding divide_linear
  eval-take_quotient b n [] x h = absurd (omega arith)
  eval-take_quotient b zero (c ∷ []) x h = simp (eval-cons, eval-nil, zero-mul, f.zero-add)
  eval-take_quotient b (suc n) (c ∷ []) x h = absurd (omega arith)
  eval-take_quotient b zero (c ∷ d ∷ p) x h = absurd (omega arith)
  eval-take_quotient b (suc n) (c ∷ d ∷ p) x h =
      eval-cons _ _ x
      ∙ ap (λ z. (z ⊗ x) ⊕ (divide_linear b (d ∷ p)).1)
          (eval-take_quotient b n (d ∷ p) x (omega arith))
      ∙ sym (eval-cons _ _ x)

  root_product-zero :
      (xs : List F) (i : ℕ) {z : F} → get_elem? xs i ≡ some z → root_product xs z ≡ f.zero
  unfolding root_product
  root_product-zero [] i e = cc
  root_product-zero (x ∷ xs) zero {z} e =
      ap (λ v. (z ⊖ v) ⊗ root_product xs z) (eq_of_some e)
      ∙ ap (λ v. v ⊗ root_product xs z) (f.add-neg z)
      ∙ zero-mul _
  root_product-zero (x ∷ xs) (suc i) {z} e =
      ap (◌⊗◌ (z ⊖ x)) (root_product-zero xs i e) ∙ mul-zero _

  abbrev numerator : List F → F → List F
  numerator xs z = (divide_linear z (get_zero_roots xs)).0

  -- The numerator of one node is zero at the others.
  numerator-zero :
      (xs : List F) (i j : ℕ) {z x : F}
      → get_elem? xs i ≡ some z
      → get_elem? xs j ≡ some x
      → z ≢ x
      → eval (numerator xs z) x ≡ f.zero
  numerator-zero xs i j {z} {x} ez ex ne =
      elim (Bool-cases (f.beq (eval (numerator xs z) x) f.zero)) [
        | inl e ↦ (f.beq_iff _ _).0 e
        | inr e ↦ absurd (
            mul-ne-zero _ _ (λ q. cc (sym e ∙ (f.beq_iff _ _).1 q)) (λ d. ne (sym (sub d))) product)
      ]
    where
      sub : x ⊖ z ≡ f.zero → x ≡ z
      sub d = sub-eq-zero x z d

      vanish : (y : F) (k : ℕ) → get_elem? xs k ≡ some y → eval (get_zero_roots xs) y ≡ f.zero
      vanish y k e = (eval-get_zero_roots xs).1 y ∙ root_product-zero xs k e

      product : eval (numerator xs z) x ⊗ (x ⊖ z) ≡ f.zero
      product =
          sym (add-zero _)
          ∙ ap (◌⊕◌ (eval (numerator xs z) x ⊗ (x ⊖ z))) (sym (vanish z i ez))
          ∙ sym (eval-divide_linear z (get_zero_roots xs) x)
          ∙ vanish x j ex

  numerators-eq :
      (xs zs : List F)
      → 1 < length (get_zero_roots xs)
      → All (λ z. z ≢ f.zero) zs
      → traverse (syn_div (get_zero_roots xs) 1) zs ≡ some (map (numerator xs) zs)
  numerators-eq xs [] h nz = refl
  numerators-eq xs (z ∷ zs) h nz =
      rw (syn_div-one (get_zero_roots xs) z nz.0 h, numerators-eq xs zs h nz.1)

  slopes-eq :
      (xs zs : List F)
      → zip_with eval (map (numerator xs) zs) zs ≡ map (slope (get_zero_roots xs)) zs
  slopes-eq xs [] = refl
  slopes-eq xs (z ∷ zs) = ap (◌∷◌ (eval (numerator xs z) z)) (slopes-eq xs zs)

  slope_at_node :
      (xs : List F) (i : ℕ) {z : F}
      → Distinct xs
      → get_elem? xs i ≡ some z
      → slope (get_zero_roots xs) z ≢ f.zero
  slope_at_node xs i {z} d e =
      rw (get_zero_roots-with_roots xs)
        (slope-ne-zero (f.one ∷ []) xs i (λ h. f.one-ne-zero (sym single ∙ h)) d e)
    where
      single : eval (f.one ∷ []) z ≡ f.one
      single = simp (eval-cons, eval-nil, zero-mul, f.zero-add)

  map-map : (g h : F → F) (xs : List F) → map g (map h xs) ≡ map (λ x. g (h x)) xs
  map-map g h [] = refl
  map-map g h (x ∷ xs) = ap (◌∷◌ (g (h x))) (map-map g h xs)

All-of_get_elem? {ℓ κ} :
    {A : Type ℓ} (P : A → Type κ) (xs : List A)
    → ((i : ℕ) (x : A) → get_elem? xs i ≡ some x → P x)
    → All P xs
All-of_get_elem? P [] h = tt
All-of_get_elem? P (x ∷ xs) h = (h 0 x refl, All-of_get_elem? P xs (λ i. h (suc i)))

abbrev weight {ℓ} : {F : Type ℓ} ⦃f : Field F⦄ → List F → F → F
weight ⦃f⦄ xs z = f.inverse (slope (get_zero_roots xs) z)

module _ {ℓ} {F : Type ℓ} ⦃f : Field F⦄ (batch_inversion : List F → List F)
    (inverts : (vs : List F)
      → All (λ v. v ≢ f.zero) vs
      → batch_inversion vs ≡ map f.inverse vs) where
  weights-eq :
      (xs : List F)
      → Distinct xs
      → batch_inversion (zip_with eval (map (numerator xs) xs) xs) ≡ map (weight xs) xs
  weights-eq xs d =
      ap batch_inversion (slopes-eq xs xs)
      ∙ inverts _ (All-of_get_elem? _ _ nonzero)
      ∙ map-map f.inverse (slope (get_zero_roots xs)) xs
    where
      nonzero :
          (i : ℕ) (v : F) → get_elem? (map (slope (get_zero_roots xs)) xs) i ≡ some v → v ≢ f.zero
      nonzero i v e =
          let (z, ez, ev) = get_elem?-map (slope (get_zero_roots xs)) xs i e in
          λ h. slope_at_node xs i d ez (sym ev ∙ h)

module _ {ℓ κ} {F : Type ℓ} {T : Type κ} ⦃f : Field F⦄ ⦃t : DomainCoeff F T⦄ where
  -- What the loop leaves takes the given value at each node.
  values_at_nodes :
      (xs : List F) (ys s : List T)
      → Distinct xs
      → length ys ≡ length xs
      → ((x : F)
          → eval_coeff s x
            ≡ t.add
                (eval_coeff (replicate (length xs) t.zero) x)
                (sum_of_values (weight xs) (λ z. eval (take (length xs) (numerator xs z)) x) xs ys))
      → map (eval_coeff s) xs ≡ ys
  values_at_nodes xs ys s d h v = eq_of_get_elem? _ ys (length-map (eval_coeff s) xs ∙ sym h) same
    where
      whole : (z x : F) → eval (take (length xs) (numerator xs z)) x ≡ eval (numerator xs z) x
      whole z x = eval-take_quotient z (length xs) (get_zero_roots xs) x (eval-get_zero_roots xs).0

      total : F → T
      total x = sum_of_values (weight xs) (λ z. eval (take (length xs) (numerator xs z)) x) xs ys

      same :
          (i : ℕ) (a y : T)
          → get_elem? (map (eval_coeff s) xs) i ≡ some a
          → get_elem? ys i ≡ some y
          → a ≡ y
      same i a y ea ey =
          let (x, ex, av) = get_elem?-map (eval_coeff s) xs i ea in
          av
          ∙ v x
          ∙ ap (λ z. t.add z (total x)) (eval_coeff-zeros (length xs) x)
          ∙ t.zero-add (total x)
          ∙ sum_of_values-at (weight xs) (λ z. eval (take (length xs) (numerator xs z)) x) x y xs ys
              i d
              (All-of_get_elem? (λ z. z ≢ x → eval (take (length xs) (numerator xs z)) x ≡ f.zero)
                xs (λ j z ez ne. whole z x ∙ numerator-zero xs j i ez ex ne))
              (ap (◌⊗◌ (weight xs x)) (whole x x)
                ∙ f.mul_comm _ _
                ∙ f.mul-inverse (slope (get_zero_roots xs) x) (slope_at_node xs i d ex))
              ex ey

length-take_le {ℓ} : {A : Type ℓ} (k : ℕ) (xs : List A) → length (take k xs) ≤ length xs
length-take_le k xs = omega (arith, length-take k xs)

module _ {ℓ κ} {F : Type ℓ} {T : Type κ} ⦃f : Field F⦄ ⦃t : DomainCoeff F T⦄
    (batch_inversion : List F → List F)
    (inverts : (vs : List F)
      → All (λ v. v ≢ f.zero) vs
      → batch_inversion vs ≡ map f.inverse vs) where
  nonempty :
      (xs : List F) (ys : List T)
      → 1 < length (get_zero_roots xs)
      → Distinct xs
      → All (λ x. x ≢ f.zero) xs
      → length ys ≡ length xs
      → (r : List T) × (lagrange_interpolate batch_inversion xs ys ≡ some r)
        × (length r ≤ length xs)
        × (map (eval_coeff r) xs ≡ ys)
  unfolding lagrange_interpolate remove_leading_zeros
  nonempty xs ys long d nz h =
      let n = length xs in
      let fits : (z : F) → n ≤ length (numerator xs z) = λ z.
        omega (arith, length-divide_linear z (get_zero_roots xs), (eval-get_zero_roots xs).0) in
      let (s, e, hs, v) =
        interpolate_loop-sum (weight xs) (numerator xs) n (replicate n t.zero) xs ys
          (length-replicate n t.zero) fits h in
      (
        remove_leading_zeros t.zero (λ a. t.beq a t.zero) s,
        (rw (
          numerators-eq xs xs long nz,
          weights-eq batch_inversion inverts xs d,
          length-map (numerator xs) xs,
          e,
        )),
        omega
            (arith, length-take_le (find_truncate_pos t.zero (λ a. t.beq a t.zero) s (length s)) s),
        ap (λ g. map g xs) (fun_ext (eval_coeff-remove_leading_zeros s))
            ∙ values_at_nodes xs ys s d h v,
      )

  -- On nodes that are distinct and not zero, with one value each, `lagrange_interpolate` returns
  -- a polynomial with at most as many coefficients as nodes, whose values at the nodes are the
  -- given ones. (`inverts` is what ark-ff documents of `batch_inversion`.)
  pub lagrange_interpolate_lem :
      (xs : List F) (ys : List T)
      → Distinct xs
      → All (λ x. x ≢ f.zero) xs
      → length ys ≡ length xs
      → (r : List T) × (lagrange_interpolate batch_inversion xs ys ≡ some r)
        × (length r ≤ length xs)
        × (map (eval_coeff r) xs ≡ ys)
  lagrange_interpolate_lem [] [] d nz h = (
    [],
    unfold lagrange_interpolate interpolate_loop remove_leading_zeros find_truncate_pos in refl,
    omega arith,
    refl,
  )
  lagrange_interpolate_lem [] (y ∷ ys) d nz h = absurd (omega arith)
  lagrange_interpolate_lem (x ∷ xs) ys d nz h =
      nonempty (x ∷ xs) ys (omega (arith, (eval-get_zero_roots (x ∷ xs)).0)) d nz h
