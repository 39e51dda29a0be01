-- ===== src/Sharing/Poly/Lagrange/Coeff.antt =====
-- The accumulation in `lagrange_interpolate`, over the values `T` that the coefficients are.
use zk_pse.Base.{
  All-get_elem?, ℕ, zero, suc, ◌≤◌, List, [], ◌∷◌, map, length, get_or, get_elem?, take, replicate,
  All, some, ◌≡◌, ◌≢◌, refl, sym, ap, ap₂, ◌∙◌, arith, eq_of_some,
}
use zk_pse.Algebra.{Field, DomainCoeff, ◌⊗◌}
use zk_pse.Sharing.Poly.{eval, add_multiple, interpolate_loop, remove_leading_zeros}
use zk_pse.Sharing.Poly.Eval.{eval-nil, eval-cons}
use zk_pse.Sharing.Poly.Lagrange.Slope.{Distinct}
use zk_pse.Sharing.Poly.Lagrange.Trim.{find_truncate_pos-zeros, get_or-beyond}

module _ {ℓ κ} {F : Type ℓ} {T : Type κ} ⦃f : Field F⦄ (t : DomainCoeff F T) where
  pub plus_zero : (a : T) → t.add a t.zero ≡ a
  plus_zero a = t.add_comm a t.zero ∙ t.zero-add a

  plus_cancel : (a b c : T) → t.add a b ≡ t.add a c → b ≡ c
  plus_cancel a b c h = sym (undo b) ∙ ap (t.add (t.neg a)) h ∙ undo c
    where
      undo : (x : T) → t.add (t.neg a) (t.add a x) ≡ x
      undo x = rw (← t.add_assoc, t.add_comm (t.neg a) a, t.add-neg) (t.zero-add x)

  pub scale_by_zero : (a : T) → t.scale a f.zero ≡ t.zero
  scale_by_zero a =
      plus_cancel (t.scale a f.zero) _ _ (
        sym (t.scale-plus a f.zero f.zero) ∙ ap (t.scale a) (f.zero-add f.zero) ∙ sym (plus_zero _))

  pub scale_zero : (c : F) → t.scale t.zero c ≡ t.zero
  scale_zero c = plus_cancel (t.scale t.zero c) _ _ (
      sym (t.scale-add t.zero t.zero c)
      ∙ ap (λ z. t.scale z c) (t.zero-add t.zero)
      ∙ sym (plus_zero _))

  pub plus_interchange :
      (a b c d : T) → t.add (t.add a b) (t.add c d) ≡ t.add (t.add a c) (t.add b d)
  plus_interchange a b c d =
      t.add_assoc a b _
      ∙ ap (t.add a)
          (sym (t.add_assoc b c d) ∙ ap (λ z. t.add z d) (t.add_comm b c) ∙ t.add_assoc c b d)
      ∙ sym (t.add_assoc a c _)

module _ {ℓ κ} {F : Type ℓ} {T : Type κ} ⦃f : Field F⦄ ⦃t : DomainCoeff F T⦄ where
  -- The value at `x` of a polynomial with coefficients in `T`.
  unfoldable pub eval_coeff : List T → F → T
  eval_coeff [] x = t.zero
  eval_coeff (a ∷ p) x = t.add (t.scale (eval_coeff p x) x) a

  pub eval_coeff-zeros : (n : ℕ) (x : F) → eval_coeff (replicate n t.zero) x ≡ t.zero
  unfolding eval_coeff
  eval_coeff-zeros zero x = refl
  eval_coeff-zeros (suc n) x =
      plus_zero t _ ∙ ap (λ z. t.scale z x) (eval_coeff-zeros n x) ∙ scale_zero t x

  length-add_multiple :
      (w : T) (r : List T) (n : List F)
      → length r ≤ length n
      → length (add_multiple w r n) ≡ length r
  unfolding add_multiple
  length-add_multiple w [] n h = refl
  length-add_multiple w (a ∷ r) [] h = absurd (omega arith)
  length-add_multiple w (a ∷ r) (c ∷ n) h = ap suc (length-add_multiple w r n (omega arith))

  eval_coeff-add_multiple :
      (w : T) (r : List T) (n : List F) (x : F)
      → length r ≤ length n
      → eval_coeff (add_multiple w r n) x
        ≡ t.add (eval_coeff r x) (t.scale w (eval (take (length r) n) x))
  unfolding add_multiple eval_coeff
  eval_coeff-add_multiple w [] n x h =
      sym (t.zero-add _ ∙ ap (t.scale w) (eval-nil x) ∙ scale_by_zero t w)
  eval_coeff-add_multiple w (a ∷ r) [] x h = absurd (omega arith)
  eval_coeff-add_multiple w (a ∷ r) (c ∷ n) x h =
      ap (λ z. t.add (t.scale z x) (t.add a (t.scale w c)))
        (eval_coeff-add_multiple w r n x (omega arith))
      ∙ ap (λ z. t.add z (t.add a (t.scale w c))) (t.scale-add _ _ x)
      ∙ plus_interchange t _ _ _ _
      ∙ ap (t.add (t.add (t.scale (eval_coeff r x) x) a)) (
          ap (λ z. t.add z (t.scale w c)) (t.scale-scale w _ x)
          ∙ sym (t.scale-plus w _ c)
          ∙ ap (t.scale w) (sym (eval-cons c (take (length r) n) x)))

  -- What the loop adds at the point `x`, for the nodes `zs`, each with its weight and numerator.
  unfoldable pub sum_of_values : (F → F) → (F → F) → List F → List T → T
  sum_of_values weight value [] ys = t.zero
  sum_of_values weight value (z ∷ zs) [] = t.zero
  sum_of_values weight value (z ∷ zs) (y ∷ ys) =
      t.add (t.scale (t.scale y (weight z)) (value z)) (sum_of_values weight value zs ys)

  pub interpolate_loop-sum :
      (weight : F → F) (numerator : F → List F) (size : ℕ) (r : List T) (zs : List F) (ys : List T)
      → length r ≡ size
      → ((z : F) → size ≤ length (numerator z))
      → length ys ≡ length zs
      → (s : List T) × (interpolate_loop r ys (map weight zs) (map numerator zs) ≡ some s)
        × (length s ≡ size)
        × ((x : F)
            → eval_coeff s x
              ≡ t.add
                  (eval_coeff r x)
                  (sum_of_values weight (λ z. eval (take size (numerator z)) x) zs ys))
  unfolding interpolate_loop sum_of_values
  interpolate_loop-sum weight numerator size r [] [] hr hn h =
      (r, refl, hr, λ x. sym (plus_zero t _))
  interpolate_loop-sum weight numerator size r [] (y ∷ ys) hr hn h = absurd (omega arith)
  interpolate_loop-sum weight numerator size r (z ∷ zs) [] hr hn h = absurd (omega arith)
  interpolate_loop-sum weight numerator size r (z ∷ zs) (y ∷ ys) hr hn h =
      let w = t.scale y (weight z) in
      let fits : length r ≤ length (numerator z) = omega (arith, hn z) in
      let (s, e, hs, v) =
        interpolate_loop-sum weight numerator size (add_multiple w r (numerator z)) zs ys
          (length-add_multiple w r (numerator z) fits ∙ hr) hn (omega arith) in
      (
        s,
        e,
        hs,
        λ x.
            v x
            ∙ ap (λ u. t.add u (sum_of_values weight (λ z. eval (take size (numerator z)) x) zs ys))
                (eval_coeff-add_multiple w r (numerator z) x fits)
            ∙ t.add_assoc _ _ _
            ∙ rw hr,
      )

  -- Of the sum only the term of the node `x` is left.
  sum_of_values-none :
      (weight value : F → F) (zs : List F) (ys : List T)
      → All (λ z. value z ≡ f.zero) zs
      → sum_of_values weight value zs ys ≡ t.zero
  unfolding sum_of_values
  sum_of_values-none weight value [] ys h = refl
  sum_of_values-none weight value (z ∷ zs) [] h = refl
  sum_of_values-none weight value (z ∷ zs) (y ∷ ys) h =
      ap₂ t.add (ap (t.scale (t.scale y (weight z))) h.0 ∙ scale_by_zero t _)
        (sum_of_values-none weight value zs ys h.1)
      ∙ t.zero-add _

  pub sum_of_values-at :
      (weight value : F → F) (x : F) (y : T) (zs : List F) (ys : List T) (k : ℕ)
      → Distinct zs
      → All (λ z. z ≢ x → value z ≡ f.zero) zs
      → weight x ⊗ value x ≡ f.one
      → get_elem? zs k ≡ some x
      → get_elem? ys k ≡ some y
      → sum_of_values weight value zs ys ≡ y
  unfolding sum_of_values
  sum_of_values-at weight value x y [] ys k d h one ex ey = cc
  sum_of_values-at weight value x y (z ∷ zs) [] k d h one ex ey = cc
  sum_of_values-at weight value x y (z ∷ zs) (u ∷ ys) zero d h one ex ey =
      ap₂ t.add
        (t.scale-scale u _ _
          ∙ ap₂ (λ a b. t.scale a (weight b ⊗ value b)) (eq_of_some ey) (eq_of_some ex)
          ∙ ap (t.scale y) one
          ∙ t.scale-one y)
        (sum_of_values-none weight value zs ys (others zs d.0 h.1))
      ∙ plus_zero t y
    where
      others :
          (zs : List F)
          → All (λ v. z ≢ v) zs
          → All (λ v. v ≢ x → value v ≡ f.zero) zs
          → All (λ v. value v ≡ f.zero) zs
      others [] a b = tt
      others (v ∷ zs) a b = (b.0 (λ e. a.0 (eq_of_some ex ∙ sym e)), others zs a.1 b.1)
  sum_of_values-at weight value x y (z ∷ zs) (u ∷ ys) (suc k) d h one ex ey =
      ap₂ t.add
        (ap (t.scale (t.scale u (weight z))) (h.0 (All-get_elem? (λ v. z ≢ v) zs k d.0 ex))
          ∙ scale_by_zero t _)
        (sum_of_values-at weight value x y zs ys k d.1 h.1 one ex ey)
      ∙ t.zero-add y

  eval_coeff-take :
      (p : List T) (k : ℕ) (x : F)
      → ((j : ℕ) → k ≤ j → get_or p j t.zero ≡ t.zero)
      → eval_coeff (take k p) x ≡ eval_coeff p x
  unfolding eval_coeff
  eval_coeff-take [] zero x h = refl
  eval_coeff-take [] (suc k) x h = refl
  eval_coeff-take (a ∷ p) zero x h = sym (
      ap₂ t.add
        (ap (λ z. t.scale z x) (sym (eval_coeff-take p zero x (λ j _. h (suc j) (omega arith)))))
        (h 0 (omega arith))
      ∙ plus_zero t _
      ∙ scale_zero t x)
  eval_coeff-take (a ∷ p) (suc k) x h =
      ap (λ z. t.add (t.scale z x) a) (eval_coeff-take p k x (λ j l. h (suc j) (omega arith)))

  -- Dropping the zeros at the end keeps the polynomial.
  pub eval_coeff-remove_leading_zeros :
      (p : List T) (x : F)
      → eval_coeff (remove_leading_zeros t.zero (λ a. t.beq a t.zero) p) x ≡ eval_coeff p x
  unfolding remove_leading_zeros
  eval_coeff-remove_leading_zeros p x = eval_coeff-take p _ x (
      find_truncate_pos-zeros t.zero (λ a. t.beq a t.zero) (λ a. (t.beq_iff a t.zero).0) p
        (length p) (get_or-beyond t.zero p))
