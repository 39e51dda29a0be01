-- ===== src/Sharing/Poly.antt =====
-- secret-sharing/src/utils.rs: polynomials as coefficient lists, the constant first.
-- A slice that the code writes in place is a list that the loop passes on, and `none` is a panic.
pub mod Eval
pub mod Division
pub mod Roots
pub mod Lagrange
use zk_pse.Base.{
  ℕ, zero, suc, ◌+◌, ◌-◌, ◌==◌, ltb, Bool, not, if◌then◌else◌, List, [], ◌∷◌, ◌++◌, foldl, reverse,
  map, length, get_elem?, leb, get_or, set, drop, take, replicate, zip_with, Option, none, some,
  assert, traverse, ◌>>=◌,
}
use zk_pse.Algebra.{Field, DomainCoeff, ◌⊕◌, ◌⊗◌, ◌⊖◌}

module _ {ℓ} {F : Type ℓ} ⦃f : Field F⦄ where
  -- one round of the fold
  abbrev horner : F → F → F → F
  horner x acc coeff = (acc ⊗ x) ⊕ coeff

  unfoldable pub eval : List F → F → F
  eval p x = foldl (horner x) f.zero (reverse p)

  pub eval_many : List F → List F → List F
  eval_many p xs = map (eval p) xs

  -- the loop for a = 1, from the last coefficient to the first: what it writes, and `c` after it
  unfoldable pub divide_linear : F → List F → List F × F
  divide_linear b [] = ([], f.zero)
  divide_linear b (coeff ∷ p) = let (q, c) = divide_linear b p in (c ∷ q, coeff ⊕ (b ⊗ c))

  -- `p[i] += y`, where `y` is made of `p[i + a]`: `none` is the panic of an index out of range.
  abbrev pub add_at : (F → F) → ℕ → ℕ → List F → Option (List F)
  add_at g a i p = elim (get_elem? p (i + a)) [
    | none ↦ none
    | some y ↦ elim (get_elem? p i) [ none ↦ none | some x ↦ some (set p i (x ⊕ g y)) ]
  ]

  -- `p[i] += p[i + a] * b`
  unfoldable pub divide_step : ℕ → F → ℕ → List F → Option (List F)
  divide_step a b i p = add_at (λ y. y ⊗ b) a i p

  -- `for i in (0..n).rev() { p[i] += p[i + a] * b; }`
  unfoldable pub divide_power : ℕ → F → ℕ → List F → Option (List F)
  divide_power a b zero p = some p
  divide_power a b (suc i) p = elim (divide_step a b i p) [
    | none ↦ none
    | some q ↦ divide_power a b i q
  ]

  -- `for i in (0..n).rev() { p[i] += p[i + a]; }`
  unfoldable pub divide_power_one : ℕ → ℕ → List F → Option (List F)
  divide_power_one a zero p = some p
  divide_power_one a (suc i) p = elim (add_at (λ y. y) a i p) [
    | none ↦ none
    | some q ↦ divide_power_one a i q
  ]

  -- `copy_within(a.., 0)` and `fill` of the tail: the ranges are checked.
  unfoldable pub discard_remainder : ℕ → List F → Option (List F)
  discard_remainder a p = assert (leb a (length p)) (some (drop a p ++ replicate a f.zero))

  unfoldable pub syn_div : List F → ℕ → F → Option (List F)
  syn_div p a b = assert (not (a == 0)) (
      assert (not (f.beq b f.zero)) (
        assert (ltb a (length p)) (
          if a == 1
          then some (divide_linear b p).0
          else (elim (if f.beq b f.one
              then divide_power_one a (length p - a) p
              else divide_power a b (length p - a) p) [
                | none ↦ none
                | some rest ↦ discard_remainder a rest
              ]))))

  -- `for j in j..xs.len() { result[j] = result[j] - result[j + 1] * x; }` with `rounds` to go
  unfoldable pub subtract_shifted : F → ℕ → ℕ → List F → List F
  subtract_shifted x zero j result = result
  subtract_shifted x (suc rounds) j result =
      subtract_shifted x rounds (suc j)
        (set result j (get_or result j f.zero ⊖ (get_or result (suc j) f.zero ⊗ x)))

  -- the loop over `xs`, with `n` as the loop finds it and `len` for `xs.len()`
  unfoldable pub zero_roots_loop : ℕ → ℕ → List F → List F → List F
  zero_roots_loop len n [] result = result
  zero_roots_loop len n (x ∷ xs) result =
      zero_roots_loop len (n - 1) xs
        (subtract_shifted x (len - (n - 1)) (n - 1) (set result (n - 1) f.zero))

  unfoldable pub get_zero_roots : List F → List F
  get_zero_roots xs =
      zero_roots_loop (length xs) (length xs) xs
        (set (replicate (length xs + 1) f.zero) (length xs) f.one)

module _ {ℓ} {T : Type ℓ} (zero_coeff : T) (is_zero : T → Bool) where
  -- `for i in (0..i).rev()`: one past the last entry that is not zero, else all of them
  unfoldable pub find_truncate_pos : List T → ℕ → ℕ
  find_truncate_pos result zero = length result
  find_truncate_pos result (suc i) =
      let rest = find_truncate_pos result i in
      if not (is_zero (get_or result i zero_coeff)) then i + 1 else rest

  unfoldable pub remove_leading_zeros : List T → List T
  remove_leading_zeros result = take (find_truncate_pos result (length result)) result

module _ {ℓ κ} {F : Type ℓ} {T : Type κ} ⦃f : Field F⦄ ⦃t : DomainCoeff F T⦄ where
  -- `for (j, res) in result.iter_mut().enumerate() { *res += y * numerator[j]; }`
  unfoldable pub add_multiple : T → List T → List F → List T
  add_multiple y result numerator = zip_with (λ res n. t.add res (t.scale y n)) result numerator

  -- `for i in 0..ys.len()`; an index beyond `numerators` or `denominators` is a panic
  unfoldable pub interpolate_loop : List T → List T → List F → List (List F) → Option (List T)
  interpolate_loop result [] ds ns = some result
  interpolate_loop result (y ∷ ys) [] ns = none
  interpolate_loop result (y ∷ ys) (d ∷ ds) [] = none
  interpolate_loop result (y ∷ ys) (d ∷ ds) (n ∷ ns) =
      interpolate_loop (add_multiple (t.scale y d) result n) ys ds ns

  -- `batch_inversion` is ark-ff's
  unfoldable pub lagrange_interpolate : (List F → List F) → List F → List T → Option (List T)
  lagrange_interpolate batch_inversion xs ys = do
    let roots = get_zero_roots xs
    numerators ← traverse (syn_div roots 1) xs
    let denominators = batch_inversion (zip_with eval numerators xs)
    result ← interpolate_loop (replicate (length numerators) t.zero) ys denominators numerators
    some (remove_leading_zeros t.zero (λ a. t.beq a t.zero) result)
