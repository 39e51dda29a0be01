-- ===== src/Sharing/Pss.antt =====
-- secret-sharing/src/pss.rs: packed secret sharing. The evaluation domains are those of ark-poly,
-- a third-party crate: a record of what the code calls, with the behaviour that ark-poly documents.
pub mod Params
pub mod Pack
pub mod Product
use zk_pse.Base.{
  ℕ, zero, suc, ◌+◌, ◌-◌, ◌*◌, ◌/◌, ◌%◌, ◌≤◌, ◌==◌, ltb, leb, Bool, true, false, not, ◌&&◌,
  if◌then◌else◌, List, [], ◌∷◌, ◌++◌, map, length, resize, take, get_elem?, traverse, Option, none,
  some, assert, ◌≡◌, ◌>>=◌,
}
use zk_pse.Algebra.{Field, DomainCoeff}
use zk_pse.Sharing.Poly.{lagrange_interpolate}
use zk_pse.Sharing.Poly.Lagrange.Coeff.{eval_coeff}

-- `Radix2EvaluationDomain<F>`, at the coefficients that a sharing is over: a transform first cuts
-- off or fills up its input to the size of the domain, and then evaluates it at the elements.
pub record EvaluationDomain {ℓ κ} (F : Type ℓ) (T : Type κ) ⦃f : Field F⦄ ⦃t : DomainCoeff F T⦄
    : Type (ℓ ⊔ κ) where
  pub size : ℕ
  pub elements : List F
  pub fft : List T → List T
  pub ifft : List T → List T
  pub length-elements : length elements ≡ size
  pub fft-eval : (c : List T) → fft c ≡ map (eval_coeff (resize size t.zero c)) elements
  pub length-ifft : (v : List T) → length (ifft v) ≡ size
  pub fft-ifft : (v : List T) → length v ≡ size → fft (ifft v) ≡ v
  pub ifft-fft : (c : List T) → length c ≡ size → ifft (fft c) ≡ c

-- `usize::is_power_of_two`: halving reaches 1 by even numbers. The number is fuel enough.
unfoldable pub halves_to_one : ℕ → ℕ → Bool
halves_to_one zero n = false
halves_to_one (suc fuel) n =
    let rest = halves_to_one fuel (n / 2) in
    if n == 1 then true else if n == 0 then false else (if n % 2 == 0 then rest else false)

unfoldable pub is_power_of_two : ℕ → Bool
unfolding halves_to_one
is_power_of_two n = halves_to_one n n

-- `iter().step_by(2)`
unfoldable pub step_by_two {ℓ} : {A : Type ℓ} → List A → List A
step_by_two [] = []
step_by_two (x ∷ []) = x ∷ []
step_by_two (x ∷ y ∷ xs) = x ∷ step_by_two xs

pub record PackedSharingParams {ℓ κ} (F : Type ℓ) (T : Type κ) ⦃f : Field F⦄ ⦃d : DomainCoeff F T⦄
    : Type (ℓ ⊔ κ) where
  pub t : ℕ
  pub l : ℕ
  pub n : ℕ
  pub share : EvaluationDomain F T
  pub secret : EvaluationDomain F T
  pub secret2 : EvaluationDomain F T

module _ {ℓ κ} {F : Type ℓ} {T : Type κ} ⦃f : Field F⦄ ⦃d : DomainCoeff F T⦄ where
  -- `new_domain` and `get_coset` are ark-poly's, the latter at `F::GENERATOR`; `none` is a panic.
  unfoldable pub new_unchecked :
      (ℕ → Option (EvaluationDomain F T))
      → (EvaluationDomain F T → Option (EvaluationDomain F T))
      → ℕ
      → ℕ
      → ℕ
      → Option (PackedSharingParams F T)
  new_unchecked new_domain get_coset n l t = do
    share ← new_domain n
    secret ← new_domain (l + t) >>= get_coset
    secret2 ← new_domain (2 * (l + t)) >>= get_coset
    some (record { t = t; l = l; n = n; share = share; secret = secret; secret2 = secret2 })

  unfoldable pub new :
      (ℕ → Option (EvaluationDomain F T))
      → (EvaluationDomain F T → Option (EvaluationDomain F T))
      → ℕ
      → Option (PackedSharingParams F T)
  new new_domain get_coset l = new_unchecked new_domain get_coset (l * 4) l l

  -- `n / 2 - l` below zero is a panic with overflow checks, and wraps without them: `leb l (n / 2)`
  -- follows from the assertion before it, so it never happens.
  unfoldable pub new_with_params :
      (ℕ → Option (EvaluationDomain F T))
      → (EvaluationDomain F T → Option (EvaluationDomain F T))
      → ℕ
      → ℕ
      → ℕ
      → Option (PackedSharingParams F T)
  new_with_params new_domain get_coset n l t = assert (is_power_of_two n) (
      assert (is_power_of_two (l + t)) (
        assert (leb (2 * (l + t)) n)
          (assert (ltb t (n / 2 - l)) (new_unchecked new_domain get_coset n l t))))

  module _ (pp : PackedSharingParams F T) where
    unfoldable pub det_pack : List T → List T
    det_pack secrets = pp.share.fft (pp.secret.ifft (resize (pp.l + pp.t) d.zero secrets))

    -- `rand_points` is what the random number generator yields.
    unfoldable pub pack : List T → List T → List T
    pack secrets rand_points = pp.share.fft (pp.secret.ifft (secrets ++ rand_points))

    unfoldable pub unpack : List T → List T
    unpack shares = take pp.l (pp.secret.fft (pp.share.ifft shares))

    -- `result[0..2 * self.l]`
    unfoldable pub drop_alternate : List T → Option (List T)
    drop_alternate result =
        assert (leb (2 * pp.l) (length result)) (some (step_by_two (take (2 * pp.l) result)))

    unfoldable pub unpack2 : List T → Option (List T)
    unpack2 shares = drop_alternate (pp.secret2.fft (pp.share.ifft shares))

    -- `batch_inversion` is ark-ff's, as in `lagrange_interpolate`.
    unfoldable pub lagrange_unpack : (List F → List F) → List T → List ℕ → Option (List T)
    lagrange_unpack batch_inversion shares parties = do
      xs ← traverse (get_elem? pp.share.elements) parties
      result ← lagrange_interpolate batch_inversion xs shares
      drop_alternate (pp.secret2.fft result)

    unfoldable pub unpack_missing_shares : (List F → List F) → List T → List ℕ → Option (List T)
    unpack_missing_shares batch_inversion shares parties =
        if length shares == pp.n
        then unpack2 shares
        else lagrange_unpack batch_inversion shares parties
