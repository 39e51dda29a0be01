-- ===== src/Sharing/Pss/Params.antt =====
-- The parameters that secret-sharing/src/pss.rs accepts.
use zk_pse.Base.{
  ℕ, ◌+◌, ◌-◌, ◌*◌, ◌/◌, ltb, leb, Bool, true, false, Option, none, assert, ◌≡◌, refl, arith,
}
use zk_pse.Algebra.{Field, DomainCoeff}
use zk_pse.Sharing.Pss.{EvaluationDomain, new_with_params, is_power_of_two}

module _ {ℓ κ} {F : Type ℓ} {T : Type κ} ⦃f : Field F⦄ ⦃d : DomainCoeff F T⦄
    (new_domain : ℕ → Option (EvaluationDomain F T))
    (get_coset : EvaluationDomain F T → Option (EvaluationDomain F T)) where
  -- The parameters that `new` takes, four parties for each secret and as many random points as
  -- secrets, are refused by `new_with_params` for every packing factor.
  pub new_with_params_refuses_default :
      (l : ℕ) → new_with_params new_domain get_coset (l * 4) l l ≡ none
  unfolding new_with_params
  new_with_params_refuses_default l =
      refused (is_power_of_two (l * 4)) (is_power_of_two (l + l)) (leb (2 * (l + l)) (l * 4))
        (ltb l (l * 4 / 2 - l)) _ (ground arith)
    where
      refused :
          {A : Type (ℓ ⊔ κ)}
          → (a b c e : Bool) (k : Option A) → e ≡ false
          → assert a (assert b (assert c (assert e k))) ≡ none
      refused a b c true k h = cc
      refused false b c false k h = refl
      refused true false c false k h = refl
      refused true true false false k h = refl
      refused true true true false k h = refl
