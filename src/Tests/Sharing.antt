-- ===== src/Tests/Sharing.antt =====
-- The theorems on secret-sharing/src, at polynomials and sharings over the integers modulo 3.
use zk_pse.Base.{
  ℕ, ◌≤◌, ◌↔◌, ◌⊎◌, List, [], ◌∷◌, map, length, Option, none, some, ◌≡◌, ◌≢◌, refl, arith, All,
  zip_with,
}
use zk_pse.Algebra.Sample.{Gf3, gf3_field, r0, r1, r2, mul, inverse}
use zk_pse.Sharing.Poly.{
  eval, syn_div, divide_power, divide_step, discard_remainder, get_zero_roots, lagrange_interpolate,
}
use zk_pse.Sharing.Poly.Eval.{sum_of_terms, eval-sum_of_terms}
use zk_pse.Sharing.Poly.Division.{IsDivision, syn_div_returns, syn_div-eq-none}
use zk_pse.Sharing.Poly.Roots.{root_product, eval-get_zero_roots}
use zk_pse.Sharing.Poly.Lagrange.{lagrange_interpolate_lem}
use zk_pse.Sharing.Poly.Lagrange.Coeff.{eval_coeff}
use zk_pse.Sharing.Pss.{
  step_by_two, new_unchecked, EvaluationDomain, PackedSharingParams, pack, unpack, unpack2,
  new_with_params, is_power_of_two,
}
use zk_pse.Sharing.Pss.Params.{new_with_params_refuses_default}
use zk_pse.Sharing.Pss.Pack.{unpack-pack}
use zk_pse.Sharing.Pss.Product.{field_coeff, unpack2-product}
use zk_pse.Tests.Domains.{params, params-IsValid, share_domain, secret2_domain}

-- 2 + x + x^2
abbrev quadratic : List Gf3
quadratic = r2 ∷ r1 ∷ r1 ∷ []

eval-sum_of_terms_example : eval quadratic r2 ≡ sum_of_terms r2 0 quadratic
eval-sum_of_terms_example = eval-sum_of_terms quadratic r2

r1-ne-r2 : r1 ≢ r2
r1-ne-r2 e = cc

r2-ne-r0 : r2 ≢ r0
r2-ne-r0 e = cc

r1-ne-r0 : r1 ≢ r0
r1-ne-r0 e = cc

two-ne-zero : ◌≢◌ {A = ℕ} 2 0
two-ne-zero e = omega arith

-- The quotient of 2 + x + x^2 by x^2 - 2 is 1, its remainder 1 + x.
syn_div_returns_example :
    (q : List Gf3) × (r : List Gf3) × (syn_div quadratic 2 r2 ≡ some q)
    × IsDivision quadratic 2 r2 q r
syn_div_returns_example = syn_div_returns quadratic 2 r2 two-ne-zero r2-ne-r0 (omega arith)

syn_div_example : syn_div quadratic 2 r2 ≡ some (r1 ∷ r0 ∷ r0 ∷ [])
unfolding syn_div divide_power divide_step discard_remainder
syn_div_example = refl

syn_div-eq-none_example :
    (syn_div quadratic 3 r1 ≡ none) ↔ ((◌≡◌ {A = ℕ} 3 0) ⊎ (r1 ≡ r0) ⊎ (3 ≤ 3))
syn_div-eq-none_example = syn_div-eq-none quadratic 3 r1

eval-get_zero_roots_example :
    (length (get_zero_roots (r1 ∷ r2 ∷ [])) ≡ 3)
    × ((y : Gf3) → eval (get_zero_roots (r1 ∷ r2 ∷ [])) y ≡ root_product (r1 ∷ r2 ∷ []) y)
eval-get_zero_roots_example = eval-get_zero_roots (r1 ∷ r2 ∷ [])

-- `batch_inversion` inverts each value.
inverts : (vs : List Gf3) → All (λ v. v ≢ r0) vs → map inverse vs ≡ map inverse vs
inverts vs h = refl

lagrange_interpolate_lem_example :
    (r : List Gf3) × (lagrange_interpolate (map inverse) (r1 ∷ r2 ∷ []) (r2 ∷ r0 ∷ []) ≡ some r)
    × (length r ≤ 2)
    × (map (eval_coeff r) (r1 ∷ r2 ∷ []) ≡ r2 ∷ r0 ∷ [])
lagrange_interpolate_lem_example =
    lagrange_interpolate_lem (map inverse) inverts (r1 ∷ r2 ∷ []) (r2 ∷ r0 ∷ [])
      ((r1-ne-r2, tt), (tt, tt)) (r1-ne-r0, (r2-ne-r0, tt)) refl

unpack-pack_example : unpack params (pack params (r2 ∷ []) []) ≡ r2 ∷ []
unpack-pack_example = unpack-pack params params-IsValid (r2 ∷ []) [] refl refl

unpack2-product_example :
    unpack2 params (zip_with mul (pack params (r2 ∷ []) []) (pack params (r2 ∷ []) []))
    ≡ some (r1 ∷ [])
unfolding step_by_two
unpack2-product_example =
    unpack2-product params params-IsValid refl (r2 ∷ []) (r2 ∷ []) [] [] refl refl refl refl

-- The model does not ask that the domain a constructor returns has the size asked for.
abbrev new_domain : ℕ → Option (EvaluationDomain Gf3 Gf3)
new_domain n = some share_domain

abbrev get_coset : EvaluationDomain Gf3 Gf3 → Option (EvaluationDomain Gf3 Gf3)
get_coset e = some secret2_domain

abbrev accepted : PackedSharingParams Gf3 Gf3
accepted = record {
  t = 1;
  l = 1;
  n = 8;
  share = share_domain;
  secret = secret2_domain;
  secret2 = secret2_domain;
}

new_with_params_example : new_with_params new_domain get_coset 8 1 1 ≡ some accepted
unfolding new_with_params is_power_of_two new_unchecked
new_with_params_example = refl

new_with_params_refuses_default_example : new_with_params new_domain get_coset 8 2 2 ≡ none
new_with_params_refuses_default_example = new_with_params_refuses_default new_domain get_coset 2
