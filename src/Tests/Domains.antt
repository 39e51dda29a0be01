-- ===== src/Tests/Domains.antt =====
-- Evaluation domains over the integers modulo 3: `EvaluationDomain` at concrete functions.
use zk_pse.Base.{arith, ℕ, List, [], ◌∷◌, map, length, get_or, resize, ◌≡◌, refl}
use zk_pse.Algebra.Sample.{Gf3, gf3_field, r0, r1, r2, add, mul}
use zk_pse.Sharing.Pss.{EvaluationDomain, PackedSharingParams}
use zk_pse.Sharing.Pss.Pack.{IsValid}
use zk_pse.Sharing.Pss.Product.{field_coeff}
use zk_pse.Sharing.Poly.Lagrange.Coeff.{eval_coeff}

abbrev pub fft_at : List Gf3 → ℕ → List Gf3 → List Gf3
fft_at elements n c = map (eval_coeff (resize n r0 c)) elements

-- The polynomial with value a at 1 and b at 2.
abbrev pub line : Gf3 → Gf3 → List Gf3
line a b = mul r2 (add a b) ∷ add (mul r2 a) b ∷ []

abbrev pub ifft_up : List Gf3 → List Gf3
ifft_up v = line (get_or v 0 r0) (get_or v 1 r0)

abbrev pub ifft_down : List Gf3 → List Gf3
ifft_down v = line (get_or v 1 r0) (get_or v 0 r0)

pub fft-ifft_up : (v : List Gf3) → length v ≡ 2 → fft_at (r1 ∷ r2 ∷ []) 2 (ifft_up v) ≡ v
unfolding eval_coeff
fft-ifft_up (r0 ∷ r0 ∷ []) h = refl
fft-ifft_up (r0 ∷ r1 ∷ []) h = refl
fft-ifft_up (r0 ∷ r2 ∷ []) h = refl
fft-ifft_up (r1 ∷ r0 ∷ []) h = refl
fft-ifft_up (r1 ∷ r1 ∷ []) h = refl
fft-ifft_up (r1 ∷ r2 ∷ []) h = refl
fft-ifft_up (r2 ∷ r0 ∷ []) h = refl
fft-ifft_up (r2 ∷ r1 ∷ []) h = refl
fft-ifft_up (r2 ∷ r2 ∷ []) h = refl
fft-ifft_up [] h = cc
fft-ifft_up (x ∷ []) h = cc
fft-ifft_up (x ∷ y ∷ z ∷ v) h = cc

pub ifft-fft_up : (v : List Gf3) → length v ≡ 2 → ifft_up (fft_at (r1 ∷ r2 ∷ []) 2 v) ≡ v
unfolding eval_coeff
ifft-fft_up (r0 ∷ r0 ∷ []) h = refl
ifft-fft_up (r0 ∷ r1 ∷ []) h = refl
ifft-fft_up (r0 ∷ r2 ∷ []) h = refl
ifft-fft_up (r1 ∷ r0 ∷ []) h = refl
ifft-fft_up (r1 ∷ r1 ∷ []) h = refl
ifft-fft_up (r1 ∷ r2 ∷ []) h = refl
ifft-fft_up (r2 ∷ r0 ∷ []) h = refl
ifft-fft_up (r2 ∷ r1 ∷ []) h = refl
ifft-fft_up (r2 ∷ r2 ∷ []) h = refl
ifft-fft_up [] h = cc
ifft-fft_up (x ∷ []) h = cc
ifft-fft_up (x ∷ y ∷ z ∷ v) h = cc

pub fft-ifft_down : (v : List Gf3) → length v ≡ 2 → fft_at (r2 ∷ r1 ∷ []) 2 (ifft_down v) ≡ v
unfolding eval_coeff
fft-ifft_down (r0 ∷ r0 ∷ []) h = refl
fft-ifft_down (r0 ∷ r1 ∷ []) h = refl
fft-ifft_down (r0 ∷ r2 ∷ []) h = refl
fft-ifft_down (r1 ∷ r0 ∷ []) h = refl
fft-ifft_down (r1 ∷ r1 ∷ []) h = refl
fft-ifft_down (r1 ∷ r2 ∷ []) h = refl
fft-ifft_down (r2 ∷ r0 ∷ []) h = refl
fft-ifft_down (r2 ∷ r1 ∷ []) h = refl
fft-ifft_down (r2 ∷ r2 ∷ []) h = refl
fft-ifft_down [] h = cc
fft-ifft_down (x ∷ []) h = cc
fft-ifft_down (x ∷ y ∷ z ∷ v) h = cc

pub ifft-fft_down : (v : List Gf3) → length v ≡ 2 → ifft_down (fft_at (r2 ∷ r1 ∷ []) 2 v) ≡ v
unfolding eval_coeff
ifft-fft_down (r0 ∷ r0 ∷ []) h = refl
ifft-fft_down (r0 ∷ r1 ∷ []) h = refl
ifft-fft_down (r0 ∷ r2 ∷ []) h = refl
ifft-fft_down (r1 ∷ r0 ∷ []) h = refl
ifft-fft_down (r1 ∷ r1 ∷ []) h = refl
ifft-fft_down (r1 ∷ r2 ∷ []) h = refl
ifft-fft_down (r2 ∷ r0 ∷ []) h = refl
ifft-fft_down (r2 ∷ r1 ∷ []) h = refl
ifft-fft_down (r2 ∷ r2 ∷ []) h = refl
ifft-fft_down [] h = cc
ifft-fft_down (x ∷ []) h = cc
ifft-fft_down (x ∷ y ∷ z ∷ v) h = cc

abbrev pub ifft_one : List Gf3 → List Gf3
ifft_one v = get_or v 0 r0 ∷ []

pub fft-ifft_one : (v : List Gf3) → length v ≡ 1 → fft_at (r2 ∷ []) 1 (ifft_one v) ≡ v
unfolding eval_coeff
fft-ifft_one (r0 ∷ []) h = refl
fft-ifft_one (r1 ∷ []) h = refl
fft-ifft_one (r2 ∷ []) h = refl
fft-ifft_one [] h = cc
fft-ifft_one (x ∷ y ∷ v) h = cc

pub ifft-fft_one : (v : List Gf3) → length v ≡ 1 → ifft_one (fft_at (r2 ∷ []) 1 v) ≡ v
unfolding eval_coeff
ifft-fft_one (r0 ∷ []) h = refl
ifft-fft_one (r1 ∷ []) h = refl
ifft-fft_one (r2 ∷ []) h = refl
ifft-fft_one [] h = cc
ifft-fft_one (x ∷ y ∷ v) h = cc

-- the subgroup of order 2
abbrev pub share_domain : EvaluationDomain Gf3 Gf3
share_domain = record {
  size = 2;
  elements = r1 ∷ r2 ∷ [];
  fft = fft_at (r1 ∷ r2 ∷ []) 2;
  ifft = ifft_up;
  length-elements = refl;
  fft-eval = λ c. refl;
  length-ifft = λ v. refl;
  fft-ifft = fft-ifft_up;
  ifft-fft = ifft-fft_up;
}

-- its coset at 2
abbrev pub secret2_domain : EvaluationDomain Gf3 Gf3
secret2_domain = record {
  size = 2;
  elements = r2 ∷ r1 ∷ [];
  fft = fft_at (r2 ∷ r1 ∷ []) 2;
  ifft = ifft_down;
  length-elements = refl;
  fft-eval = λ c. refl;
  length-ifft = λ v. refl;
  fft-ifft = fft-ifft_down;
  ifft-fft = ifft-fft_down;
}

-- the coset of the subgroup of order 1 at 2
abbrev pub secret_domain : EvaluationDomain Gf3 Gf3
secret_domain = record {
  size = 1;
  elements = r2 ∷ [];
  fft = fft_at (r2 ∷ []) 1;
  ifft = ifft_one;
  length-elements = refl;
  fft-eval = λ c. refl;
  length-ifft = λ v. refl;
  fft-ifft = fft-ifft_one;
  ifft-fft = ifft-fft_one;
}

abbrev pub params : PackedSharingParams Gf3 Gf3
params = record {
  t = 0;
  l = 1;
  n = 2;
  share = share_domain;
  secret = secret_domain;
  secret2 = secret2_domain;
}

abbrev pub params-IsValid : IsValid params
params-IsValid = record {
  share_size = refl;
  secret_size = refl;
  secret2_size = refl;
  room = omega arith;
}
