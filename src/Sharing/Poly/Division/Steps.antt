-- ===== src/Sharing/Poly/Division/Steps.antt =====
-- The loops of `syn_div` (secret-sharing/src/utils.rs), one step at a time.
use zk_pse.Base.{
  assert, ⊎_elim, ◌⊎◌, ℕ, zero, suc, ◌+◌, ◌<◌, Bool, true, false, List, [], ◌∷◌, ◌++◌, get_or,
  get_elem?, set, Option, ◌≤◌, take, drop, length, length-take, length-set, none, some, ◌≡◌, refl,
  sym, ap, ap₂, ◌∙◌, arith,
}
use Prim.Native.Nat.add
use zk_pse.Algebra.{Field, ◌⊕◌, ◌⊗◌, ◌⊖◌}
use zk_pse.Algebra.Laws.{zero-mul, add-zero, mul-one}
use zk_pse.Algebra.Ring.{ring, norm, v0, v1, v2, v3, v4, v5, ◌⊞◌, ◌⊠◌, ⊟, Expr}
use zk_pse.Sharing.Poly.{eval, divide_linear, add_at, divide_step, divide_power, divide_power_one}
use zk_pse.Sharing.Poly.Eval.{power, eval-nil, eval-cons, eval-append}

module _ {ℓ} {F : Type ℓ} ⦃f : Field F⦄ where
  pub length-divide_linear : (b : F) (p : List F) → length (divide_linear b p).0 ≡ length p
  unfolding divide_linear
  length-divide_linear b [] = refl
  length-divide_linear b (c ∷ p) = ap suc (length-divide_linear b p)

  pub divide_linear-remainder : (b : F) (p : List F) → (divide_linear b p).1 ≡ eval p b
  unfolding divide_linear norm
  divide_linear-remainder b [] = sym (eval-nil b)
  divide_linear-remainder b (c ∷ p) =
      ap (λ z. c ⊕ (b ⊗ z)) (divide_linear-remainder b p)
      ∙ ring (c ∷ b ∷ eval p b ∷ []) (v0 ⊞ v1 ⊠ v2) (v2 ⊠ v1 ⊞ v0) refl
      ∙ sym (eval-cons c p b)

  -- p(x) = q(x) (x - b) + p(b)
  pub eval-divide_linear :
      (b : F) (p : List F) (x : F) → eval p x ≡ (eval (divide_linear b p).0 x ⊗ (x ⊖ b)) ⊕ eval p b
  unfolding divide_linear norm
  eval-divide_linear b [] x = simp (eval-nil, zero-mul, add-zero)
  eval-divide_linear b (c ∷ p) x =
      eval-cons c p x
      ∙ ap (λ z. (z ⊗ x) ⊕ c) (eval-divide_linear b p x)
      ∙ ring (eval (divide_linear b p).0 x ∷ x ∷ b ∷ eval p b ∷ c ∷ [])
          ((v0 ⊠ (v1 ⊞ ⊟ v2) ⊞ v3) ⊠ v1 ⊞ v4) ((v0 ⊠ v1 ⊞ v3) ⊠ (v1 ⊞ ⊟ v2) ⊞ (v3 ⊠ v2 ⊞ v4)) refl
      ∙ sym
          (rw (divide_linear-remainder b p, eval-cons _ (divide_linear b p).0, eval-cons c p) refl)

  -- What the loops write where no index is out of range.
  stepped : ℕ → F → ℕ → List F → List F
  stepped a b i p = set p i (get_or p i f.zero ⊕ (get_or p (i + a) f.zero ⊗ b))

  pub powered : ℕ → F → ℕ → List F → List F
  powered a b zero p = p
  powered a b (suc i) p = powered a b i (stepped a b i p)

  length-stepped : (a i : ℕ) (b : F) (p : List F) → length (stepped a b i p) ≡ length p
  unfolding stepped
  length-stepped a i b p = length-set p i _

  elem_of : (p : List F) (i : ℕ) → i < length p → get_elem? p i ≡ some (get_or p i f.zero)
  elem_of [] i h = absurd (omega arith)
  elem_of (x ∷ p) zero h = refl
  elem_of (x ∷ p) (suc i) h = elem_of p i (omega arith)

  add_at-returns :
      (g : F → F) (a i : ℕ) (p : List F)
      → i + a < length p
      → add_at g a i p ≡ some (set p i (get_or p i f.zero ⊕ g (get_or p (i + a) f.zero)))
  add_at-returns g a i p h =
      ap
        (λ o. elim o as (λ z. Option (List F)) [
          | none ↦ none
          | some y ↦ elim (get_elem? p i) [ none ↦ none | some x ↦ some (set p i (x ⊕ g y)) ]
        ])
        (elem_of p (i + a) h)
      ∙ ap
          (λ o. elim o as (λ z. Option (List F)) [
            | none ↦ none
            | some x ↦ some (set p i (x ⊕ g (get_or p (i + a) f.zero)))
          ])
          (elem_of p i (omega arith))

  -- No index of the loops is out of range.
  pub divide_power-returns :
      (a n : ℕ) (b : F) (p : List F)
      → n + a ≤ length p
      → divide_power a b n p ≡ some (powered a b n p)
  unfolding divide_power divide_step powered stepped
  divide_power-returns a zero b p h = refl
  divide_power-returns a (suc i) b p h =
      ap (λ o. elim o as (λ z. Option (List F)) [ none ↦ none | some q ↦ divide_power a b i q ])
        (add_at-returns (λ y. y ⊗ b) a i p (omega arith))
      ∙ divide_power-returns a i b (stepped a b i p) (omega (arith, length-stepped a i b p))

  pub divide_power_one-returns :
      (a n : ℕ) (p : List F)
      → n + a ≤ length p
      → divide_power_one a n p ≡ some (powered a f.one n p)
  unfolding divide_power_one powered stepped
  divide_power_one-returns a zero p h = refl
  divide_power_one-returns a (suc i) p h =
      ap (λ o. elim o as (λ z. Option (List F)) [ none ↦ none | some q ↦ divide_power_one a i q ])
        (add_at-returns (λ y. y) a i p (omega arith)
          ∙ ap (λ z. some (set p i (get_or p i f.zero ⊕ z))) (sym (mul-one _)))
      ∙ divide_power_one-returns a i (stepped a f.one i p)
          (omega (arith, length-stepped a i f.one p))

  stepped-zero :
      (a : ℕ) (b c : F) (p : List F)
      → stepped (suc a) b 0 (c ∷ p) ≡ (c ⊕ (get_or p a f.zero ⊗ b)) ∷ p
  unfolding stepped
  stepped-zero a b c p = rw add.zero

  stepped-suc : (a i : ℕ) (b c : F) (p : List F) → stepped a b (suc i) (c ∷ p) ≡ c ∷ stepped a b i p
  unfolding stepped
  stepped-suc a i b c p = rw add.suc

  powered-cons :
      (a n : ℕ) (b c : F) (p : List F)
      → powered (suc a) b (suc n) (c ∷ p)
        ≡ (c ⊕ (get_or (powered (suc a) b n p) a f.zero ⊗ b)) ∷ powered (suc a) b n p
  unfolding powered
  powered-cons a zero b c p = stepped-zero a b c p
  powered-cons a (suc i) b c p =
      ap (powered (suc a) b (suc i)) (stepped-suc (suc a) i b c p)
      ∙ powered-cons a i b c (stepped (suc a) b i p)

  pub length-powered : (a n : ℕ) (b : F) (p : List F) → length (powered a b n p) ≡ length p
  unfolding powered stepped
  length-powered a zero b p = refl
  length-powered a (suc i) b p = length-powered a i b _ ∙ length-set p i _

pub drop-eq-cons {ℓ} :
    {A : Type ℓ} (a : ℕ) (xs : List A) (z : A)
    → a < length xs
    → drop a xs ≡ get_or xs a z ∷ drop (suc a) xs
drop-eq-cons a [] z h = absurd (omega arith)
drop-eq-cons zero (x ∷ xs) z h = refl
drop-eq-cons (suc a) (x ∷ xs) z h = drop-eq-cons a xs z (omega arith)

pub take-eq-concat {ℓ} :
    {A : Type ℓ} (a : ℕ) (xs : List A) (z : A)
    → a < length xs
    → take (suc a) xs ≡ take a xs ++ get_or xs a z ∷ []
take-eq-concat a [] z h = absurd (omega arith)
take-eq-concat zero (x ∷ xs) z h = refl
take-eq-concat (suc a) (x ∷ xs) z h = ap (◌∷◌ x) (take-eq-concat a xs z (omega arith))

pub assert_thrice-none {ℓ} :
    {A : Type ℓ} (p q r : Bool) (k : Option A)
    → (p ≡ false) ⊎ (q ≡ false) ⊎ (r ≡ false)
    → assert p (assert q (assert r k)) ≡ none
assert_thrice-none false q r k h = refl
assert_thrice-none true false r k h = refl
assert_thrice-none true true false k h = refl
assert_thrice-none true true true k h = ⊎_elim (λ e. cc) (λ t. ⊎_elim (λ e. cc) (λ e. cc) t) h

pub drop_all {ℓ} : {A : Type ℓ} (a : ℕ) (xs : List A) → length xs ≡ a → drop a xs ≡ []
drop_all zero [] h = refl
drop_all zero (x ∷ xs) h = absurd (omega arith)
drop_all (suc a) [] h = refl
drop_all (suc a) (x ∷ xs) h = drop_all a xs (omega arith)

pub take_all {ℓ} : {A : Type ℓ} (a : ℕ) (xs : List A) → length xs ≡ a → take a xs ≡ xs
take_all zero [] h = refl
take_all zero (x ∷ xs) h = absurd (omega arith)
take_all (suc a) [] h = refl
take_all (suc a) (x ∷ xs) h = ap (◌∷◌ x) (take_all a xs (omega arith))

module _ {ℓ} {F : Type ℓ} ⦃f : Field F⦄ where
  -- One coefficient more: `d` is the top of the old remainder.
  pub division_step :
      (D T d w x b c : F)
      → ((D ⊗ ((x ⊗ w) ⊖ b)) ⊕ (T ⊕ (w ⊗ d))) ⊗ x ⊕ c
        ≡ (((D ⊗ x) ⊕ d) ⊗ ((x ⊗ w) ⊖ b)) ⊕ ((T ⊗ x) ⊕ (c ⊕ (d ⊗ b)))
  unfolding norm
  division_step D T d w x b c =
      let v6 = Expr.var 6 in
      ring (D ∷ T ∷ d ∷ w ∷ x ∷ b ∷ c ∷ []) ((v0 ⊠ (v4 ⊠ v3 ⊞ ⊟ v5) ⊞ (v1 ⊞ v3 ⊠ v2)) ⊠ v4 ⊞ v6)
        ((v0 ⊠ v4 ⊞ v2) ⊠ (v4 ⊠ v3 ⊞ ⊟ v5) ⊞ (v1 ⊠ v4 ⊞ (v6 ⊞ v2 ⊠ v5))) refl

  pub eval-single : (c x : F) → eval (c ∷ []) x ≡ c
  eval-single c x = simp (eval-cons, eval-nil, zero-mul, f.zero-add)

  pub eval-powered :
      (a n : ℕ) (b : F) (p : List F) (x : F)
      → length p ≡ n + suc a
      → eval p x
        ≡ (eval (drop (suc a) (powered (suc a) b n p)) x ⊗ (power x (suc a) ⊖ b))
          ⊕ eval (take (suc a) (powered (suc a) b n p)) x
  unfolding power
  eval-powered a zero b p x h =
      unfold powered in
      rw (drop_all (suc a) p (omega arith), take_all (suc a) p (omega arith), eval-nil, zero-mul)
        (sym (f.zero-add _))
  eval-powered a (suc n) b [] x h = absurd (omega arith)
  eval-powered a (suc n) b (c ∷ p) x h =
      let rest = powered (suc a) b n p in
      let d = get_or rest a f.zero in
      let long : a < length rest = omega (arith, length-powered (suc a) n b p) in
      eval-cons c p x
      ∙ ap (λ z. (z ⊗ x) ⊕ c) (eval-powered a n b p x (omega arith) ∙ top rest long)
      ∙ division_step _ _ d (power x a) x b c
      ∙ sym (
          rw (powered-cons a n b c p, drop-eq-cons a rest f.zero long, eval-cons d, eval-cons) refl)
    where
      top :
          (rest : List F)
          → a < length rest
          → (eval (drop (suc a) rest) x ⊗ (power x (suc a) ⊖ b)) ⊕ eval (take (suc a) rest) x
            ≡ (eval (drop (suc a) rest) x ⊗ ((x ⊗ power x a) ⊖ b))
              ⊕ (eval (take a rest) x ⊕ (power x a ⊗ get_or rest a f.zero))
      top rest long = ap (◌⊕◌ (eval (drop (suc a) rest) x ⊗ ((x ⊗ power x a) ⊖ b))) (
          ap (λ l. eval l x) (take-eq-concat a rest f.zero long)
          ∙ eval-append (take a rest) _ x
          ∙ ap (◌⊕◌ (eval (take a rest) x))
              (ap₂ (λ k z. power x k ⊗ z) (length-take a rest ∙ omega arith) (eval-single _ x)))
