-- ===== src/Sharing/Poly/Division.antt =====
-- `syn_div` (secret-sharing/src/utils.rs) is division by x^a - b with a remainder.
pub mod Steps
pub use Steps.*
use zk_pse.Base.{
  assert, ⊎_elim, ◌↔◌, ◌⊎◌, lt→ltb, Option, ℕ, zero, suc, ◌+◌, ◌-◌, ◌≤◌, ◌<◌, ◌==◌, ltb, leb, Bool,
  true, false, not, if◌then◌else◌, List, [], ◌∷◌, ◌++◌, get_or, replicate, take, drop, length,
  length-append, length-drop, length-replicate, length-take, length-set, none, some, ◌≡◌, ◌≢◌, refl,
  sym, ap, ap₂, ◌∙◌, arith, inl, inr,
}
use Prim.Native.Nat.add
use zk_pse.Algebra.{Field, ◌⊕◌, ◌⊗◌, ◌⊖◌}
use zk_pse.Algebra.Laws.{zero-mul, add-zero, mul-one}
use zk_pse.Algebra.Ring.{ring, norm, v0, v1, v2, v3, v4, v5, ◌⊞◌, ◌⊠◌, ⊟, Expr}
use zk_pse.Sharing.Poly.{
  eval, divide_linear, divide_power, divide_power_one, discard_remainder, syn_div,
}
use zk_pse.Sharing.Poly.Eval.{power, eval-nil, eval-cons, eval-append, eval-append_zeros}

module _ {ℓ} {F : Type ℓ} ⦃f : Field F⦄ where
  not_beq : (a b : F) → (not (f.beq a b) ≡ false) ↔ (a ≡ b)
  not_beq a b = go (f.beq a b) (f.beq_iff a b)
    where
      go : (t : Bool) → (t ≡ true) ↔ (a ≡ b) → (not t ≡ false) ↔ (a ≡ b)
      go true e = (λ _. e.0 refl, λ _. refl)
      go false e = (λ h. cc, λ h. cc (e.1 h))

  discarded : ℕ → List F → List F
  discarded a p = drop a p ++ replicate a f.zero

  -- What a call returns, by the two loops.
  divide : List F → ℕ → F → List F
  divide p a b =
      if a == 1 then (divide_linear b p).0 else discarded a (powered a b (length p - a) p)

  discard_remainder-returns :
      (a : ℕ) (p : List F) → a ≤ length p → discard_remainder a p ≡ some (discarded a p)
  unfolding discard_remainder discarded
  discard_remainder-returns a p h =
      let fits : leb a (length p) ≡ true = ground arith in
      ap (λ t. assert t (some (drop a p ++ replicate a f.zero))) fits

  syn_div-divide :
      (p : List F) (a : ℕ) (b : F)
      → a ≢ 0
      → b ≢ f.zero
      → a < length p
      → syn_div p a b ≡ some (divide p a b)
  unfolding syn_div divide
  syn_div-divide p a b ha hb h =
      rw (nonzero, nonzero_const, lt→ltb _ _ h)
        (ap
            (λ o. if a == 1 then some (divide_linear b p).0 else (elim o as (λ z. Option (List F)) [
              | none ↦ none
              | some rest ↦ discard_remainder a rest
            ]))
            (loops (f.beq b f.one) refl)
          ∙ ends _ _ _ (a == 1) (
              discard_remainder-returns a (powered a b (length p - a) p)
                (omega (arith, length-powered a (length p - a) b p))))
    where
      nonzero : (a == 0) ≡ false
      nonzero = ground (arith)

      nonzero_const : f.beq b f.zero ≡ false
      nonzero_const = ground (arith, f.beq_iff b f.zero)

      loops :
          (t : Bool)
          → f.beq b f.one ≡ t
          → (if t then divide_power_one a (length p - a) p else divide_power a b (length p - a) p)
            ≡ some (powered a b (length p - a) p)
      loops false e = divide_power-returns a (length p - a) b p (omega arith)
      loops true e =
          divide_power_one-returns a (length p - a) p (omega arith)
          ∙ ap (λ z. some (powered a z (length p - a) p)) (sym ((f.beq_iff b f.one).0 e))

      ends :
          (x y : List F) (o : Option (List F)) (t : Bool)
          → o ≡ some y
          → (if t then some x else o) ≡ some (if t then x else y)
      ends x y o true e = refl
      ends x y o false e = e

  -- A quotient and a remainder of `p` by x^a - b.
  pub record IsDivision (p : List F) (a : ℕ) (b : F) (q r : List F) : Type ℓ where
    pub quotient_length : length q ≡ length p
    pub remainder_length : length r ≡ a
    pub divides : (x : F) → eval p x ≡ (eval q x ⊗ (power x a ⊖ b)) ⊕ eval r x

  divide-IsDivision :
      (p : List F) (a : ℕ) (b : F)
      → a < length p
      → a ≢ 0
      → (r : List F) × IsDivision p a b (divide p a b) r
  unfolding divide discarded power
  divide-IsDivision p zero b h ne = absurd (ne refl)
  divide-IsDivision p (suc zero) b h ne = (
    eval p b ∷ [],
    record {
      quotient_length = length-divide_linear b p;
      remainder_length = refl;
      divides = λ x. eval-divide_linear b p x ∙ rw (mul-one x, eval-single (eval p b) x);
    },
  )
  divide-IsDivision p (suc (suc a)) b h ne =
      let n = length p - suc (suc a) in
      let rest = powered (suc (suc a)) b n p in
      let size = length-powered (suc (suc a)) n b p in
      let long : (suc (suc a) == 1) ≡ false = ground arith in
      (
        take (suc (suc a)) rest,
        rw long (record {
          quotient_length =
              length-append (drop (suc (suc a)) rest) (replicate (suc (suc a)) f.zero)
              ∙ omega
                  (arith, length-drop (suc (suc a)) rest, length-replicate (suc (suc a)) f.zero);
          remainder_length = length-take (suc (suc a)) rest ∙ omega arith;
          divides = λ x.
              eval-powered (suc a) n b p x (omega arith)
              ∙ ap (λ z. (z ⊗ (power x (suc (suc a)) ⊖ b)) ⊕ eval (take (suc (suc a)) rest) x)
                  (sym (eval-append_zeros (drop (suc (suc a)) rest) (suc (suc a)) x));
        }),
      )

  pub syn_div-one :
      (p : List F) (b : F) → b ≢ f.zero → 1 < length p → syn_div p 1 b ≡ some (divide_linear b p).0
  unfolding divide
  syn_div-one p b hb h = syn_div-divide p 1 b (omega arith) hb h

  -- Where the three assertions hold, `syn_div` returns the quotient of `p` by x^a - b, filled up
  -- with zeros to the length of `p`: some remainder of `a` coefficients makes up the rest of `p`.
  pub syn_div_returns :
      (p : List F) (a : ℕ) (b : F)
      → a ≢ 0
      → b ≢ f.zero
      → a < length p
      → (q : List F) × (r : List F) × (syn_div p a b ≡ some q) × IsDivision p a b q r
  syn_div_returns p a b ha hb h =
      let (r, d) = divide-IsDivision p a b h ha in
      (divide p a b, r, syn_div-divide p a b ha hb h, d)

  -- `syn_div` panics exactly when the divisor has degree 0, the constant is zero, or the dividend
  -- has no more coefficients than the degree of the divisor: no index of its loops is ever out of range.
  pub syn_div-eq-none :
      (p : List F) (a : ℕ) (b : F)
      → (syn_div p a b ≡ none) ↔ ((a ≡ 0) ⊎ (b ≡ f.zero) ⊎ (length p ≤ a))
  unfolding syn_div
  syn_div-eq-none p a b =
      let zero_degree : ((not (a == 0)) ≡ false) ↔ (a ≡ 0) = ground arith in
      let short : (ltb a (length p) ≡ false) ↔ (length p ≤ a) = ground arith in
      (
        λ h. go (a == 0) (f.beq b f.zero) (ltb a (length p)) refl refl refl h,
        λ r. assert_thrice-none (not (a == 0)) (not (f.beq b f.zero)) (ltb a (length p)) _ (
            ⊎_elim (λ e. inl (zero_degree.1 e))
              (λ t. inr (⊎_elim (λ e. inl ((not_beq b f.zero).1 e)) (λ e. inr (short.1 e)) t)) r),
      )
    where
      go :
          (x y z : Bool)
          → (a == 0) ≡ x
          → f.beq b f.zero ≡ y
          → ltb a (length p) ≡ z
          → syn_div p a b ≡ none
          → (a ≡ 0) ⊎ (b ≡ f.zero) ⊎ (length p ≤ a)
      go true y z ex ey ez h = inl (ground arith)
      go false true z ex ey ez h = inr (inl ((f.beq_iff b f.zero).0 ey))
      go false false false ex ey ez h = inr (inr (ground arith))
      go false false true ex ey ez h =
          let some_value =
            syn_div-divide p a b (ground arith) (λ e. cc (sym ey ∙ (f.beq_iff b f.zero).1 e))
              (ground arith) in
          cc (sym h ∙ some_value)
