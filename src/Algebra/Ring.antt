-- ===== src/Algebra/Ring.antt =====
-- Equations that hold in every commutative ring, by reflection: both sides as expressions over
-- numbered variables, brought to one normal form, a sorted sum of signed monomials.
use zk_pse.Base.{
  ℕ, Bool, true, false, not, ◌≡◌, refl, sym, ap, ◌∙◌, Ordering, compare, List, [], ◌∷◌, get_or,
  arith,
}
use zk_pse.Algebra.{Field, ◌⊕◌, ◌⊗◌}
use zk_pse.Algebra.Laws.{
  add-zero, mul-one, zero-mul, mul-zero, neg-mul, neg-neg, neg-add_distrib, neg-zero,
}

infixl 65 ◌⊞◌
infixl 70 ◌⊠◌
pub data Expr : Type 0 where
  var : ℕ → Expr
  ø : Expr
  ι : Expr
  ◌⊞◌ : Expr → Expr → Expr
  ◌⊠◌ : Expr → Expr → Expr
  ⊟ : Expr → Expr

-- A sign (`true` for plus) and the sorted variables of a product.
abbrev Term : Type 0
Term = Bool × List ℕ

compare_vars : List ℕ → List ℕ → Ordering
compare_vars [] [] = Ordering.eq
compare_vars [] (y ∷ ys) = Ordering.lt
compare_vars (x ∷ xs) [] = Ordering.gt
compare_vars (x ∷ xs) (y ∷ ys) =
    let rest = compare_vars xs ys in
    elim (compare x y) [
      | Ordering.lt ↦ Ordering.lt
      | Ordering.eq ↦ rest
      | Ordering.gt ↦ Ordering.gt
    ]

insert_var : ℕ → List ℕ → List ℕ
insert_var v [] = v ∷ []
insert_var v (x ∷ xs) =
    let rest = insert_var v xs in elim (compare v x) [ Ordering.gt ↦ x ∷ rest | _ ↦ v ∷ x ∷ xs ]

mul_vars : List ℕ → List ℕ → List ℕ
mul_vars [] ys = ys
mul_vars (x ∷ xs) ys = insert_var x (mul_vars xs ys)

same_sign : Bool → Bool → Bool
same_sign true b = b
same_sign false b = not b

-- A term, and one of the same variables and the other sign, cancel.
place : Bool → Term → Term → List Term → List Term
place true t u p = t ∷ u ∷ p
place false t u p = p

insert_term : Term → List Term → List Term
insert_term t [] = t ∷ []
insert_term t (u ∷ p) =
    let rest = insert_term t p in
    elim (compare_vars t.1 u.1) [
      | Ordering.lt ↦ t ∷ u ∷ p
      | Ordering.eq ↦ place (same_sign t.0 u.0) t u p
      | Ordering.gt ↦ u ∷ rest
    ]

add_terms : List Term → List Term → List Term
add_terms [] q = q
add_terms (t ∷ p) q = insert_term t (add_terms p q)

mul_term : Term → Term → Term
mul_term t u = (same_sign t.0 u.0, mul_vars t.1 u.1)

scale_terms : Term → List Term → List Term
scale_terms t [] = []
scale_terms t (u ∷ p) = insert_term (mul_term t u) (scale_terms t p)

mul_terms : List Term → List Term → List Term
mul_terms [] q = []
mul_terms (t ∷ p) q = add_terms (scale_terms t q) (mul_terms p q)

neg_terms : List Term → List Term
neg_terms [] = []
neg_terms ((s, m) ∷ p) = (not s, m) ∷ neg_terms p

unfoldable pub norm : Expr → List Term
unfolding compare_vars insert_var mul_vars same_sign place insert_term add_terms mul_term
    scale_terms mul_terms neg_terms
norm (var n) = (true, n ∷ []) ∷ []
norm ø = []
norm ι = (true, []) ∷ []
norm (a ⊞ b) = add_terms (norm a) (norm b)
norm (a ⊠ b) = mul_terms (norm a) (norm b)
norm (⊟ a) = neg_terms (norm a)

compare_vars-eq : (xs ys : List ℕ) → compare_vars xs ys ≡ Ordering.eq → xs ≡ ys
unfolding compare_vars
compare_vars-eq [] [] h = refl
compare_vars-eq [] (y ∷ ys) h = cc
compare_vars-eq (x ∷ xs) [] h = cc
compare_vars-eq (x ∷ xs) (y ∷ ys) h = ground (arith, compare_vars-eq xs ys)

module _ {ℓ} {F : Type ℓ} ⦃f : Field F⦄ (ρ : List F) where
  abbrev pub denote : Expr → F
  denote (var n) = get_or ρ n f.zero
  denote ø = f.zero
  denote ι = f.one
  denote (a ⊞ b) = denote a ⊕ denote b
  denote (a ⊠ b) = denote a ⊗ denote b
  denote (⊟ a) = f.neg (denote a)

  product : List ℕ → F
  product [] = f.one
  product (x ∷ xs) = get_or ρ x f.zero ⊗ product xs

  signed : Bool → F → F
  signed true x = x
  signed false x = f.neg x

  value : Term → F
  unfolding product signed
  value t = signed t.0 (product t.1)

  total : List Term → F
  unfolding value
  total [] = f.zero
  total (t ∷ p) = value t ⊕ total p

  swap_left : (a b c : F) → a ⊕ (b ⊕ c) ≡ b ⊕ (a ⊕ c)
  swap_left a b c = sym (f.add_assoc a b c) ∙ ap (λ z. z ⊕ c) (f.add_comm a b) ∙ f.add_assoc b a c

  mul_swap_left : (a b c : F) → a ⊗ (b ⊗ c) ≡ b ⊗ (a ⊗ c)
  mul_swap_left a b c =
      sym (f.mul_assoc a b c) ∙ ap (λ z. z ⊗ c) (f.mul_comm a b) ∙ f.mul_assoc b a c

  product-insert_var :
      (v : ℕ) (xs : List ℕ) → product (insert_var v xs) ≡ get_or ρ v f.zero ⊗ product xs
  unfolding insert_var product
  product-insert_var v [] = refl
  product-insert_var v (x ∷ xs) =
      elim (compare v x)
        as (λ o.
          product (elim o [ Ordering.gt ↦ x ∷ insert_var v xs | _ ↦ v ∷ x ∷ xs ])
          ≡ get_or ρ v f.zero ⊗ (get_or ρ x f.zero ⊗ product xs)) [
            | Ordering.lt ↦ refl
            | Ordering.eq ↦ refl
            | Ordering.gt ↦
                ap (◌⊗◌ (get_or ρ x f.zero)) (product-insert_var v xs) ∙ mul_swap_left _ _ _
          ]

  product-mul_vars : (xs ys : List ℕ) → product (mul_vars xs ys) ≡ product xs ⊗ product ys
  unfolding mul_vars product
  product-mul_vars [] ys = sym (f.one-mul _)
  product-mul_vars (x ∷ xs) ys =
      product-insert_var x (mul_vars xs ys)
      ∙ ap (◌⊗◌ (get_or ρ x f.zero)) (product-mul_vars xs ys)
      ∙ sym (f.mul_assoc _ _ _)

  signed-not : (s : Bool) (a : F) → signed (not s) a ≡ f.neg (signed s a)
  unfolding signed
  signed-not true a = refl
  signed-not false a = sym (neg-neg a)

  signed-mul : (s t : Bool) (a b : F) → signed (same_sign s t) (a ⊗ b) ≡ signed s a ⊗ signed t b
  unfolding signed same_sign
  signed-mul true true a b = refl
  signed-mul true false a b = sym (f.mul_comm a _ ∙ neg-mul b a ∙ ap f.neg (f.mul_comm b a))
  signed-mul false true a b = sym (neg-mul a b)
  signed-mul false false a b = sym (
      neg-mul a _ ∙ ap f.neg (f.mul_comm a _ ∙ neg-mul b a ∙ ap f.neg (f.mul_comm b a)) ∙ neg-neg _)

  total-place :
      (s t : Bool) (xs : List ℕ) (p : List Term)
      → total (place (same_sign s t) (s, xs) (t, xs) p) ≡ value (s, xs) ⊕ total ((t, xs) ∷ p)
  unfolding total place same_sign signed
  total-place true true xs p = refl
  total-place false false xs p = refl
  total-place true false xs p =
      sym (sym (f.add_assoc _ _ _) ∙ ap (λ z. z ⊕ total p) (f.add-neg _) ∙ f.zero-add _)
  total-place false true xs p = sym (
      sym (f.add_assoc _ _ _) ∙ ap (λ z. z ⊕ total p) (f.add_comm _ _ ∙ f.add-neg _) ∙ f.zero-add _)

  total-insert_term : (t : Term) (p : List Term) → total (insert_term t p) ≡ value t ⊕ total p
  unfolding total insert_term
  total-insert_term t [] = refl
  total-insert_term (s, xs) ((r, ys) ∷ p) =
      go (compare_vars xs ys) refl (total-insert_term (s, xs) p)
    where
      go :
          (o : Ordering)
          → compare_vars xs ys ≡ o
          → total (insert_term (s, xs) p) ≡ value (s, xs) ⊕ total p
          → total (elim o [
            | Ordering.lt ↦ (s, xs) ∷ (r, ys) ∷ p
            | Ordering.eq ↦ place (same_sign s r) (s, xs) (r, ys) p
            | Ordering.gt ↦ (r, ys) ∷ insert_term (s, xs) p
          ])
            ≡ value (s, xs) ⊕ (value (r, ys) ⊕ total p)
      go Ordering.lt e ih = refl
      go Ordering.eq e ih = rw (compare_vars-eq xs ys e) (total-place s r ys p)
      go Ordering.gt e ih = ap (◌⊕◌ (value (r, ys))) ih ∙ swap_left _ _ _

  total-add_terms : (p q : List Term) → total (add_terms p q) ≡ total p ⊕ total q
  unfolding total add_terms
  total-add_terms [] q = sym (f.zero-add _)
  total-add_terms (t ∷ p) q =
      total-insert_term t (add_terms p q)
      ∙ ap (◌⊕◌ (value t)) (total-add_terms p q)
      ∙ sym (f.add_assoc _ _ _)

  mul-add : (a b c : F) → a ⊗ (b ⊕ c) ≡ (a ⊗ b) ⊕ (a ⊗ c)
  mul-add a b c =
      f.mul_comm a _
      ∙ f.add-mul b c a
      ∙ ap (λ z. z ⊕ (c ⊗ a)) (f.mul_comm b a)
      ∙ ap (◌⊕◌ (a ⊗ b)) (f.mul_comm c a)

  value-mul_term : (t u : Term) → value (mul_term t u) ≡ value t ⊗ value u
  unfolding value mul_term
  value-mul_term (s, xs) (r, ys) =
      ap (signed (same_sign s r)) (product-mul_vars xs ys) ∙ signed-mul s r _ _

  total-scale_terms : (t : Term) (p : List Term) → total (scale_terms t p) ≡ value t ⊗ total p
  unfolding total scale_terms
  total-scale_terms t [] = sym (mul-zero _)
  total-scale_terms t (u ∷ p) =
      total-insert_term (mul_term t u) (scale_terms t p)
      ∙ ap (◌⊕◌ (value (mul_term t u))) (total-scale_terms t p)
      ∙ ap (λ z. z ⊕ (value t ⊗ total p)) (value-mul_term t u)
      ∙ sym (mul-add _ _ _)

  total-mul_terms : (p q : List Term) → total (mul_terms p q) ≡ total p ⊗ total q
  unfolding total mul_terms
  total-mul_terms [] q = sym (zero-mul _)
  total-mul_terms (t ∷ p) q =
      total-add_terms (scale_terms t q) (mul_terms p q)
      ∙ ap (◌⊕◌ (total (scale_terms t q))) (total-mul_terms p q)
      ∙ ap (λ z. z ⊕ (total p ⊗ total q)) (total-scale_terms t q)
      ∙ sym (f.add-mul _ _ _)

  total-neg_terms : (p : List Term) → total (neg_terms p) ≡ f.neg (total p)
  unfolding total neg_terms
  total-neg_terms [] = sym neg-zero
  total-neg_terms ((s, m) ∷ p) =
      ap (λ z. z ⊕ total (neg_terms p)) (signed-not s (product m))
      ∙ ap (◌⊕◌ (f.neg (value (s, m)))) (total-neg_terms p)
      ∙ sym (neg-add_distrib _ _)

  total-norm : (e : Expr) → total (norm e) ≡ denote e
  unfolding norm total product signed
  total-norm (var n) = add-zero _ ∙ mul-one _
  total-norm ø = refl
  total-norm ι = add-zero _
  total-norm (a ⊞ b) =
      total-add_terms (norm a) (norm b)
      ∙ ap (λ z. z ⊕ total (norm b)) (total-norm a)
      ∙ ap (◌⊕◌ (denote a)) (total-norm b)
  total-norm (a ⊠ b) =
      total-mul_terms (norm a) (norm b)
      ∙ ap (λ z. z ⊗ total (norm b)) (total-norm a)
      ∙ ap (◌⊗◌ (denote a)) (total-norm b)
  total-norm (⊟ a) = total-neg_terms (norm a) ∙ ap f.neg (total-norm a)

  -- Two expressions with one normal form have one value.
  pub ring : (a b : Expr) → norm a ≡ norm b → denote a ≡ denote b
  ring a b h = sym (total-norm a) ∙ ap total h ∙ total-norm b

-- The variables of an equation.
abbrev pub v0 : Expr
v0 = var 0

abbrev pub v1 : Expr
v1 = var 1

abbrev pub v2 : Expr
v2 = var 2

abbrev pub v3 : Expr
v3 = var 3

abbrev pub v4 : Expr
v4 = var 4

abbrev pub v5 : Expr
v5 = var 5

module _ {ℓ} {F : Type ℓ} ⦃f : Field F⦄ where
  example : (a b : F) → (a ⊕ f.neg b) ⊗ (a ⊕ b) ≡ (a ⊗ a) ⊕ f.neg (b ⊗ b)
  unfolding norm
  example a b = ring (a ∷ b ∷ []) ((v0 ⊞ ⊟ v1) ⊠ (v0 ⊞ v1)) (v0 ⊠ v0 ⊞ ⊟ (v1 ⊠ v1)) refl
