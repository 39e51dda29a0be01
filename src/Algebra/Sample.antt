-- ===== src/Algebra/Sample.antt =====
-- A field to evaluate the model at: the integers modulo 3.
use zk_pse.Base.{Bool, true, false, ◌&&◌, ◌≡◌, ◌≢◌, refl, arith}
use zk_pse.Algebra.{Field}

pub data Gf3 : Type 0 where
  r0 : Gf3
  r1 : Gf3
  r2 : Gf3

abbrev pub beq : Gf3 → Gf3 → Bool
beq r0 r0 = true
beq r1 r1 = true
beq r2 r2 = true
beq _ _ = false

abbrev pub add : Gf3 → Gf3 → Gf3
add r0 b = b
add r1 r0 = r1
add r1 r1 = r2
add r1 r2 = r0
add r2 r0 = r2
add r2 r1 = r0
add r2 r2 = r1

abbrev pub mul : Gf3 → Gf3 → Gf3
mul r0 b = r0
mul r1 b = b
mul r2 r0 = r0
mul r2 r1 = r2
mul r2 r2 = r1

abbrev pub neg : Gf3 → Gf3
neg r0 = r0
neg r1 = r2
neg r2 = r1

-- Each element is its own inverse, as ark-ff has it for zero.
abbrev pub inverse : Gf3 → Gf3
inverse a = a

pub beq_self : (a : Gf3) → beq a a ≡ true
beq_self r0 = refl
beq_self r1 = refl
beq_self r2 = refl

pub eq_of_beq : (a b : Gf3) → beq a b ≡ true → a ≡ b
eq_of_beq r0 r0 h = refl
eq_of_beq r0 r1 h = cc
eq_of_beq r0 r2 h = cc
eq_of_beq r1 r0 h = cc
eq_of_beq r1 r1 h = refl
eq_of_beq r1 r2 h = cc
eq_of_beq r2 r0 h = cc
eq_of_beq r2 r1 h = cc
eq_of_beq r2 r2 h = refl

abbrev pub every : (Gf3 → Bool) → Bool
every p = p r0 && p r1 && p r2

every-at : (p : Gf3 → Bool) (a : Gf3) → every p ≡ true → p a ≡ true
every-at p r0 h = ground arith
every-at p r1 h = ground arith
every-at p r2 h = ground arith

-- An equation in three variables holds when it is tested at all of them.
abbrev pub law : (Gf3 → Gf3 → Gf3 → Gf3) → (Gf3 → Gf3 → Gf3 → Gf3) → Bool
law g h = every (λ a. every (λ b. every (λ c. beq (g a b c) (h a b c))))

pub of_law : (g h : Gf3 → Gf3 → Gf3 → Gf3) → law g h ≡ true → (a b c : Gf3) → g a b c ≡ h a b c
of_law g h e a b c = eq_of_beq (g a b c) (h a b c) (
    every-at (λ c. beq (g a b c) (h a b c)) c
      (every-at (λ b. every (λ c. beq (g a b c) (h a b c))) b
        (every-at (λ a. every (λ b. every (λ c. beq (g a b c) (h a b c)))) a e)))

pub mul_inverse : (a : Gf3) → a ≢ r0 → mul a a ≡ r1
mul_inverse r0 h = absurd (h refl)
mul_inverse r1 h = refl
mul_inverse r2 h = refl

pub r1-ne-r0 : r1 ≢ r0
r1-ne-r0 e = cc

instance abbrev pub gf3_field : Field Gf3
gf3_field = record {
  zero = r0;
  one = r1;
  add = add;
  mul = mul;
  neg = neg;
  inverse = inverse;
  beq = beq;
  beq_iff = λ a b. (eq_of_beq a b, λ e. rw e (beq_self b));
  add_assoc = of_law (λ a b c. add (add a b) c) (λ a b c. add a (add b c)) refl;
  add_comm = λ a b. of_law (λ a b c. add a b) (λ a b c. add b a) refl a b r0;
  zero-add = λ a. refl;
  add-neg = λ a. of_law (λ a b c. add a (neg a)) (λ a b c. r0) refl a r0 r0;
  mul_assoc = of_law (λ a b c. mul (mul a b) c) (λ a b c. mul a (mul b c)) refl;
  mul_comm = λ a b. of_law (λ a b c. mul a b) (λ a b c. mul b a) refl a b r0;
  one-mul = λ a. refl;
  add-mul = of_law (λ a b c. mul (add a b) c) (λ a b c. add (mul a c) (mul b c)) refl;
  one-ne-zero = r1-ne-r0;
  mul-inverse = mul_inverse;
}
