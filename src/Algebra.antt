-- ===== src/Algebra.antt =====
-- What the code takes of the ark crates' field trait: the scalar field `F` of
-- secret-sharing/src and dist-primitives/src. It is a third-party type, so its operations and the
-- field laws that ark-ff documents are a record, which the components take as an instance.
pub mod Laws
pub mod Ring
pub mod Sample
use zk_pse.Base.{Bool, true, ◌≡◌, ◌≢◌, ◌↔◌}

pub record Field {ℓ} (F : Type ℓ) : Type ℓ where
  pub zero : F
  pub one : F
  pub add : F → F → F
  pub mul : F → F → F
  pub neg : F → F
  pub inverse : F → F
  pub beq : F → F → Bool
  pub beq_iff : (a b : F) → (beq a b ≡ true) ↔ (a ≡ b)
  pub add_assoc : (a b c : F) → add (add a b) c ≡ add a (add b c)
  pub add_comm : (a b : F) → add a b ≡ add b a
  pub zero-add : (a : F) → add zero a ≡ a
  pub add-neg : (a : F) → add a (neg a) ≡ zero
  pub mul_assoc : (a b c : F) → mul (mul a b) c ≡ mul a (mul b c)
  pub mul_comm : (a b : F) → mul a b ≡ mul b a
  pub one-mul : (a : F) → mul one a ≡ a
  pub add-mul : (a b c : F) → mul (add a b) c ≡ add (mul a c) (mul b c)
  pub one-ne-zero : one ≢ zero
  pub mul-inverse : (a : F) → a ≢ zero → mul a (inverse a) ≡ one

module _ {ℓ} {F : Type ℓ} ⦃f : Field F⦄ where
  infixl 65 ◌⊕◌ ◌⊖◌
  infixl 70 ◌⊗◌
  abbrev pub ◌⊕◌ : F → F → F
  a ⊕ b = f.add a b

  abbrev pub ◌⊗◌ : F → F → F
  a ⊗ b = f.mul a b

  abbrev pub ◌⊖◌ : F → F → F
  a ⊖ b = f.add a (f.neg b)

-- The trait `DomainCoeff<F>` of ark-poly: the values that a transform over `F` acts on, field
-- elements or group elements. `scale t c` is `t *= c`.
pub record DomainCoeff {ℓ κ} (F : Type ℓ) (T : Type κ) ⦃f : Field F⦄ : Type (ℓ ⊔ κ) where
  pub zero : T
  pub add : T → T → T
  pub neg : T → T
  pub scale : T → F → T
  pub beq : T → T → Bool
  pub beq_iff : (a b : T) → (beq a b ≡ true) ↔ (a ≡ b)
  pub add_assoc : (a b c : T) → add (add a b) c ≡ add a (add b c)
  pub add_comm : (a b : T) → add a b ≡ add b a
  pub zero-add : (a : T) → add zero a ≡ a
  pub add-neg : (a : T) → add a (neg a) ≡ zero
  pub scale-add : (a b : T) (c : F) → scale (add a b) c ≡ add (scale a c) (scale b c)
  pub scale-plus : (a : T) (c d : F) → scale a (c ⊕ d) ≡ add (scale a c) (scale a d)
  pub scale-scale : (a : T) (c d : F) → scale (scale a c) d ≡ scale a (c ⊗ d)
  pub scale-one : (a : T) → scale a f.one ≡ a
