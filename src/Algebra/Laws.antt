-- ===== src/Algebra/Laws.antt =====
-- Consequences of the field laws.
use zk_pse.Base.{◌≡◌, ◌≢◌, sym, ap, ◌∙◌, ◌≡⟨◌⟩◌, ◌∎}
use zk_pse.Algebra.{Field, ◌⊕◌, ◌⊗◌, ◌⊖◌}

module _ {ℓ} {F : Type ℓ} ⦃f : Field F⦄ where
  pub add-zero : (a : F) → a ⊕ f.zero ≡ a
  add-zero a = f.add_comm a f.zero ∙ f.zero-add a

  pub neg-add : (a : F) → f.neg a ⊕ a ≡ f.zero
  neg-add a = f.add_comm _ a ∙ f.add-neg a

  pub mul-one : (a : F) → a ⊗ f.one ≡ a
  mul-one a = f.mul_comm a f.one ∙ f.one-mul a

  pub add_left_cancel : (a b c : F) → a ⊕ b ≡ a ⊕ c → b ≡ c
  add_left_cancel a b c h = sym (undo b) ∙ ap (◌⊕◌ (f.neg a)) h ∙ undo c
    where
      undo : (x : F) → f.neg a ⊕ (a ⊕ x) ≡ x
      undo x = rw (← f.add_assoc, neg-add a) (f.zero-add x)

  pub zero-mul : (a : F) → f.zero ⊗ a ≡ f.zero
  zero-mul a =
      add_left_cancel (f.zero ⊗ a) _ _
        (sym (f.add-mul f.zero f.zero a) ∙ ap (λ z. z ⊗ a) (f.zero-add f.zero) ∙ sym (add-zero _))

  pub mul-zero : (a : F) → a ⊗ f.zero ≡ f.zero
  mul-zero a = f.mul_comm a f.zero ∙ zero-mul a

  pub neg-mul : (a b : F) → f.neg a ⊗ b ≡ f.neg (a ⊗ b)
  neg-mul a b = add_left_cancel (a ⊗ b) _ _ (
      sym (f.add-mul a (f.neg a) b)
      ∙ ap (λ z. z ⊗ b) (f.add-neg a)
      ∙ zero-mul b
      ∙ sym (f.add-neg _))

  pub neg-neg : (a : F) → f.neg (f.neg a) ≡ a
  neg-neg a = add_left_cancel (f.neg a) _ _ (f.add-neg _ ∙ sym (neg-add a))

  pub neg-add_distrib : (a b : F) → f.neg (a ⊕ b) ≡ f.neg a ⊕ f.neg b
  neg-add_distrib a b =
      add_left_cancel (a ⊕ b) _ _ (f.add-neg _ ∙ sym (simp (f.add_comm a b, f.add_assoc) cancel))
    where
      cancel : b ⊕ (a ⊕ (f.neg a ⊕ f.neg b)) ≡ f.zero
      cancel = rw (← f.add_assoc a, f.add-neg, f.zero-add) (f.add-neg b)

  pub neg-zero : f.neg f.zero ≡ f.zero
  neg-zero = sym (f.zero-add _) ∙ f.add-neg f.zero

  pub sub-eq-zero : (a b : F) → a ⊖ b ≡ f.zero → a ≡ b
  sub-eq-zero a b h =
      a
      ≡⟨ sym (add-zero a) ⟩ a ⊕ f.zero
      ≡⟨ ap (◌⊕◌ a) (sym (neg-add b)) ⟩ a ⊕ (f.neg b ⊕ b)
      ≡⟨ sym (f.add_assoc a _ b) ⟩ (a ⊖ b) ⊕ b
      ≡⟨ ap (λ z. z ⊕ b) h ⟩ f.zero ⊕ b
      ≡⟨ f.zero-add b ⟩ b ∎

  -- A field has no zero divisors.
  pub mul-ne-zero : (a b : F) → a ≢ f.zero → b ≢ f.zero → a ⊗ b ≢ f.zero
  mul-ne-zero a b ha hb h = hb (
      b
      ≡⟨ sym (f.one-mul b) ⟩ f.one ⊗ b
      ≡⟨ ap (λ z. z ⊗ b) (sym (f.mul-inverse a ha) ∙ f.mul_comm _ _) ⟩ (f.inverse a ⊗ a) ⊗ b
      ≡⟨ f.mul_assoc _ a b ⟩ f.inverse a ⊗ (a ⊗ b)
      ≡⟨ ap (◌⊗◌ (f.inverse a)) h ⟩ f.inverse a ⊗ f.zero
      ≡⟨ mul-zero _ ⟩ f.zero ∎)
