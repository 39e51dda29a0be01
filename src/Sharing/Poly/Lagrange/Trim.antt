-- ===== src/Sharing/Poly/Lagrange/Trim.antt =====
-- `truncate_pos` in `lagrange_interpolate` (secret-sharing/src/utils.rs): what it cuts off is zero.
use zk_pse.Base.{
  ℕ, zero, suc, ◌+◌, ◌≤◌, Bool, true, List, [], ◌∷◌, length, get_or, ◌≡◌, refl, arith, Bool-cases,
  inl, inr, dec_le, subst,
}
use zk_pse.Sharing.Poly.{find_truncate_pos}

module _ {ℓ} {T : Type ℓ} (zero_coeff : T) where
  pub get_or-beyond : (p : List T) (j : ℕ) → length p ≤ j → get_or p j zero_coeff ≡ zero_coeff
  get_or-beyond [] j l = refl
  get_or-beyond (a ∷ p) zero l = absurd (omega arith)
  get_or-beyond (a ∷ p) (suc j) l = get_or-beyond p j (omega arith)

module _ {ℓ} {T : Type ℓ} (zero_coeff : T) (is_zero : T → Bool)
    (exact : (a : T) → is_zero a ≡ true → a ≡ zero_coeff) where
  pub find_truncate_pos-zeros :
      (p : List T) (i : ℕ)
      → ((j : ℕ) → i ≤ j → get_or p j zero_coeff ≡ zero_coeff)
      → (j : ℕ) → find_truncate_pos zero_coeff is_zero p i ≤ j
      → get_or p j zero_coeff ≡ zero_coeff
  unfolding find_truncate_pos
  find_truncate_pos-zeros p zero h j l = h j (omega arith)
  find_truncate_pos-zeros p (suc i) h j l = elim (Bool-cases (is_zero (get_or p i zero_coeff))) [
    | inl e ↦ find_truncate_pos-zeros p i (from (exact _ e)) j (rw (e, find_truncate_pos) at l)
    | inr e ↦ h j (let l' : i + 1 ≤ j = rw (e, find_truncate_pos) at l in omega arith)
  ]
    where
      from :
          get_or p i zero_coeff ≡ zero_coeff → (j : ℕ) → i ≤ j → get_or p j zero_coeff ≡ zero_coeff
      from e j l = elim (dec_le (suc i) j) [
        | yes above ↦ h j above
        | no below ↦
            let same : i ≡ j = omega arith in subst (λ m. get_or p m zero_coeff ≡ zero_coeff) same e
      ]
