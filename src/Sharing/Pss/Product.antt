-- ===== src/Sharing/Pss/Product.antt =====
-- Products of shares (secret-sharing/src/pss.rs): the sharings are polynomials of at most l + t
-- coefficients, so a product has at most 2 (l + t), and `unpack2` finds the products of the secrets.
pub mod Times
pub use Times.*
use zk_pse.Base.{
  ◌+◌, ◌*◌, ◌≤◌, leb, true, List, ◌++◌, map, length, resize, take, zip_with, some, ◌≡◌, sym, ap,
  ap₂, ◌∙◌, arith, length-append, assert, fun_ext,
}
use zk_pse.Algebra.{Field}
use zk_pse.Sharing.Pss.{PackedSharingParams, pack, unpack2, drop_alternate, step_by_two}
use zk_pse.Sharing.Pss.Pack.{IsValid, fft-resize, ifft-fft_short, length-fft}

module _ {ℓ} {F : Type ℓ} ⦃f : Field F⦄ (pp : PackedSharingParams F F) (valid : IsValid pp)
    (evens : step_by_two pp.secret2.elements ≡ pp.secret.elements) where
  secret_values :
      (c : List F)
      → length c ≤ 2 * (pp.l + pp.t)
      → step_by_two (pp.secret2.fft c) ≡ map (value c) pp.secret.elements
  secret_values c h =
      ap step_by_two (fft-value pp.secret2 c (omega (arith, valid.secret2_size)))
      ∙ step_by_two-map (value c) pp.secret2.elements
      ∙ ap (map (value c)) evens

  products_of_values :
      (v w : List F)
      → length v ≡ pp.l + pp.t
      → length w ≡ pp.l + pp.t
      → step_by_two (pp.secret2.fft (times_poly (pp.secret.ifft v) (pp.secret.ifft w)))
        ≡ zip_with f.mul v w
  products_of_values v w hv hw =
      let p = pp.secret.ifft v in
      let q = pp.secret.ifft w in
      let lp : length p ≡ pp.secret.size = pp.secret.length-ifft v in
      let lq : length q ≡ pp.secret.size = pp.secret.length-ifft w in
      secret_values (times_poly p q) (omega (arith, length-times_poly p q, valid.secret_size))
      ∙ ap (λ g. map g pp.secret.elements) (fun_ext (value-times_poly p q))
      ∙ sym (zip_with-map (value p) (value q) pp.secret.elements)
      ∙ ap₂ (zip_with f.mul)
          (sym (fft-value pp.secret p (omega arith))
            ∙ pp.secret.fft-ifft v (hv ∙ sym valid.secret_size))
          (sym (fft-value pp.secret q (omega arith))
            ∙ pp.secret.fft-ifft w (hw ∙ sym valid.secret_size))

  -- Multiplying the shares of two packings party by party, and unpacking with `unpack2`, gives the
  -- products of the l secrets, whatever the t random points. (`valid`: the domains have the sizes that
  -- the constructors give them. `evens`: the elements of the coset of 2 (l + t) at even places are
  -- those of the coset of l + t.)
  pub unpack2-product :
      (xs ys us vs : List F)
      → length xs ≡ pp.l
      → length ys ≡ pp.l
      → length us ≡ pp.t
      → length vs ≡ pp.t
      → unpack2 pp (zip_with f.mul (pack pp xs us) (pack pp ys vs)) ≡ some (zip_with f.mul xs ys)
  unfolding unpack2 pack drop_alternate
  unpack2-product xs ys us vs hx hy hu hv =
      let p = pp.secret.ifft (xs ++ us) in
      let q = pp.secret.ifft (ys ++ vs) in
      let lp : length p ≡ pp.l + pp.t = pp.secret.length-ifft (xs ++ us) ∙ valid.secret_size in
      let lq : length q ≡ pp.l + pp.t = pp.secret.length-ifft (ys ++ vs) ∙ valid.secret_size in
      let short : length (times_poly p q) ≤ 2 * (pp.l + pp.t) =
        omega (arith, length-times_poly p q) in
      let back : pp.secret2.fft (pp.share.ifft (zip_with f.mul (pp.share.fft p) (pp.share.fft q)))
          ≡ pp.secret2.fft (times_poly p q) =
        ap (λ z. pp.secret2.fft (pp.share.ifft z))
          (fft-times_poly pp.share p q (omega (arith, valid.share_size, valid.room)))
        ∙ ap pp.secret2.fft
            (ifft-fft_short pp.share (times_poly p q) (omega (arith, valid.share_size, valid.room)))
        ∙ fft-resize pp.secret2 pp.share.size (times_poly p q)
            (omega (arith, valid.share_size, valid.room)) in
      ap (λ z. assert (leb (2 * pp.l) (length z)) (some (step_by_two (take (2 * pp.l) z)))) back
      ∙ rw (fits (pp.secret2.fft (times_poly p q)) (length-fft pp.secret2 (times_poly p q))) (
          ap some (
            take_first_half pp.l (pp.secret2.fft (times_poly p q))
            ∙ ap (take pp.l) (
                products_of_values (xs ++ us) (ys ++ vs) (length-append xs us ∙ omega arith)
                  (length-append ys vs ∙ omega arith))
            ∙ ap (λ k. take k (zip_with f.mul (xs ++ us) (ys ++ vs))) (sym hx)
            ∙ take-zip_with f.mul xs ys us vs (hy ∙ sym hx)))
    where
      fits : (z : List F) → length z ≡ pp.secret2.size → leb (2 * pp.l) (length z) ≡ true
      fits z h = let wide = valid.secret2_size in ground arith
