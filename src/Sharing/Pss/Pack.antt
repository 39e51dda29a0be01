-- ===== src/Sharing/Pss/Pack.antt =====
-- `pack` and `unpack` (secret-sharing/src/pss.rs).
use zk_pse.Base.{
  ℕ, ◌+◌, ◌*◌, ◌≤◌, List, ◌++◌, map, length, resize, take, ◌≡◌, sym, ap, ◌∙◌, arith, length-append,
  length-map, length-resize, resize-resize, take-length-append,
}
use zk_pse.Algebra.{Field, DomainCoeff}
use zk_pse.Sharing.Poly.Lagrange.Coeff.{eval_coeff}
use zk_pse.Sharing.Pss.{EvaluationDomain, PackedSharingParams, pack, unpack}

module _ {ℓ κ} {F : Type ℓ} {T : Type κ} ⦃f : Field F⦄ ⦃d : DomainCoeff F T⦄ where
  -- The sizes that the constructors give the three domains, and room for products among the shares.
  pub record IsValid (pp : PackedSharingParams F T) : Type 0 where
    pub share_size : pp.share.size ≡ pp.n
    pub secret_size : pp.secret.size ≡ pp.l + pp.t
    pub secret2_size : pp.secret2.size ≡ 2 * (pp.l + pp.t)
    pub room : 2 * (pp.l + pp.t) ≤ pp.n

  -- A transform does not see whether its input was filled up before.
  pub fft-resize :
      (e : EvaluationDomain F T) (m : ℕ) (c : List T)
      → length c ≤ m
      → e.fft (resize m d.zero c) ≡ e.fft c
  fft-resize e m c h =
      e.fft-eval (resize m d.zero c)
      ∙ ap (λ z. map (eval_coeff z) e.elements) (resize-resize m e.size d.zero c h)
      ∙ sym (e.fft-eval c)

  pub length-fft : (e : EvaluationDomain F T) (c : List T) → length (e.fft c) ≡ e.size
  length-fft e c =
      ap length (e.fft-eval c)
      ∙ length-map (eval_coeff (resize e.size d.zero c)) e.elements
      ∙ e.length-elements

  -- What `share.ifft` makes of a short polynomial's values is that polynomial, filled up.
  pub ifft-fft_short :
      (e : EvaluationDomain F T) (c : List T)
      → length c ≤ e.size
      → e.ifft (e.fft c) ≡ resize e.size d.zero c
  ifft-fft_short e c h =
      ap e.ifft (sym (fft-resize e e.size c h))
      ∙ e.ifft-fft (resize e.size d.zero c) (length-resize e.size d.zero c)

  module _ (pp : PackedSharingParams F T) (valid : IsValid pp) where
    unpack-fft :
        (v : List T)
        → length v ≡ pp.l + pp.t
        → pp.secret.fft (pp.share.ifft (pp.share.fft (pp.secret.ifft v))) ≡ v
    unpack-fft v h =
        let c = pp.secret.ifft v in
        let size : length c ≡ pp.l + pp.t = pp.secret.length-ifft v ∙ valid.secret_size in
        ap pp.secret.fft (ifft-fft_short pp.share c (omega (arith, valid.share_size, valid.room)))
        ∙ fft-resize pp.secret pp.share.size c (omega (arith, valid.share_size, valid.room))
        ∙ pp.secret.fft-ifft v (h ∙ sym valid.secret_size)

    -- With domains of the sizes that the constructors give them (`IsValid`), unpacking the shares of
    -- l secrets, packed with any t random points, gives the secrets.
    pub unpack-pack :
        (secrets rand_points : List T)
        → length secrets ≡ pp.l
        → length rand_points ≡ pp.t
        → unpack pp (pack pp secrets rand_points) ≡ secrets
    unfolding unpack pack
    unpack-pack secrets rand_points hs hr =
        ap (take pp.l)
          (unpack-fft (secrets ++ rand_points) (length-append secrets rand_points ∙ omega arith))
        ∙ ap (λ k. take k (secrets ++ rand_points)) (sym hs)
        ∙ take-length-append secrets rand_points

    -- With domains of the sizes that the constructors give them, there is a share for each party.
    pub length-pack : (secrets rand_points : List T) → length (pack pp secrets rand_points) ≡ pp.n
    unfolding pack
    length-pack secrets rand_points = length-fft pp.share _ ∙ valid.share_size
