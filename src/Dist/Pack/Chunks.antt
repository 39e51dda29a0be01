-- ===== src/Dist/Pack/Chunks.antt =====
-- Packing a vector chunk by chunk loses nothing.
use zk_pse.Base.{
  ℕ, zero, suc, ◌+◌, ◌*◌, ◌<◌, ◌≤◌, ◌==◌, not, true, List, [], ◌∷◌, ◌++◌, map, length, length-take,
  length-drop, take-append-drop, take, drop, some, assert, ◌≡◌, refl, ap, ap₂, ◌∙◌, arith, All,
}
use zk_pse.Algebra.{Field, DomainCoeff}
use zk_pse.Sharing.Pss.{PackedSharingParams, unpack}
use zk_pse.Sharing.Pss.Pack.{IsValid, unpack-pack, length-pack}
use zk_pse.Dist.Pack.{chunks, pack_chunks, pack_vec}

-- the lists one after another
abbrev pub join_all {ℓ} : {A : Type ℓ} → List (List A) → List A
join_all [] = []
join_all (xs ∷ xss) = xs ++ join_all xss

one_more : (n l : ℕ) → suc n * l ≡ l + n * l
one_more n l = omega arith

module _ {ℓ κ} {F : Type ℓ} {T : Type κ} ⦃f : Field F⦄ ⦃d : DomainCoeff F T⦄
    (pp : PackedSharingParams F T) (valid : IsValid pp) (rand_points : ℕ → List T)
    (sizes : (k : ℕ) → length (rand_points k) ≡ pp.t) where
  pack_chunks-unpack :
      (n fuel k : ℕ) (secrets : List T)
      → 0 < pp.l
      → length secrets ≡ n * pp.l
      → length secrets ≤ fuel
      → (length (pack_chunks pp rand_points k (chunks fuel pp.l secrets)) ≡ n)
        × All
            (λ shares. length shares ≡ pp.n)
            (pack_chunks pp rand_points k (chunks fuel pp.l secrets))
        × (join_all (map (unpack pp) (pack_chunks pp rand_points k (chunks fuel pp.l secrets)))
            ≡ secrets)
  unfolding chunks pack_chunks
  pack_chunks-unpack zero zero k [] pos len le = (refl, tt, refl)
  pack_chunks-unpack zero (suc fuel) k [] pos len le = (refl, tt, refl)
  pack_chunks-unpack zero zero k (x ∷ xs) pos len le = absurd (omega arith)
  pack_chunks-unpack zero (suc fuel) k (x ∷ xs) pos len le = absurd (omega arith)
  pack_chunks-unpack (suc n) zero k [] pos len le = absurd (omega (arith, one_more n pp.l))
  pack_chunks-unpack (suc n) (suc fuel) k [] pos len le = absurd (omega (arith, one_more n pp.l))
  pack_chunks-unpack (suc n) zero k (x ∷ xs) pos len le = absurd (omega arith)
  pack_chunks-unpack (suc n) (suc fuel) k (x ∷ xs) pos len le =
      let secrets = x ∷ xs in
      let all : length secrets ≡ pp.l + n * pp.l = len ∙ one_more n pp.l in
      let here : length (take pp.l secrets) ≡ pp.l = omega (arith, length-take pp.l secrets) in
      let rest : length (drop pp.l secrets) ≡ n * pp.l = omega (arith, length-drop pp.l secrets) in
      let (count, sized, back) =
        pack_chunks-unpack n fuel (suc k) (drop pp.l secrets) pos rest
          (omega (arith, length-drop pp.l secrets)) in
      (
        ap suc count,
        (length-pack pp valid (take pp.l secrets) (rand_points k), sized),
        ap₂ ◌++◌ (unpack-pack pp valid (take pp.l secrets) (rand_points k) here (sizes k)) back
            ∙ take-append-drop pp.l secrets,
      )

  -- For a vector of `n` times l elements, packed by valid parameters with t random points for each
  -- chunk, `pack_vec` returns n sharings with a share for each party, and unpacking them one after another
  -- gives the vector back.
  pub pack_vec-unpack :
      (n : ℕ) (secrets : List T)
      → 0 < pp.l
      → length secrets ≡ n * pp.l
      → (packed : List (List T)) × (pack_vec pp rand_points secrets ≡ some packed)
        × (length packed ≡ n)
        × All (λ shares. length shares ≡ pp.n) packed
        × (join_all (map (unpack pp) packed) ≡ secrets)
  unfolding pack_vec
  pack_vec-unpack n secrets pos len =
      let some_element : (not (pp.l == 0)) ≡ true = ground arith in
      let (count, sized, back) =
        pack_chunks-unpack n (length secrets) 0 secrets pos len (omega arith) in
      let packed = pack_chunks pp rand_points 0 (chunks (length secrets) pp.l secrets) in
      (packed, ap (λ z. assert z (some packed)) some_element, count, sized, back)
