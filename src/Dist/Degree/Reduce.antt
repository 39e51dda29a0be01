-- ===== src/Dist/Degree/Reduce.antt =====
-- What the king of the degree reduction (dist-primitives/src/utils/deg_red.rs) sends back.
use zk_pse.Base.{
  ℕ, suc, ◌<◌, ◌==◌, true, List, [], ◌∷◌, map, length, length-zip_with, length-map, ==_iff,
  zip_with, some, ◌≡◌, refl, sym, ap, ap₂, ◌∙◌, arith, All,
}
use zk_pse.Algebra.{Field}
use zk_pse.Sharing.Pss.{PackedSharingParams, pack, unpack, step_by_two, unpack_missing_shares}
use zk_pse.Sharing.Pss.Pack.{IsValid, unpack-pack, length-pack}
use zk_pse.Sharing.Pss.Product.{field_coeff, unpack2-product}
use zk_pse.Dist.Pack.{transpose}
use zk_pse.Dist.Pack.Transpose.{transpose-transpose}
use zk_pse.Dist.Degree.{reduce_rows, king_answer}

-- Two packings whose shares are multiplied.
pub record Factors {ℓ} (F : Type ℓ) : Type ℓ where
  pub left : List F
  pub left_points : List F
  pub right : List F
  pub right_points : List F

module _ {ℓ} {F : Type ℓ} ⦃f : Field F⦄ (pp : PackedSharingParams F F) where
  abbrev pub Fits : Factors F → Type 0
  Fits p =
      (length p.left ≡ pp.l)
      × (length p.right ≡ pp.l)
      × (length p.left_points ≡ pp.t)
      × (length p.right_points ≡ pp.t)

  abbrev pub product_shares : Factors F → List F
  product_shares p = zip_with f.mul (pack pp p.left p.left_points) (pack pp p.right p.right_points)

  abbrev pub products : Factors F → List F
  products p = zip_with f.mul p.left p.right

module _ {ℓ} {F : Type ℓ} ⦃f : Field F⦄ (pp : PackedSharingParams F F) (valid : IsValid pp)
    (evens : step_by_two pp.secret2.elements ≡ pp.secret.elements)
    (batch_inversion : List F → List F) (parties : List ℕ) (rand_points : ℕ → List F)
    (sizes : (k : ℕ) → length (rand_points k) ≡ pp.t) where
  length-product_shares : (p : Factors F) → length (product_shares pp p) ≡ pp.n
  length-product_shares p =
      let left = length-pack pp valid p.left p.left_points in
      let right = length-pack pp valid p.right p.right_points in
      length-zip_with f.mul (pack pp p.left p.left_points) (pack pp p.right p.right_points)
        (left ∙ sym right)
      ∙ left

  unpack_row :
      (p : Factors F)
      → Fits pp p
      → unpack_missing_shares pp batch_inversion (product_shares pp p) parties
        ≡ some (products pp p)
  unfolding unpack_missing_shares
  unpack_row p (hx, hy, hu, hv) =
      let all_there : (length (product_shares pp p) == pp.n) ≡ true =
        (==_iff (length (product_shares pp p)) pp.n).1 (length-product_shares p) in
      rw all_there
        (unpack2-product pp valid evens p.left p.right p.left_points p.right_points hx hy hu hv)

  length-products : (p : Factors F) → Fits pp p → length (products pp p) ≡ pp.l
  length-products p (hx, hy, _, _) = length-zip_with f.mul p.left p.right (hx ∙ sym hy) ∙ hx

  -- What the loop makes of rows of shares of products.
  reduce_rows-returns :
      (k : ℕ) (ps : List (Factors F))
      → All (Fits pp) ps
      → (packed : List (List F)) × (reduce_rows pp batch_inversion parties rand_points k
            (map (product_shares pp) ps)
          ≡ some packed)
        × (length packed ≡ length ps)
        × All (λ row. length row ≡ pp.n) packed
        × (map (unpack pp) packed ≡ map (products pp) ps)
  unfolding reduce_rows
  reduce_rows-returns k [] h = ([], refl, refl, tt, refl)
  reduce_rows-returns k (p ∷ ps) (h, hs) =
      let (packed, e, l, rows, values) = reduce_rows-returns (suc k) ps hs in
      (
        pack pp (products pp p) (rand_points k) ∷ packed,
        rw (unpack_row p h, e) refl,
        ap suc l,
        (length-pack pp valid (products pp p) (rand_points k), rows),
        ap₂ ◌∷◌
            (unpack-pack pp valid (products pp p) (rand_points k) (length-products p h) (sizes k))
            values,
      )

  rows_rectangular :
      (ps : List (Factors F)) → All (λ row. length row ≡ pp.n) (map (product_shares pp) ps)
  rows_rectangular [] = tt
  rows_rectangular (p ∷ ps) = (length-product_shares p, rows_rectangular ps)

  -- When every party's shares arrive, each a product of its shares of two packings, the king sends
  -- back an answer for each party, and the parties' answers unpack to the products of the secrets:
  -- shares of a polynomial of twice the degree have become shares of one of the first degree.
  -- (`valid` and `evens`: the domains have the sizes that the constructors give them, and the larger
  -- coset contains the smaller at its even places. `sizes`: the random number generator yields t points at a time.)
  pub king_answer-products :
      (ps : List (Factors F))
      → 0 < length ps
      → 0 < pp.n
      → All (Fits pp) ps
      → (shares : List (List F)) × (answer : List (List F)) × (packed : List (List F)) × (transpose
            (map (product_shares pp) ps)
          ≡ some shares)
        × (king_answer pp batch_inversion rand_points
              (record { shares = shares; parties = parties })
            ≡ some answer)
        × (length answer ≡ pp.n)
        × (transpose answer ≡ some packed)
        × (map (unpack pp) packed ≡ map (products pp) ps)
  unfolding king_answer
  king_answer-products ps some_rows some_party h =
      let rows = map (product_shares pp) ps in
      let (shares, e, _, _, _, back) =
        transpose-transpose pp.n rows
          (omega (arith, length-map (product_shares pp) ps), some_party, rows_rectangular ps) in
      let (packed, ep, l, sized, values) = reduce_rows-returns 0 ps h in
      let (answer, ea, parts, _, _, back') =
        transpose-transpose pp.n packed (omega arith, some_party, sized) in
      (shares, answer, packed, e, rw (back, ep) ea, parts, back', values)
