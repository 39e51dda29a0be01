-- ===== src/Dist/Degree.antt =====
-- dist-primitives/src/utils/deg_red.rs: the degree reduction, as far as the king computes it: what
-- it makes of the shares that it received.
pub mod Reduce
use zk_pse.Base.{ℕ, suc, List, [], ◌∷◌, Option, none, some, ◌>>=◌}
use zk_pse.Algebra.{Field, DomainCoeff}
use zk_pse.Sharing.Pss.{PackedSharingParams, pack, unpack_missing_shares}
use zk_pse.Dist.Pack.{transpose}

-- `ReceivedShares` of mpc-net
pub record ReceivedShares {ℓ} (T : Type ℓ) : Type ℓ where
  pub shares : List T
  pub parties : List ℕ

module _ {ℓ κ} {F : Type ℓ} {T : Type κ} ⦃f : Field F⦄ ⦃d : DomainCoeff F T⦄ where
  module _ (pp : PackedSharingParams F T) (batch_inversion : List F → List F) where
    -- the loop over `x_shares`; the k-th call of the random number generator yields `rand_points k`
    unfoldable pub reduce_rows : List ℕ → (ℕ → List T) → ℕ → List (List T) → Option (List (List T))
    reduce_rows parties rand_points k [] = some []
    reduce_rows parties rand_points k (x_share ∷ x_shares) = do
      xi ← unpack_missing_shares pp batch_inversion x_share parties
      rest ← reduce_rows parties rand_points (suc k) x_shares
      some (pack pp xi (rand_points k) ∷ rest)

    unfoldable pub king_answer : (ℕ → List T) → ReceivedShares (List T) → Option (List (List T))
    king_answer rand_points rs = do
      x_shares ← transpose rs.shares
      packed ← reduce_rows rs.parties rand_points 0 x_shares
      transpose packed
