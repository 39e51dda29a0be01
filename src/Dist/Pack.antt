-- ===== src/Dist/Pack.antt =====
-- dist-primitives/src/utils/pack.rs: packing a vector in chunks, and the transposition that sorts
-- the shares by party.
pub mod Transpose
pub mod Chunks
use zk_pse.Base.{
  ℕ, zero, suc, ◌==◌, not, leb, Bool, List, [], ◌∷◌, map, length, get_elem?, get_or, take, drop,
  traverse, Option, none, some, assert, ◌>>=◌,
}
use zk_pse.Algebra.{Field, DomainCoeff}
use zk_pse.Sharing.Pss.{PackedSharingParams, pack}

-- `row[c]` for each row: `none` is the panic on a row that is too short.
unfoldable pub column {ℓ} : {A : Type ℓ} → ℕ → List (List A) → Option (List A)
column c [] = some []
column c (row ∷ rows) = do x ← get_elem? row c; xs ← column c rows; some (x ∷ xs)

-- columns from `c` on, `left` of them
unfoldable pub columns {ℓ} : {A : Type ℓ} → ℕ → ℕ → List (List A) → Option (List (List A))
columns zero c matrix = some []
columns (suc left) c matrix = do
  x ← column c matrix
  xs ← columns left (suc c) matrix
  some (x ∷ xs)

-- `matrix[0]`, and `matrix[0][0]`, which the code clones into every place of the result first:
-- both panic on an empty list.
unfoldable pub transpose {ℓ} : {A : Type ℓ} → List (List A) → Option (List (List A))
transpose [] = none
transpose ([] ∷ rest) = none
transpose ((x ∷ row) ∷ rest) = columns (suc (length row)) 0 ((x ∷ row) ∷ rest)

-- `chunks(l)`, the last one with what is left. Each chunk has an element, so the length is fuel enough.
unfoldable pub chunks {ℓ} : {A : Type ℓ} → ℕ → ℕ → List A → List (List A)
chunks zero l xs = []
chunks (suc fuel) l [] = []
chunks (suc fuel) l (x ∷ xs) = take l (x ∷ xs) ∷ chunks fuel l (drop l (x ∷ xs))

module _ {ℓ κ} {F : Type ℓ} {T : Type κ} ⦃f : Field F⦄ ⦃d : DomainCoeff F T⦄
    (pp : PackedSharingParams F T) (rand_points : ℕ → List T) where
  -- the generator of the `k`-th chunk yields `rand_points k`
  unfoldable pub pack_chunks : ℕ → List (List T) → List (List T)
  pack_chunks k [] = []
  pack_chunks k (x ∷ xs) = pack pp x (rand_points k) ∷ pack_chunks (suc k) xs

  -- Chunks of no elements are a panic. (The assertion on the length is for debug builds.)
  unfoldable pub pack_vec : List T → Option (List (List T))
  pack_vec secrets =
      assert (not (pp.l == 0)) (some (pack_chunks 0 (chunks (length secrets) pp.l secrets)))
