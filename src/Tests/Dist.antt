-- ===== src/Tests/Dist.antt =====
-- The theorems on dist-primitives/src at concrete matrices.
use zk_pse.Base.{
  All, suc, ◌≢◌, take, get_elem?, ℕ, ◌<◌, List, [], ◌∷◌, length, map, some, ◌≡◌, refl, arith,
}
use zk_pse.Algebra.Sample.{r0, r1, mul, Gf3, gf3_field, r2, inverse}
use zk_pse.Sharing.Pss.{unpack, step_by_two}
use zk_pse.Sharing.Pss.Product.{field_coeff}
use zk_pse.Tests.Domains.{params, params-IsValid}
use zk_pse.Dist.Partial.{king_products}
use zk_pse.Dist.Partial.Product.{product, king_products-returns}
use zk_pse.Dist.Degree.{king_answer}
use zk_pse.Dist.Degree.Reduce.{Factors, product_shares, products, king_answer-products}
use zk_pse.Dist.Pack.{transpose, column, columns, pack_vec}
use zk_pse.Dist.Pack.Chunks.{join_all, pack_vec-unpack}
use zk_pse.Dist.Pack.Transpose.{IsRectangular, entry, transpose-transpose}

abbrev matrix : List (List ℕ)
matrix = (1 ∷ 2 ∷ 3 ∷ []) ∷ (4 ∷ 5 ∷ 6 ∷ []) ∷ []

matrix_transposed : transpose matrix ≡ some ((1 ∷ 4 ∷ []) ∷ (2 ∷ 5 ∷ []) ∷ (3 ∷ 6 ∷ []) ∷ [])
unfolding transpose columns column
matrix_transposed = refl

transpose-transpose_example :
    (xs : List (List ℕ)) × (transpose matrix ≡ some xs)
    × (length xs ≡ 3)
    × IsRectangular 2 xs
    × ((i r : ℕ) → i < 3 → entry xs i r ≡ entry matrix r i)
    × (transpose xs ≡ some matrix)
transpose-transpose_example =
    transpose-transpose 3 matrix (omega arith, omega arith, (refl, (refl, tt)))

abbrev factors : Factors Gf3
factors = record { left = r2 ∷ []; left_points = []; right = r2 ∷ []; right_points = [] }

abbrev rand_points : ℕ → List Gf3
rand_points k = []

king_answer-products_example :
    (shares : List (List Gf3)) × (answer : List (List Gf3)) × (packed : List (List Gf3))
    × (transpose (map (product_shares params) (factors ∷ factors ∷ [])) ≡ some shares)
    × (king_answer params
          (map inverse)
          rand_points
          (record { shares = shares; parties = 0 ∷ 1 ∷ [] })
        ≡ some answer)
    × (length answer ≡ 2)
    × (transpose answer ≡ some packed)
    × (map (unpack params) packed ≡ map (products params) (factors ∷ factors ∷ []))
unfolding step_by_two
king_answer-products_example =
    king_answer-products params params-IsValid refl (map inverse) (0 ∷ 1 ∷ []) rand_points
      (λ k. refl) (factors ∷ factors ∷ []) (omega arith) (omega arith)
      ((refl, refl, refl, refl), ((refl, refl, refl, refl), tt))

r1-ne-r0 : r1 ≢ r0
r1-ne-r0 e = cc

r2-ne-r0 : r2 ≢ r0
r2-ne-r0 e = cc

king_products-returns_example :
    (r : List Gf3) × (king_products (r2 ∷ r1 ∷ r1 ∷ r2 ∷ []) ≡ some r)
    × (length r ≡ 2)
    × ((i : ℕ) (x : Gf3)
        → get_elem? r i ≡ some x
        → mul x (product (take (suc i) (r1 ∷ r2 ∷ []))) ≡ product (take (suc i) (r2 ∷ r1 ∷ [])))
king_products-returns_example =
    king_products-returns (r2 ∷ r1 ∷ []) (r1 ∷ r2 ∷ []) refl (r1-ne-r0, (r2-ne-r0, tt))

pack_vec-unpack_example :
    (packed : List (List Gf3)) × (pack_vec params (λ k. []) (r2 ∷ r1 ∷ []) ≡ some packed)
    × (length packed ≡ 2)
    × All (λ shares. length shares ≡ 2) packed
    × (join_all (map (unpack params) packed) ≡ r2 ∷ r1 ∷ [])
pack_vec-unpack_example =
    pack_vec-unpack params params-IsValid (λ k. []) (λ k. refl) 2 (r2 ∷ r1 ∷ []) (omega arith) refl
