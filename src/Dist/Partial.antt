-- ===== src/Dist/Partial.antt =====
-- dist-primitives/src/dpp/mod.rs: what the king of `d_pp` computes on the numerators and
-- denominators that it has unpacked.
pub mod Product
use zk_pse.Base.{
  ℕ, ◌/◌, if◌then◌else◌, List, [], ◌∷◌, length, take, drop, Option, none, some, ◌>>=◌,
}
use zk_pse.Algebra.{Field, ◌⊗◌}

module _ {ℓ} {F : Type ℓ} ⦃f : Field F⦄ where
  -- `numden[i] *= numden[i + numden.len() / 2].inverse().unwrap()`: the first loop, which writes the
  -- first half and reads the second. `none` is the panic on a denominator that is zero.
  unfoldable pub divide_each : List F → List F → Option (List F)
  divide_each [] dens = some []
  divide_each (n ∷ nums) [] = none
  divide_each (n ∷ nums) (d ∷ dens) = do
    rest ← divide_each nums dens
    (if f.beq d f.zero then none else some ((n ⊗ f.inverse d) ∷ rest))

  -- `numden[i] *= numden[i - 1]` for the entries after `last`
  unfoldable pub multiply_up : F → List F → List F
  multiply_up last [] = []
  multiply_up last (x ∷ xs) = (x ⊗ last) ∷ multiply_up (x ⊗ last) xs

  unfoldable pub partial_products : List F → List F
  partial_products [] = []
  partial_products (x ∷ xs) = x ∷ multiply_up x xs

  unfoldable pub king_products : List F → Option (List F)
  king_products numden = do
    quotients ← divide_each (take (length numden / 2) numden) (drop (length numden / 2) numden)
    some (partial_products quotients)
