-- ===== src/Regex/Circom/Ranges.antt =====
-- `optimize_char_ranges` (compiler/src/circom.rs): long runs of bytes as ranges, and the rest.
pub mod Cover
use zk_pse.Base.{
  ℕ, zero, suc, ◌+◌, ◌-◌, ◌%◌, ◌==◌, leb, Bool, true, false, not, ◌&&◌, ◌||◌, if◌then◌else◌, List,
  [], ◌∷◌, ◌++◌, foldl,
}
use zk_pse.Std.Ord.{nat_ord}
use zk_pse.Std.Map.{Set, delete, add_all}
use zk_pse.Regex.Label.{byte_range}

pub record CharRanges : Type 0 where
  pub min_maxes : List (ℕ × ℕ)
  pub cur_min : ℕ
  pub cur_max : ℕ

-- `if cur_max - cur_min >= 16 { min_maxes.push((cur_min, cur_max)); }`, on `u8`
unfoldable pub close_range : CharRanges → List (ℕ × ℕ)
close_range s =
    if leb 16 ((s.cur_max + 256 - s.cur_min) % 256)
    then s.min_maxes ++ (s.cur_min, s.cur_max) ∷ []
    else s.min_maxes

-- A round of the loop over `k[1..]`. The sum of `u8` wraps around, as in a release; where overflow
-- is checked it panics.
unfoldable pub range_step : CharRanges → ℕ → CharRanges
range_step s val =
    if s.cur_max == val
    then s
    else if (s.cur_max + 1) % 256 == val
    then record s { cur_max = val }
    else record { min_maxes = close_range s; cur_min = val; cur_max = val }

-- `for code in *min..=*max { vals.remove(&code); }`
unfoldable pub remove_codes : List ℕ → Set ℕ → Set ℕ
remove_codes [] vals = vals
remove_codes (code ∷ codes) vals = remove_codes codes (delete code vals)

-- `for (min, max) in &min_maxes`
unfoldable pub remove_ranges : List (ℕ × ℕ) → Set ℕ → Set ℕ
remove_ranges [] vals = vals
remove_ranges ((min, max) ∷ min_maxes) vals =
    remove_ranges min_maxes (remove_codes (byte_range min max) vals)

unfoldable pub find_ranges : ℕ → List ℕ → List (ℕ × ℕ)
find_ranges first rest =
    close_range
      (foldl range_step (record { min_maxes = []; cur_min = first; cur_max = first }) rest)

unfoldable pub optimize_char_ranges : List ℕ → List (ℕ × ℕ) × Set ℕ
optimize_char_ranges [] = ([], [])
optimize_char_ranges (first ∷ rest) =
    (find_ranges first rest, remove_ranges (find_ranges first rest) (add_all (first ∷ rest) []))
