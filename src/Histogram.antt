-- ===== src/Histogram.antt =====
-- `histogram<N, std::int32_t, std::uint32_t>` (include/analysis/histogram.h), the instance that
-- include/analysis/stationcoincidence.h uses. `none` is undefined behaviour: a division by a zero
-- width, or a write outside the array of bins.
pub mod Bounds
pub mod Bins
mod Tests
use muondetector_cluster.Prelude.{
  ℕ, zero, suc, ◌+◌, ◌/◌, ◌%◌, ◌^◌, Bool, true, false, List, [], ◌∷◌, Option, some, none, ◌>>=◌,
  if◌then◌else◌, ◌==◌, ◌||◌, length, get_elem?, set, replicate, add_64, ltb, map,
}
use muondetector_cluster.Prelude.Int.{ℤ, pos, ◌+ℤ◌, ◌-ℤ◌, quot_ℤ, pos_part, nat_abs, ltb_ℤ, leb_ℤ}

pub record Histogram : Type 0 where
  pub lower : ℤ
  pub upper : ℤ
  pub width : ℤ
  pub bins : List ℕ

-- `histogram::bin`
pub record Bin : Type 0 where
  pub lower : ℤ
  pub upper : ℤ
  pub count : ℕ

module _ (size : ℕ) where
  -- `histogram()`
  unfoldable pub empty : Histogram
  empty = record { lower = pos 0; upper = pos 0; width = pos 0; bins = replicate size 0 }

  -- `histogram(T lower, T upper)`: the width is rounded towards zero.
  unfoldable pub between : ℤ → ℤ → Histogram
  between lower upper = record {
    lower = lower;
    upper = upper;
    width = quot_ℤ (upper -ℤ lower) size;
    bins = replicate size 0;
  }

-- The index of a value in the interval: both numbers are positive there, so that the division
-- rounds down and `std::floor` changes nothing.
unfoldable pub bin_index : ℤ → Histogram → ℕ
bin_index value h = pos_part (value -ℤ h.lower) / pos_part h.width

-- `m_bins[i]++` on a counter of 32 bits
unfoldable pub increment : ℕ → List ℕ → Option (List ℕ)
increment i bins = do c ← get_elem? bins i; some (set bins i ((c + 1) % 2 ^ 32))

unfoldable pub add : ℤ → Histogram → Option Histogram
unfolding bin_index increment
add value h =
    if (ltb_ℤ value h.lower || leb_ℤ h.upper value)
    then some h
    else if pos_part h.width == 0
    then none
    else do bins ← increment (bin_index value h) h.bins; some (record h { bins = bins })

-- The loop of `qualified_bins`, with `last` as it runs.
unfoldable pub qualified_from : ℤ → ℤ → List ℕ → List Bin
qualified_from width last [] = []
qualified_from width last (b ∷ bs) =
    record { lower = last; upper = last +ℤ width; count = b }
    ∷ qualified_from width (last +ℤ width) bs

unfoldable pub qualified_bins : Histogram → List Bin
unfolding qualified_from
qualified_bins h = qualified_from h.width h.lower h.bins

-- The loop of `integral`, on a sum of 64 bits.
unfoldable pub integral_from : ℕ → List ℕ → ℕ
integral_from total [] = total
integral_from total (n ∷ ns) = integral_from (add_64 total n) ns

unfoldable pub integral : Histogram → ℕ
unfolding integral_from
integral h = integral_from 0 h.bins

unfoldable pub clear : Histogram → Histogram
clear h = record h { bins = map (λ n. 0) h.bins }
