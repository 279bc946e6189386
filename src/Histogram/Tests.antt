-- ===== src/Histogram/Tests.antt =====
-- Witnesses and tests for the histogram.
use muondetector_cluster.Prelude.{refl, [], ◌∷◌, arith}
use muondetector_cluster.Prelude.Int.{pos, negsuc, ◌-ℤ◌, ◌+ℤ◌}
use muondetector_cluster.Histogram.{Histogram, between}
use muondetector_cluster.Histogram.Bounds.{IsValid, IsInside}

-- The interval from -20 to 20 in four bins.
abbrev four : Histogram
four = record { lower = negsuc 19; upper = pos 20; width = pos 10; bins = 1 ∷ 0 ∷ 5 ∷ 2 ∷ [] }

four-IsValid : IsValid 4 four
unfolding ◌-ℤ◌ ◌+ℤ◌
four-IsValid = record { sized = refl; positive = omega arith; covers = refl }

middle-IsInside : IsInside 4 (pos 3) four
middle-IsInside = (omega arith, omega arith)

-- The interval from 0 to 7 in four bins, of which each is 1 wide.
abbrev narrow : Histogram
unfolding between
narrow = between 4 (pos 0) (pos 7)
