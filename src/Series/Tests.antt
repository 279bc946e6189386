-- ===== src/Series/Tests.antt =====
-- Witnesses and tests for the series.
use muondetector_cluster.Prelude.{◌≡◌, refl, false, [], ◌∷◌, arith}
use muondetector_cluster.Prelude.Samples.{whole}
use muondetector_cluster.Series.{Series, init, add, current, mean, variance, stddev, private_mean}
use muondetector_cluster.Series.Window.{IsValid, contents}
use muondetector_cluster.Series.Cache.{IsFresh, add-IsFresh}

abbrev empty : Series
unfolding init
empty = init 3 0

abbrev filled : Series
unfolding init add
filled = add 3 7 (add 3 5 (add 3 1 (add 3 9 empty)))

filled-IsFresh : IsFresh 3 false whole filled
unfolding filled
filled-IsFresh = add-IsFresh 3 false whole 7 (add 3 5 (add 3 1 (add 3 9 empty)))

filled-IsValid : IsValid 3 filled
unfolding filled
filled-IsValid = record { sized = refl; index_in = omega arith }

-- The oldest of four values has been pushed out, and the statistics are those of the other three.
filled-contents : contents filled ≡ 1 ∷ 5 ∷ 7 ∷ []
unfolding filled
filled-contents = refl

filled-mean : (mean 3 whole filled).0 ≡ 4
unfolding mean private_mean filled muondetector_cluster.Series.accumulate
    muondetector_cluster.Series.values muondetector_cluster.Series.count
filled-mean = refl
