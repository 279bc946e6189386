-- ===== src/Rate/Tests.antt =====
-- Witnesses and tests for the rate measurement.
use muondetector_cluster.Prelude.Int.{pos}
use muondetector_cluster.Series
use muondetector_cluster.Rate.{Rate}

-- An interval that started at the clock's time 5 s, with 12 events so far.
abbrev rate : Rate
unfolding Series.init
rate = record { series = Series.init 3 0; current_n = 12; last = pos 5000000000 }
