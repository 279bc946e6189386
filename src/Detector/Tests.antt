-- ===== src/Detector/Tests.antt =====
-- Witnesses and tests for the detector.
use muondetector_cluster.Prelude.{ℕ, ◌≡◌, ◌<◌, ◌+◌, arith}
use muondetector_cluster.Status.{Status}
use muondetector_cluster.Detector.{Detector, ublox_difference}
use muondetector_cluster.Detector.Samples.{detector}
use muondetector_cluster.Detector.Progress.{ublox_difference_lem, counter_progress}

abbrev known : Detector
known = detector 3 Status.reliable

ublox_difference_lem_example :
    (5 < 2 → ublox_difference 2 5 ≡ counter_progress 2 5)
    × (2 < 5 → ublox_difference 2 5 + 1 ≡ counter_progress 2 5)
    × (◌≡◌ {A = ℕ} 2 5 → ublox_difference 2 5 ≡ 65535)
ublox_difference_lem_example = ublox_difference_lem 2 5 (omega arith) (omega arith)
