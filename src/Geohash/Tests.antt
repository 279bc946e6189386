-- ===== src/Geohash/Tests.antt =====
-- Witnesses and tests for the geohash.
use muondetector_cluster.Prelude.{◌≡◌, min, not, some, Text, All, length, if◌then◌else◌, ltb}
use muondetector_cluster.Prelude.Samples.{whole}
use muondetector_cluster.Geohash.{from_coordinates, is_outside}
use muondetector_cluster.Geohash.Digits.{IsDigit, from_coordinates_lem}

from_coordinates_lem_example :
    (t : Text) × (from_coordinates whole (λ a b. not (ltb a b)) 10 50 3 ≡ some t)
    × (length t ≡ (if is_outside whole (λ a b. not (ltb a b)) 10 50 then 0 else min 12 3))
    × All IsDigit t
from_coordinates_lem_example = from_coordinates_lem whole (λ a b. not (ltb a b)) 10 50 3
