-- ===== src/Detector/Progress.antt =====
-- The receiver's event counter, which counts on 16 bits.
use muondetector_cluster.Prelude.{ℕ, ◌+◌, ◌-◌, ◌%◌, ◌^◌, ◌<◌, ◌≡◌, arith}
use muondetector_cluster.Detector.{ublox_difference}

-- How far the counter has moved on, modulo 2^16.
abbrev pub counter_progress : ℕ → ℕ → ℕ
counter_progress current last = (current + 2 ^ 16 - last) % 2 ^ 16

-- Without a wrap of the counter its progress is counted right; across a wrap one event too few is
-- counted; and a counter that has not moved counts for 65535 events. Both values are below 2^16.
pub ublox_difference_lem :
    (current last : ℕ)
    → current < 2 ^ 16
    → last < 2 ^ 16
    → (last < current → ublox_difference current last ≡ counter_progress current last)
      × (current < last → ublox_difference current last + 1 ≡ counter_progress current last)
      × (current ≡ last → ublox_difference current last ≡ 65535)
unfolding ublox_difference
ublox_difference_lem current last h k =
    ((λ a. ground arith), (λ a. ground arith), (λ a. ground arith))
