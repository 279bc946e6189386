-- ===== src/Rate/Interval.antt =====
-- When `rate_measurement::step` closes an interval.
use muondetector_cluster.Prelude.{ℕ, suc, ◌+◌, ◌*◌, ◌/◌, ◌^◌, ◌≤◌, ◌<◌, ◌≡◌, true, leb, arith}
use muondetector_cluster.Prelude.Int.{ℤ, ◌-ℤ◌, quot_ℤ, pos, negsuc}
use muondetector_cluster.Prelude.Floats.{Floats}
use muondetector_cluster.Rate.{Rate, step, elapsed, to_size, ns_per_ms}

-- A span of nanoseconds that a signed 64-bit count holds.
abbrev pub span_limit : ℕ
span_limit = 2 ^ 63

quotient_of_pos : (n : ℕ) → n < span_limit → to_size (quot_ℤ (pos n) ns_per_ms) ≡ n / ns_per_ms
unfolding quot_ℤ
quotient_of_pos n h = ground arith

quotient_of_neg :
    (n : ℕ)
    → n < span_limit
    → ns_per_ms ≤ suc n
    → to_size (quot_ℤ (negsuc n) ns_per_ms) + suc n / ns_per_ms ≡ 2 ^ 64
unfolding quot_ℤ
quotient_of_neg n h k = ground arith

-- The code's test on a clock that has not gone back, and on one that has.
elapsed_of_pos :
    (now : ℤ) (r : Rate) (n : ℕ)
    → now -ℤ r.last ≡ pos n
    → n < span_limit
    → elapsed now r ≡ n / ns_per_ms
unfolding elapsed
elapsed_of_pos now r n e h = rw e (quotient_of_pos n h)

elapsed_of_neg :
    (now : ℤ) (r : Rate) (n : ℕ)
    → now -ℤ r.last ≡ negsuc n
    → n < span_limit
    → ns_per_ms ≤ suc n
    → elapsed now r + suc n / ns_per_ms ≡ 2 ^ 64
unfolding elapsed
elapsed_of_neg now r n e h k = rw e (quotient_of_neg n h k)

module _ (fl : Floats) (size interval : ℕ) where
  -- While the clock does not go back, `step` closes the interval exactly if T milliseconds have
  -- passed since the last one was closed.
  pub step_forward :
      (now : ℤ) (r : Rate) (n : ℕ)
      → now -ℤ r.last ≡ pos n
      → n < span_limit
      → (step fl size interval now r).0 ≡ leb (interval * ns_per_ms) n
  unfolding step
  step_forward now r n e h = ground (arith, elapsed_of_pos now r n e h)

  -- When the system clock has been set back by a millisecond or more, and T is less than 2^62, the
  -- cast to an unsigned count makes `step` close the interval at once: its rate is taken over less
  -- time than T, the counter is cleared and the earlier time is the start of the next interval.
  pub step_backward :
      (now : ℤ) (r : Rate) (n : ℕ)
      → now -ℤ r.last ≡ negsuc n
      → n < span_limit
      → ns_per_ms ≤ suc n
      → interval < 2 ^ 62
      → ((step fl size interval now r).0 ≡ true)
        × ((step fl size interval now r).1.current_n ≡ 0)
        × ((step fl size interval now r).1.last ≡ now)
  unfolding step
  step_backward now r n e h k t = ground (arith, elapsed_of_neg now r n e h k)
