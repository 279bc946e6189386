-- ===== src/Rate.antt =====
-- `rate_measurement<N, T, Sample>` (include/analysis/ratemeasurement.h): events counted over
-- intervals of T milliseconds, kept as a series of rates. The current time is an argument.
pub mod Interval
mod Tests
use muondetector_cluster.Prelude.{
  ℕ, ◌+◌, ◌-◌, ◌%◌, ◌^◌, Bool, true, false, if◌then◌else◌, leb, add_64,
}
use muondetector_cluster.Prelude.Int.{ℤ, ◌-ℤ◌, quot_ℤ, pos_part, neg_part}
use muondetector_cluster.Prelude.Floats.{Floats}
use muondetector_cluster.Series
use muondetector_cluster.Series.{Series}

-- `series` is the base class.
pub record Rate : Type 0 where
  pub series : Series
  pub current_n : ℕ
  pub last : ℤ

unfoldable pub increase_counter : Rate → Rate
increase_counter r = record r { current_n = add_64 r.current_n 1 }

-- `static_cast<std::size_t>` of a signed count: modulo 2^64.
abbrev pub to_size : ℤ → ℕ
to_size a = (pos_part a + 2 ^ 64 - neg_part a % 2 ^ 64) % 2 ^ 64

abbrev pub ns_per_ms : ℕ
ns_per_ms = 1000000

-- The milliseconds since the last rate, as the code compares them.
unfoldable pub elapsed : ℤ → Rate → ℕ
elapsed now r = to_size (quot_ℤ (now -ℤ r.last) ns_per_ms)

module _ (fl : Floats) (size interval : ℕ) where
  unfoldable pub step : ℤ → Rate → Bool × Rate
  unfolding elapsed
  step now r =
      if leb interval (elapsed now r)
      then (
        true,
        record r {
          last = now;
          series =
              Series.add size
                (fl.div (fl.mul (fl.of_ℕ r.current_n) (fl.of_ℕ 1000)) (fl.of_ℕ interval)) r.series;
          current_n = 0;
        },
      )
      else (false, r)
