-- ===== src/Coincidence.antt =====
-- The criterion of the coincidence filter: include/analysis/simplecoincidence.h and
-- src/analysis/simplecoincidence.cpp. All its values are multiples of 0.5 of small size, on which
-- `double` is exact: a value is an integer count of halves.
pub mod Bounds
mod Tests
use muondetector_cluster.Prelude.{ℕ, Bool, ltb, leb, if◌then◌else◌}
use muondetector_cluster.Prelude.Int.{ℤ, pos, negsuc, ◌+ℤ◌, ◌-ℤ◌, nat_abs, ltb_ℤ}
use muondetector_cluster.Event.{Event, n}

-- `m_time`, in nanoseconds
abbrev pub time_window : ℕ
time_window = 100000

-- -3.5
abbrev pub maximum_false : ℤ
maximum_false = negsuc 6

-- 3.5
abbrev pub minimum_true : ℤ
minimum_true = pos 7

-- 1.0 or -1.0
unfoldable pub compare_times : ℤ → ℤ → ℤ
compare_times t1 t2 = if leb (nat_abs (t1 -ℤ t2)) time_window then pos 2 else negsuc 1

unfoldable pub last_time : Event → ℤ
last_time e = if ltb 1 (n e) then e.head.end else e.head.start

unfoldable pub apply : Event → Event → ℤ
unfolding compare_times last_time
apply first second =
    let t11 = first.head.start in
    let t21 = second.head.start in
    let t12 = last_time first in
    let t22 = last_time second in
    compare_times t11 t21 +ℤ compare_times t11 t22 +ℤ compare_times t12 t21 +ℤ compare_times t12 t22

-- The test of `coincidence_filter::process(event_t)`.
unfoldable pub is_coincident : Event → Event → Bool
unfolding apply
is_coincident e c = ltb_ℤ maximum_false (apply e c)
