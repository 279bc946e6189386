-- ===== src/Constructor.antt =====
-- `event_constructor`: include/analysis/eventconstructor.h, src/analysis/eventconstructor.cpp.
-- Time points and durations are nanoseconds; the current time is an argument.
pub mod Timeout
use muondetector_cluster.Prelude.{Bool, if◌then◌else◌}
use muondetector_cluster.Prelude.Int.{ℤ, ◌-ℤ◌, leb_ℤ}
use muondetector_cluster.Event.{Event}

-- `start` is `m_start`, the time of construction.
pub record Constructor : Type 0 where
  pub event : Event
  pub timeout : ℤ
  pub start : ℤ

unfoldable pub set_timeout : ℤ → Constructor → Constructor
set_timeout new_timeout c =
    if leb_ℤ new_timeout c.timeout then c else record c { timeout = new_timeout }

unfoldable pub timed_out : ℤ → Constructor → Bool
timed_out now c = leb_ℤ c.timeout (now -ℤ c.start)
