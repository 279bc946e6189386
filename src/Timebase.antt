-- ===== src/Timebase.antt =====
-- `supervision::timebase`: include/supervision/timebase.h, src/supervision/timebase.cpp. It sends
-- on the events as they are, and puts the spread of their start times into each `timebase_t`.
-- `none` is the overflow of a signed subtraction, which is undefined behaviour.
pub mod Spread
mod Tests
use muondetector_cluster.Prelude.{
  ℕ, ◌-◌, ◌^◌, Bool, true, false, ◌&&◌, Option, some, none, ◌>>=◌, if◌then◌else◌,
}
use muondetector_cluster.Prelude.Int.{ℤ, pos, negsuc, ◌-ℤ◌, ltb_ℤ, leb_ℤ}
use muondetector_cluster.Event.{Event}
use muondetector_cluster.Filter.{Timebase}

-- Times are nanoseconds; `sample_start` is the system clock's time.
pub record TimebaseSupervisor : Type 0 where
  pub sample_start : ℤ
  pub start : ℤ
  pub end : ℤ
  pub current : ℤ

-- `s_minimum`, 800 ms
abbrev pub minimum : ℤ
minimum = pos 800000000

-- `s_maximum`, 2 min
abbrev pub maximum : ℤ
maximum = pos 120000000000

-- `s_sample_time`, 2 s
abbrev pub sample_time : ℤ
sample_time = pos 2000000000

-- The bounds of `std::int_fast64_t`
abbrev pub max_time : ℤ
max_time = pos (2 ^ 63 - 1)

abbrev pub min_time : ℤ
min_time = negsuc (2 ^ 63 - 1)

-- The object as it is constructed, at the time `now`.
unfoldable pub initial : ℤ → TimebaseSupervisor
initial now = record { sample_start = now; start = max_time; end = min_time; current = minimum }

-- `get(event_t)`
unfoldable pub observe_event : Event → TimebaseSupervisor → TimebaseSupervisor
observe_event e s =
    if ltb_ℤ e.head.start s.start
    then record s { start = e.head.start }
    else if ltb_ℤ s.end e.head.start
    then record s { end = e.head.start }
    else s

-- `m_end - m_start`
unfoldable pub subtract : ℤ → ℤ → Option ℤ
subtract a b = if leb_ℤ min_time (a -ℤ b) && leb_ℤ (a -ℤ b) max_time then some (a -ℤ b) else none

-- `std::clamp`
unfoldable pub clamp : ℤ → ℤ → ℤ → ℤ
clamp v low high = if ltb_ℤ v low then low else if ltb_ℤ high v then high else v

-- `get(timebase_t)`, with what it sends; `now` and `later` are the two readings of the clock.
unfoldable pub send_timebase :
    ℤ → ℤ → Timebase → TimebaseSupervisor → Option (TimebaseSupervisor × Timebase)
unfolding subtract clamp
send_timebase now later tb s =
    if ltb_ℤ (now -ℤ s.sample_start) sample_time
    then some (s, record tb { base = s.current })
    else do
      d ← subtract s.end s.start
      let current = clamp d minimum maximum
      some (
        record { sample_start = later; start = max_time; end = min_time; current = current },
        record tb { base = current },
      )
