-- ===== src/Event.antt =====
-- include/messages/event.h, src/messages/event.cpp, and the records that an event carries
-- (include/messages/userinfo.h, include/messages/detectorinfo.h).
pub mod Hits
pub mod Window
pub mod Samples
mod Tests
use muondetector_cluster.Prelude.{
  ℕ, ◌+◌, max, Bool, List, [], ◌∷◌, ◌++◌, Text, ltb, if◌then◌else◌, length,
}
use muondetector_cluster.Prelude.Int.{ℤ, ◌-ℤ◌, ltb_ℤ}
use muondetector_cluster.Prelude.Floats.{Double}

pub record Location : Type 0 where
  pub lat : Double
  pub lon : Double
  pub h : Double
  pub v_acc : Double
  pub h_acc : Double
  pub dop : Double
  pub geohash : Text
  pub max_geohash_length : ℕ

pub record UserInfo : Type 0 where
  pub username : Text
  pub station_id : Text

unfoldable pub site_id : UserInfo → Text
site_id u = u.username ++ u.station_id

-- `std::hash<std::string>` is the standard library's.
unfoldable pub user_hash : (Text → ℕ) → UserInfo → ℕ
unfolding site_id
user_hash std_hash u = std_hash (site_id u)

-- `event_t::data_t`: one detector's hit. Times are nanoseconds.
pub record EventData : Type 0 where
  pub location : Location
  pub userinfo : UserInfo
  pub hash : ℕ
  pub user : Text
  pub station_id : Text
  pub start : ℤ
  pub end : ℤ
  pub time_acc : ℕ
  pub ublox_counter : ℕ
  pub fix : ℕ
  pub utc : ℕ
  pub gnss_time_grid : ℕ

-- `event_t`; `head` is its member `data`, which is a reserved word here.
pub record Event : Type 0 where
  pub head : EventData
  pub events : List EventData

-- `data_t::duration`
unfoldable pub data_duration : EventData → ℤ
data_duration d = d.end -ℤ d.start

unfoldable pub duration : Event → ℤ
unfolding data_duration
duration e = data_duration e.head

-- The number of hits that the event stands for.
abbrev pub n : Event → ℕ
n e = max (length e.events) 1

-- The tests of `emplace(data_t)` on the start and end of the whole.
unfoldable pub widen : EventData → EventData → EventData
widen h d =
    if ltb_ℤ d.start h.start
    then record h { start = d.start }
    else if ltb_ℤ h.end d.start
    then record h { end = d.start }
    else h

unfoldable pub emplace_data : Event → EventData → Event
unfolding widen
emplace_data e d = record { head = widen e.head d; events = e.events ++ d ∷ [] }

-- The loop of `emplace(event_t)`.
unfoldable pub emplace_all : Event → List EventData → Event
unfolding emplace_data
emplace_all e [] = e
emplace_all e (d ∷ ds) = emplace_all (emplace_data e d) ds

unfoldable pub emplace : Event → Event → Event
unfolding emplace_all
emplace e f = if ltb 1 (n f) then emplace_all e f.events else emplace_data e f.head
