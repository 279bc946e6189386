-- ===== src/Pairs.antt =====
-- `station_coincidence` (include/analysis/stationcoincidence.h,
-- src/analysis/stationcoincidence.cpp): the stations, and the data of each pair of them. The clock
-- is an argument.
pub mod Triggers
pub mod Stations
pub mod Counting
pub mod Saving
mod Tests
use muondetector_cluster.Prelude.{
  ℕ, zero, suc, ◌+◌, ◌%◌, ◌^◌, Bool, true, false, List, [], ◌∷◌, ◌++◌, get_elem?, Option, none,
  some, Text, if◌then◌else◌, ◌==◌,
}
use muondetector_cluster.Prelude.Int.{ℤ, pos, negsuc, ◌+ℤ◌, ◌-ℤ◌, ◌*ℤ◌, quot_ℤ}
use muondetector_cluster.Prelude.Floats.{Double, Floats}
use muondetector_cluster.Event.{UserInfo, Location, user_hash}
use muondetector_cluster.Status.{Status}
use muondetector_cluster.Detector.{Trigger}
use muondetector_cluster.Histogram.{Histogram, between}
use muondetector_cluster.Histogram
use muondetector_cluster.Matrix.{UpperMatrix}
use muondetector_cluster.Matrix

-- `data_t`; `uptime` is in minutes.
pub record PairData : Type 0 where
  pub first : ℕ
  pub second : ℕ
  pub distance : Double
  pub hist : Histogram
  pub online : ℕ
  pub last_online : ℤ
  pub uptime : ℤ

pub record Pairs : Type 0 where
  pub stations : List (UserInfo × Location)
  pub matrix : UpperMatrix PairData

-- `std::find_if` by the hash of a station, and `std::distance` to it.
unfoldable pub find_station : (Text → ℕ) → ℕ → List (UserInfo × Location) → Option ℕ
find_station std_hash hash [] = none
find_station std_hash hash ((user, location) ∷ rows) =
    if user_hash std_hash user == hash
    then some 0
    else elim (find_station std_hash hash rows) [ none ↦ none | some i ↦ some (suc i) ]

-- The callback of `iterate`, with the counter of 8 bits; the sum of minutes, which has 32 bits, is
-- not wrapped.
unfoldable pub switch_online : ℤ → Status → PairData → PairData
switch_online now Status.unreliable d =
    let up =
      (if d.online == 2 then d.uptime +ℤ quot_ℤ (now -ℤ d.last_online) 60000000000 else d.uptime) in
    record d { uptime = up; online = (d.online + 255) % 2 ^ 8 }
switch_online now Status.reliable d =
    let since = (if d.online == 1 then now else d.last_online) in
    record d { last_online = since; online = (d.online + 1) % 2 ^ 8 }
switch_online now Status.invalid d = d
switch_online now Status.deleted d = d
switch_online now Status.created d = d

-- `get(trigger::detector)`; `none` is the exception of `at`.
unfoldable pub get_trigger : (Text → ℕ) → ℤ → Trigger → Pairs → Option Pairs
unfolding find_station switch_online
get_trigger std_hash now t p = elim (find_station std_hash t.hash p.stations) [
  | none ↦ some p
  | some index ↦ elim (Matrix.iterate index (switch_online now t.status) p.matrix) [
    | none ↦ none
    | some m ↦ some (record p { matrix = m })
  ]
]

-- `s_bins`
abbrev pub bin_count : ℕ
bin_count = 2000

-- The distance of two places is that of include/utility/coordinatemodel.h, which is not modelled;
-- the conversion to radians is part of it.
module _ (fl : Floats) (straight_distance : Location → Location → Double) (c_0 : Double) where
  -- `std::clamp`
  abbrev pub clamp_double : Double → Double → Double → Double
  clamp_double x low high = if fl.lt x low then low else if fl.lt high x then high else x

  unfoldable pub bin_width : Double → ℤ
  bin_width distance =
      let time_of_flight = fl.div distance c_0 in
      fl.to_ℤ (
        clamp_double (fl.div (fl.mul (fl.of_ℕ 2) time_of_flight) (fl.of_ℕ bin_count)) (fl.of_ℕ 1)
          (fl.div (fl.of_ℕ 200000) (fl.of_ℕ bin_count)))

  -- What is put at the pair of a new station and another; half of the bins are on each side of 0.
  unfoldable pub pair_data : ℤ → ℕ → ℕ → Double → PairData
  unfolding bin_width
  pair_data now first second distance =
      let width = bin_width distance in
      record {
        first = first;
        second = second;
        distance = fl.to_float distance;
        hist = between bin_count (width *ℤ negsuc 999) (width *ℤ pos 1000);
        online = 2;
        last_online = now;
        uptime = pos 0;
      }

  -- The loop of `add_station` over `y`, with `left` rounds; `none` is the exception of `at`.
  unfoldable pub connect :
      (Text → ℕ)
      → ℤ
      → ℕ
      → UserInfo
      → Location
      → List (UserInfo × Location)
      → ℕ
      → ℕ
      → UpperMatrix PairData
      → Option (UpperMatrix PairData)
  unfolding pair_data
  connect std_hash now x user place stations zero y m = some m
  connect std_hash now x user place stations (suc left) y m = elim (get_elem? stations y) [
    | none ↦ none
    | some other ↦ connect std_hash now x user place stations left (y + 1) (
        Matrix.emplace x y
          (pair_data now (user_hash std_hash user) (user_hash std_hash other.0)
            (straight_distance place other.1))
          m)
  ]

  -- `data_t {}`
  abbrev pub no_pair : ℤ → PairData
  no_pair now = record {
    first = 0;
    second = 0;
    distance = 0;
    hist = Histogram.empty bin_count;
    online = 2;
    last_online = now;
    uptime = pos 0;
  }

  -- `none` is that, or an assertion of `increase`, if they are compiled in.
  unfoldable pub add_station : Bool → (Text → ℕ) → ℤ → UserInfo → Location → Pairs → Option Pairs
  unfolding connect
  add_station assertions std_hash now user place p =
      elim (Matrix.try_increase assertions (no_pair now) p.matrix) [
        | none ↦ none
        | some (x, m) ↦
            let stations = p.stations ++ (user, place) ∷ [] in
            elim (connect std_hash now x user place stations x 0 m) [
              | none ↦ none
              | some m' ↦ some (record { stations = stations; matrix = m' })
            ]
      ]
