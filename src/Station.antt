-- ===== src/Station.antt =====
-- `supervision::station` (include/supervision/station.h, src/supervision/station.cpp): the
-- detectors, and what is sent on of their events. `on_detector_status` is in Detector.antt, since
-- only detectors call it, each for itself.
pub mod Mirror
pub mod Forward
mod Tests
use muondetector_cluster.Prelude.{
  ℕ, Bool, true, false, ◌&&◌, List, [], ◌∷◌, ◌++◌, Option, some, none, if◌then◌else◌, map,
}
use muondetector_cluster.Prelude.Int.{ℤ, pos, ◌-ℤ◌, leb_ℤ}
use muondetector_cluster.Prelude.Assoc
use muondetector_cluster.Prelude.Assoc.{Map}
use muondetector_cluster.Prelude.Floats.{Double, Floats}
use muondetector_cluster.Event.{Event, Location, UserInfo}
use muondetector_cluster.Series
use muondetector_cluster.Rate.{Rate}
use muondetector_cluster.Status.{Status, status_eq}
use muondetector_cluster.Detector.{
  Detector, World, Summary, enable, process_event, process_info, step, current_log_data,
  history_length, mean_history_length, reliability_length,
}

-- `last` is the steady clock's time of the last summaries.
pub record Station : Type 0 where
  pub detectors : Map Detector
  pub world : World
  pub last : ℤ

-- `detector_info_t<location_t>`
pub record DetectorInfo : Type 0 where
  pub location : Location
  pub hash : ℕ
  pub userinfo : UserInfo

-- `while (!m_delete_detectors.empty())`
unfoldable pub delete_all : List ℕ → Map Detector → Map Detector
delete_all [] m = m
delete_all (h ∷ hs) m = delete_all hs (Assoc.erase h m)

module _ (fl : Floats) where
  abbrev no_summary : Summary
  no_summary = record {
    hash = 0;
    userinfo = record { username = []; station_id = [] };
    deadtime = fl.of_ℕ 0;
    active = false;
    mean_eventrate = fl.of_ℕ 0;
    stddev_eventrate = fl.of_ℕ 0;
    mean_pulselength = fl.of_ℕ 0;
    ublox_counter_progress = 0;
    incoming = 0;
    change = 0;
    mean_time_acc = fl.of_ℕ 0;
  }

  -- The constructor of `detector_station`, at the time `now`.
  unfoldable pub create : ℤ → DetectorInfo → Detector
  create now info = record {
    status = Status.unreliable;
    initial = true;
    location = info.location;
    hash = info.hash;
    userinfo = info.userinfo;
    last_log = now;
    current_rate = record {
      series = Series.init history_length (fl.of_ℕ 0);
      current_n = 0;
      last = now;
    };
    mean_rate = record {
      series = Series.init mean_history_length (fl.of_ℕ 0);
      current_n = 0;
      last = now;
    };
    current_data = no_summary;
    last_ublox_counter = 0;
    pulselength = Series.init mean_history_length (fl.of_ℕ 0);
    time_acc = Series.init mean_history_length (fl.of_ℕ 0);
    reliability_time_acc = Series.init reliability_length (fl.of_ℕ 0);
    factor = fl.of_ℕ 1;
  }

  -- The end of `get(event_t)`, for an event that its detector accepted.
  unfoldable pub forward : Event → Detector → List Event
  forward e d =
      if status_eq d.status Status.reliable
      then record e { head = record e.head { location = d.location; userinfo = d.userinfo } } ∷ []
      else []

  -- `get(event_t)`, with the events put into the sink.
  unfoldable pub get_event : Event → Station → Station × List Event
  unfolding forward
  get_event e s = elim (Assoc.lookup e.head.hash s.detectors) [
    | none ↦ (s, [])
    | some d ↦
        let (accepted, d', w') = process_event fl e d s.world in
        (
          record s { detectors = Assoc.insert e.head.hash d' s.detectors; world = w' },
          if accepted then forward e d' else [],
        )
  ]

  -- `process(detector_info_t)`
  unfoldable pub process_info_message : ℤ → DetectorInfo → Station → Station
  process_info_message now info s = elim (Assoc.lookup info.hash s.detectors) [
    | none ↦
        let (d, w) = enable fl (create now info) s.world in
        record s { detectors = Assoc.insert info.hash d s.detectors; world = w }
    | some d ↦
        let (d', w) = process_info fl now info.location d s.world in
        record s { detectors = Assoc.insert info.hash d' s.detectors; world = w }
  ]

  -- The first loop of `process()`: every detector takes a step; the largest factor of the reliable
  -- ones so far is carried along.
  unfoldable pub step_all : ℤ → Double → Map Detector → World → Double × Map Detector × World
  step_all now largest [] w = (largest, [], w)
  step_all now largest ((h, d) ∷ m) w =
      let (d', w') = step fl now d w in
      let raised =
        if status_eq d'.status Status.reliable && fl.lt largest d'.factor
        then d'.factor
        else largest in
      let (largest', m', w'') = step_all now raised m w' in (largest', (h, d') ∷ m', w'')

  -- The loop that sends the regular summaries.
  unfoldable pub summarise_all : Map Detector → Map Detector × List Summary
  summarise_all [] = ([], [])
  summarise_all ((h, d) ∷ m) =
      let (s, d') = current_log_data fl d in
      let (m', ss) = summarise_all m in ((h, d') ∷ m', s ∷ ss)

  -- `process()` at the system clock's time `now` and the steady clock's time `steady`, with the
  -- factor that is put into the timebase sink; `interval` is the configured one.
  unfoldable pub process : ℤ → ℤ → ℤ → Station → Station × Double
  unfolding step_all delete_all summarise_all
  process interval now steady s =
      let (largest, stepped, w) = step_all now (fl.of_ℕ 1) s.detectors s.world in
      let left = delete_all w.delete_detectors stepped in
      let cleared = record w { delete_detectors = [] } in
      if leb_ℤ interval (steady -ℤ s.last)
      then (let (m, summaries) = summarise_all left in
          (
            record {
              detectors = m;
              world = record cleared { summaries = cleared.summaries ++ summaries };
              last = steady;
            },
            largest,
          ))
      else (record s { detectors = left; world = cleared }, largest)

-- `get_stations`
unfoldable pub get_stations : Station → List (UserInfo × Location)
get_stations s = map (λ entry. (entry.1.userinfo, entry.1.location)) s.detectors

-- `get_station`; a station that is not known gives `nothing`, which stands for `{}`.
unfoldable pub get_station : UserInfo × Location → ℕ → Station → UserInfo × Location
get_station nothing hash s = elim (Assoc.lookup hash s.detectors) [
  | none ↦ nothing
  | some d ↦ (d.userinfo, d.location)
]
