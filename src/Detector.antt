-- ===== src/Detector.antt =====
-- `detector_station` (include/analysis/detectorstation.h, src/analysis/detectorstation.cpp), with
-- the call that it makes of `supervision::station::on_detector_status`
-- (src/supervision/station.cpp). The current time is an argument; times are nanoseconds.
mod Messages
mod Data
pub mod Reliability
pub mod Progress
pub mod Timeout
mod Tests
pub mod Samples
pub use Messages.{Trigger, Summary, World}
pub use Data.{
  Detector, history_length, mean_history_length, time_interval, reliability_length, log_interval,
  quit_interval, max_timing_error, extreme_timing_error,
}
use muondetector_cluster.Prelude.{
  ℕ, ◌+◌, ◌-◌, ◌%◌, ◌^◌, Bool, true, false, ◌&&◌, List, [], ◌∷◌, ◌++◌, if◌then◌else◌, ◌==◌, ltb,
  leb, add_64, not,
}
use muondetector_cluster.Prelude.Int.{ℤ, pos, ◌-ℤ◌, ltb_ℤ}
use muondetector_cluster.Prelude.Floats.{Double, Floats}
use muondetector_cluster.Event.{Event, Location, UserInfo}
use muondetector_cluster.Series
use muondetector_cluster.Series.{Series}
use muondetector_cluster.Rate
use muondetector_cluster.Rate.{Rate}
use muondetector_cluster.State.{on_detector_status}
use muondetector_cluster.Status.{Status, Reason, status_eq, status_lt}

-- The progress of the receiver's counter since the last event, on 16 bits.
unfoldable pub ublox_difference : ℕ → ℕ → ℕ
ublox_difference current last =
    if leb current last
    then (current + (65535 - last)) % 2 ^ 16
    else (current + 2 ^ 16 - last) % 2 ^ 16

module _ (fl : Floats) where
  -- A decimal constant of the source, `a / b`.
  abbrev pub ratio : ℕ → ℕ → Double
  ratio a b = fl.div (fl.of_ℕ a) (fl.of_ℕ b)

  -- `current_log_data`: the summary, and the detector with its counters at 0.
  unfoldable pub current_log_data : Detector → Summary × Detector
  current_log_data d =
      let (mean_eventrate, rate1) = Series.mean history_length fl d.current_rate.series in
      let (stddev_eventrate, rate2) = Series.stddev history_length false fl rate1 in
      let (mean_pulselength, pulselength) = Series.mean mean_history_length fl d.pulselength in
      let (mean_time_acc, time_acc) = Series.mean mean_history_length fl d.time_acc in
      let progress = d.current_data.ublox_counter_progress in
      let deadtime =
        if progress == 0
        then fl.of_ℕ 1
        else fl.sub (fl.of_ℕ 1) (fl.div (fl.of_ℕ d.current_data.incoming) (fl.of_ℕ progress)) in
      let shown = record d.current_data {
        mean_eventrate = mean_eventrate;
        stddev_eventrate = stddev_eventrate;
        mean_pulselength = mean_pulselength;
        mean_time_acc = mean_time_acc;
        deadtime = deadtime;
      } in
      (
        record shown { hash = d.hash; userinfo = d.userinfo },
        record d {
          current_rate = record d.current_rate { series = rate2 };
          pulselength = pulselength;
          time_acc = time_acc;
          current_data = record shown { incoming = 0; ublox_counter_progress = 0 };
        },
      )

  unfoldable pub change_log_data : Detector → Summary × Detector
  change_log_data d = let (s, d') = current_log_data d in (record s { change = 1 }, d')

  -- `station::on_detector_status` for the detector that calls it.
  unfoldable pub notify : Status → Reason → Detector → World → Detector × World
  notify status reason d w =
      let (s, logged) = change_log_data d in
      let d' = (if status_lt Status.deleted status then logged else d) in
      (
        d',
        record {
          summaries =
              (if status_lt Status.deleted status then w.summaries ++ s ∷ [] else w.summaries);
          supervisor = on_detector_status d.hash status w.supervisor;
          delete_detectors =
              (if status_eq status Status.deleted
                then w.delete_detectors ++ d.hash ∷ []
                else w.delete_detectors);
          triggers =
              w.triggers
              ++ record { hash = d.hash; userinfo = d'.userinfo; status = status; reason = reason }
                ∷ [];
        },
      )

  unfoldable pub set_status : Status → Reason → Detector → World → Detector × World
  set_status status reason d w =
      if status_eq d.status status
      then (record d { status = status }, w)
      else (let (d', w') = notify status reason d w in (record d' { status = status }, w'))

  unfoldable pub enable : Detector → World → Detector × World
  enable = set_status Status.created Reason.miscellaneous

  -- `process(event_t)` up to its last test: what is counted and added.
  unfoldable pub count_event : Event → Detector → Detector
  count_event e d =
      let counter = e.head.ublox_counter in
      let length = fl.of_ℤ (e.head.end -ℤ e.head.start) in
      let accuracy = fl.of_ℕ e.head.time_acc in
      let progress =
        if d.initial
        then d.current_data.ublox_counter_progress
        else d.current_data.ublox_counter_progress
          + ublox_difference counter d.last_ublox_counter in
      record d {
        current_rate = Rate.increase_counter d.current_rate;
        mean_rate = Rate.increase_counter d.mean_rate;
        current_data = record d.current_data {
          incoming = add_64 d.current_data.incoming 1;
          ublox_counter_progress = progress;
        };
        initial = false;
        last_ublox_counter = counter;
        pulselength =
            (if fl.lt (fl.of_ℕ 0) length && fl.lt length (fl.of_ℕ 1000000)
              then Series.add mean_history_length length d.pulselength
              else d.pulselength);
        time_acc = Series.add mean_history_length accuracy d.time_acc;
        reliability_time_acc = Series.add reliability_length accuracy d.reliability_time_acc;
      }

  -- `process(event_t)`: whether the event is accepted.
  unfoldable pub process_event : Event → Detector → World → Bool × Detector × World
  process_event e d w =
      let counted = count_event e d in
      let (d', w') =
        if ltb extreme_timing_error e.head.time_acc
        then set_status Status.unreliable Reason.time_accuracy_extreme counted w
        else (counted, w) in
      (leb e.head.time_acc max_timing_error && e.head.fix == 1, d', w')

  -- The three measures of `check_reliability`, with the caches that they settle.
  unfoldable pub measures : Detector → Double × Double × Double × Detector
  measures d =
      let l = d.location in
      let loc_precision =
        fl.mul l.dop (fl.sqrt (fl.add (fl.mul l.h_acc l.h_acc) (fl.mul l.v_acc l.v_acc))) in
      let c_0 = fl.mul (fl.of_ℕ 299792458) (ratio 1 1000000000) in
      let max_location_error = fl.mul (fl.of_ℕ max_timing_error) c_0 in
      let (time_mean, reliability) = Series.mean reliability_length fl d.reliability_time_acc in
      let (deviation, rate1) = Series.stddev mean_history_length false fl d.mean_rate.series in
      let (rate_mean, rate2) = Series.mean mean_history_length fl rate1 in
      (
        fl.div loc_precision max_location_error,
        fl.div time_mean (fl.of_ℕ max_timing_error),
        fl.div deviation (fl.mul rate_mean (ratio 3 4)),
        record d {
          reliability_time_acc = reliability;
          mean_rate = record d.mean_rate { series = rate2 };
        },
      )

  -- 1.0 + hysteresis, and 1.0 - hysteresis
  abbrev pub upper_bound : Double
  upper_bound = fl.add (fl.of_ℕ 1) (ratio 15 100)

  abbrev pub lower_bound : Double
  lower_bound = fl.sub (fl.of_ℕ 1) (ratio 15 100)

  -- The tests of `check_reliability`, on the three measures.
  unfoldable pub judge : Double → Double → Double → Detector → World → Detector × World
  judge f_location f_time f_rate d w =
      if fl.lt upper_bound f_location
      then set_status Status.unreliable Reason.location_precision d w
      else if fl.lt upper_bound f_time
      then set_status Status.unreliable Reason.time_accuracy d w
      else if fl.lt upper_bound f_rate
      then set_status Status.unreliable Reason.rate_unstable d w
      else if fl.lt f_location lower_bound && (fl.lt f_time lower_bound && fl.lt f_rate lower_bound)
      then set_status Status.reliable Reason.miscellaneous d w
      else (d, w)

  unfoldable pub check_reliability : Detector → World → Detector × World
  check_reliability d w =
      let (f_location, f_time, f_rate, d') = measures d in judge f_location f_time f_rate d' w

  -- `process(detector_info_t)`
  unfoldable pub process_info : ℤ → Location → Detector → World → Detector × World
  process_info now location d w =
      check_reliability (record d { last_log = now; location = location }) w

  -- The second half of `step`: the rates and the factor.
  unfoldable pub step_rates : ℤ → Detector → Detector
  step_rates now d =
      let (closed, current_rate) = Rate.step fl history_length time_interval now d.current_rate in
      if not closed
      then record d { current_rate = current_rate }
      else (let (ignored, mean_rate) =
            Rate.step fl mean_history_length time_interval now d.mean_rate in
          let (current, current_series) = Series.mean history_length fl current_rate.series in
          let (mean, series1) = Series.mean mean_history_length fl mean_rate.series in
          let (deviation, series2) = Series.stddev mean_history_length false fl series1 in
          record d {
            current_rate = record current_rate { series = current_series };
            mean_rate = record mean_rate { series = series2 };
            factor =
                (if fl.lt current (fl.sub mean deviation)
                  then fl.mul (fl.add (fl.div (fl.sub mean current) deviation) (fl.of_ℕ 1))
                      (fl.of_ℕ 2)
                  else fl.of_ℕ 1);
          })

  unfoldable pub step : ℤ → Detector → World → Detector × World
  step now d w =
      let diff = now -ℤ d.last_log in
      if ltb_ℤ log_interval diff
      then (if ltb_ℤ quit_interval diff
          then set_status Status.deleted Reason.missed_log_interval d w
          else (let (d', w') = set_status Status.unreliable Reason.missed_log_interval d w in
              (step_rates now d', w')))
      else (let (d', w') = check_reliability d w in (step_rates now d', w'))
