-- ===== src/Detector/Samples.antt =====
-- A concrete detector and its surroundings, for the tests.
use muondetector_cluster.Prelude.{ℕ, true, []}
use muondetector_cluster.Prelude.Int.{pos}
use muondetector_cluster.Event.Samples.{nowhere, nobody}
use muondetector_cluster.Rate.{Rate}
use muondetector_cluster.Series
use muondetector_cluster.Status.{Status}
use muondetector_cluster.State.Samples.{fresh}
use muondetector_cluster.Detector.{
  Detector, World, Summary, history_length, mean_history_length, reliability_length,
}

abbrev pub nothing_counted : Summary
nothing_counted = record {
  hash = 0;
  userinfo = nobody;
  deadtime = 0;
  active = true;
  mean_eventrate = 0;
  stddev_eventrate = 0;
  mean_pulselength = 0;
  ublox_counter_progress = 0;
  incoming = 0;
  change = 0;
  mean_time_acc = 0;
}

abbrev pub idle_rate : ℕ → Rate
idle_rate size = record { series = Series.init size 0; current_n = 0; last = pos 0 }

-- The detector `k`, with a last log at the clock's time 0.
abbrev pub detector : ℕ → Status → Detector
detector k status = record {
  status = status;
  initial = true;
  location = nowhere;
  hash = k;
  userinfo = nobody;
  last_log = pos 0;
  current_rate = idle_rate history_length;
  mean_rate = idle_rate mean_history_length;
  current_data = nothing_counted;
  last_ublox_counter = 0;
  pulselength = Series.init mean_history_length 0;
  time_acc = Series.init mean_history_length 0;
  reliability_time_acc = Series.init reliability_length 0;
  factor = 1;
}

abbrev pub quiet : World
quiet = record { supervisor = fresh; delete_detectors = []; summaries = []; triggers = [] }
