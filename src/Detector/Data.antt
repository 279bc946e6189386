-- ===== src/Detector/Data.antt =====
-- The state of a `detector_station` and its constants (include/analysis/detectorstation.h and the
-- first lines of src/analysis/detectorstation.cpp). Times are nanoseconds.
use muondetector_cluster.Prelude.{ℕ, Bool}
use muondetector_cluster.Prelude.Int.{ℤ, pos}
use muondetector_cluster.Prelude.Floats.{Double}
use muondetector_cluster.Event.{Location, UserInfo}
use muondetector_cluster.Series.{Series}
use muondetector_cluster.Rate.{Rate}
use muondetector_cluster.Status.{Status}
use muondetector_cluster.Detector.Messages.{Summary}

pub record Detector : Type 0 where
  pub status : Status
  pub initial : Bool
  pub location : Location
  pub hash : ℕ
  pub userinfo : UserInfo
  pub last_log : ℤ
  pub current_rate : Rate
  pub mean_rate : Rate
  pub current_data : Summary
  pub last_ublox_counter : ℕ
  pub pulselength : Series
  pub time_acc : Series
  pub reliability_time_acc : Series
  pub factor : Double

-- `s_history_length`, `s_time_interval`, and the lengths of the other series.
abbrev pub history_length : ℕ
history_length = 10

abbrev pub mean_history_length : ℕ
mean_history_length = 100

abbrev pub time_interval : ℕ
time_interval = 30000

abbrev pub reliability_length : ℕ
reliability_length = 5

abbrev pub log_interval : ℤ
log_interval = pos 90000000000

abbrev pub quit_interval : ℤ
quit_interval = pos 270000000000

-- In nanoseconds.
abbrev pub max_timing_error : ℕ
max_timing_error = 1000

abbrev pub extreme_timing_error : ℕ
extreme_timing_error = 100000
