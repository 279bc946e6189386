-- ===== src/Detector/Messages.antt =====
-- What a detector and its supervisor send: include/messages/trigger.h and
-- include/messages/detectorsummary.h.
use muondetector_cluster.Prelude.{ℕ, Bool, List}
use muondetector_cluster.Prelude.Floats.{Double}
use muondetector_cluster.Event.{UserInfo}
use muondetector_cluster.State.{State}
use muondetector_cluster.Status.{Status, Reason}

pub record Trigger : Type 0 where
  pub hash : ℕ
  pub userinfo : UserInfo
  pub status : Status
  pub reason : Reason

-- `ublox_counter_progress` is never negative.
pub record Summary : Type 0 where
  pub hash : ℕ
  pub userinfo : UserInfo
  pub deadtime : Double
  pub active : Bool
  pub mean_eventrate : Double
  pub stddev_eventrate : Double
  pub mean_pulselength : Double
  pub ublox_counter_progress : ℕ
  pub incoming : ℕ
  pub change : ℕ
  pub mean_time_acc : Double

-- What `on_detector_status` writes to: the supervisor, the queue of detectors to delete, and the
-- sinks of summaries and triggers, each the list of what was put into it.
pub record World : Type 0 where
  pub supervisor : State
  pub delete_detectors : List ℕ
  pub summaries : List Summary
  pub triggers : List Trigger
