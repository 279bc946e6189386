-- ===== src/Detector/Timeout.antt =====
-- `detector_station::step`: what a missing log does.
use muondetector_cluster.Prelude.{◌≡◌, if◌then◌else◌, arith}
use muondetector_cluster.Prelude.Int.{ℤ, ◌-ℤ◌, ltb_ℤ}
use muondetector_cluster.Prelude.Floats.{Floats}
use muondetector_cluster.Status.{Status, Reason}
use muondetector_cluster.Detector.{
  Detector, World, set_status, measures, check_reliability, step_rates, step, log_interval,
  quit_interval,
}
use muondetector_cluster.Detector.Reliability.{verdict, check_reliability_lem, status-set_status}

module _ (fl : Floats) where
  pub step_rates_keep :
      (now : ℤ) (d : Detector)
      → let d' = step_rates fl now d in
        (d'.status ≡ d.status)
        × (d'.hash ≡ d.hash)
        × (d'.userinfo ≡ d.userinfo)
        × (d'.location ≡ d.location)
  unfolding step_rates
  step_rates_keep now d = ground arith

  -- A step deletes a detector whose last log is more than 270 s old, makes one unreliable whose
  -- last log is more than 90 s old, and judges any other by its measures.
  pub step_lem :
      (now : ℤ) (d : Detector) (w : World)
      → (step fl now d w).0.status ≡ (
          if ltb_ℤ quit_interval (now -ℤ d.last_log)
          then Status.deleted
          else if ltb_ℤ log_interval (now -ℤ d.last_log)
          then Status.unreliable
          else verdict fl (measures fl d).0 (measures fl d).1 (measures fl d).2 d.status)
  unfolding step
  step_lem now d w = ground (
    arith,
    step_rates_keep now (set_status fl Status.unreliable Reason.missed_log_interval d w).0,
    step_rates_keep now (check_reliability fl d w).0,
    check_reliability_lem fl d w,
    status-set_status fl Status.unreliable Reason.missed_log_interval d w,
    status-set_status fl Status.deleted Reason.missed_log_interval d w,
  )
