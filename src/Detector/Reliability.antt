-- ===== src/Detector/Reliability.antt =====
-- Status changes, and the hysteresis of `check_reliability`.
use muondetector_cluster.Prelude.{
  ◌≡◌, refl, ◌∙◌, ap, true, ◌&&◌, ◌||◌, [], ◌∷◌, ◌++◌, if◌then◌else◌, arith,
}
use muondetector_cluster.Prelude.Floats.{Double, Floats}
use muondetector_cluster.Status.{
  Status, Status.invalid, Status.deleted, Status.created, Status.unreliable, Status.reliable,
  Reason, status_eq,
}
use muondetector_cluster.State.{on_detector_status}
use muondetector_cluster.Detector.{
  Detector, World, current_log_data, change_log_data, notify, set_status, judge, measures,
  check_reliability, upper_bound, lower_bound,
}

pub status_eq_iff : (s t : Status) → status_eq s t ≡ true → s ≡ t
status_eq_iff invalid t h = ground arith
status_eq_iff deleted t h = ground arith
status_eq_iff created t h = ground arith
status_eq_iff unreliable t h = ground arith
status_eq_iff reliable t h = ground arith

module _ (fl : Floats) where
  -- A log takes the counters and settles the caches; it changes nothing that identifies a detector.
  pub change_log_data_keeps :
      (d : Detector)
      → let d' = (change_log_data fl d).1 in
        (d'.hash ≡ d.hash)
        × (d'.userinfo ≡ d.userinfo)
        × (d'.location ≡ d.location)
        × (d'.status ≡ d.status)
        × (d'.factor ≡ d.factor)
        × (d'.last_log ≡ d.last_log)
  unfolding change_log_data current_log_data
  change_log_data_keeps d = (refl, refl, refl, refl, refl, refl)

  -- Setting a status sets it and keeps the detector's identity. If the status was another one, one
  -- trigger with the new status and the reason is sent and the supervisor is told, and the detector
  -- is queued for deletion exactly if the new status is `deleted`; if it was the same, nothing is
  -- sent and nobody is told.
  pub set_status_lem :
      (status : Status) (reason : Reason) (d : Detector) (w : World)
      → let r = set_status fl status reason d w in
        (r.0.status ≡ status)
        × (r.0.hash ≡ d.hash)
        × (r.0.userinfo ≡ d.userinfo)
        × (r.0.location ≡ d.location)
        × (r.1.triggers ≡ (
            if status_eq d.status status
            then w.triggers
            else w.triggers
              ++ record { hash = d.hash; userinfo = d.userinfo; status = status; reason = reason }
                ∷ []))
        × (r.1.supervisor ≡ (
            if status_eq d.status status
            then w.supervisor
            else on_detector_status d.hash status w.supervisor))
        × (r.1.delete_detectors ≡ (
            if status_eq d.status status
            then w.delete_detectors
            else if status_eq status Status.deleted
            then w.delete_detectors ++ d.hash ∷ []
            else w.delete_detectors))
  unfolding set_status notify
  set_status_lem status reason d w = ground (arith, change_log_data_keeps d)

  pub status-set_status :
      (status : Status) (reason : Reason) (d : Detector) (w : World)
      → (set_status fl status reason d w).0.status ≡ status
  status-set_status status reason d w = (set_status_lem status reason d w).0

  -- The status that the three measures call for.
  abbrev pub verdict : Double → Double → Double → Status → Status
  verdict f_location f_time f_rate before =
      if fl.lt (upper_bound fl) f_location
        || fl.lt (upper_bound fl) f_time
        || fl.lt (upper_bound fl) f_rate
      then Status.unreliable
      else if fl.lt f_location (lower_bound fl)
          && fl.lt f_time (lower_bound fl)
          && fl.lt f_rate (lower_bound fl)
      then Status.reliable
      else before

  judge_lem :
      (f_location f_time f_rate : Double) (d : Detector) (w : World)
      → (judge fl f_location f_time f_rate d w).0.status ≡ verdict f_location f_time f_rate d.status
  unfolding judge
  judge_lem f_location f_time f_rate d w = ground (
    arith,
    status-set_status Status.unreliable Reason.location_precision d w,
    status-set_status Status.unreliable Reason.time_accuracy d w,
    status-set_status Status.unreliable Reason.rate_unstable d w,
    status-set_status Status.reliable Reason.miscellaneous d w,
  )

  pub measures_keep :
      (d : Detector)
      → let d' = (measures fl d).3 in
        (d'.hash ≡ d.hash)
        × (d'.userinfo ≡ d.userinfo)
        × (d'.location ≡ d.location)
        × (d'.status ≡ d.status)
  unfolding measures
  measures_keep d = (refl, refl, refl, refl)

  -- With hysteresis: a detector becomes unreliable if any of the location, time and rate measures
  -- is above 1.15, reliable if all three are below 0.85, and keeps its status otherwise.
  pub check_reliability_lem :
      (d : Detector) (w : World)
      → (check_reliability fl d w).0.status
        ≡ verdict (measures fl d).0 (measures fl d).1 (measures fl d).2 d.status
  unfolding check_reliability
  check_reliability_lem d w =
      judge_lem (measures fl d).0 (measures fl d).1 (measures fl d).2 (measures fl d).3 w
      ∙ ap (verdict (measures fl d).0 (measures fl d).1 (measures fl d).2) (measures_keep d).3
