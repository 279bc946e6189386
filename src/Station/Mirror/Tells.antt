-- ===== src/Station/Mirror/Tells.antt =====
-- Every operation of a detector tells the supervisor of its change of status, and of nothing else.
use muondetector_cluster.Prelude.{
  ℕ, ◌≡◌, refl, ◌∙◌, true, [], ◌∷◌, ◌++◌, Option, some, none, if◌then◌else◌, ◌==◌, arith, ltb,
  if-cases, ◌&&◌, Bool-cases, inl, inr,
}
use muondetector_cluster.Prelude.Int.{ℤ, ltb_ℤ, ◌-ℤ◌}
use muondetector_cluster.Prelude.Floats.{Double, Floats}
use muondetector_cluster.Prelude.Assoc.{lookup, IsSortedFrom}
use muondetector_cluster.Event.{Event, Location}
use muondetector_cluster.State.{on_detector_status}
use muondetector_cluster.State.Counts.{lookup-on_detector_status, on_detector_status-sorted}
use muondetector_cluster.Status.{Status, Reason, status_eq}
use muondetector_cluster.Detector.{
  Detector, World, set_status, count_event, process_event, measures, judge, check_reliability,
  process_info, step_rates, step, enable, log_interval, quit_interval, extreme_timing_error,
  upper_bound, lower_bound,
}
use muondetector_cluster.Detector.Reliability.{set_status_lem, measures_keep, status_eq_iff}
use muondetector_cluster.Detector.Timeout.{step_rates_keep}

-- What the supervisor should know of a detector.
abbrev pub shown : Option Detector → Option Status
shown none = none
shown (some d) = if status_eq d.status Status.deleted then none else some d.status

-- From `d` and `w` to the result the supervisor was told of the new status, if it is new, and the
-- detector was queued for deletion if it is newly deleted.
pub record Told (d : Detector) (w : World) (r : Detector × World) : Type 0 where
  pub same_hash : r.0.hash ≡ d.hash
  pub told : r.1.supervisor ≡ (
      if status_eq d.status r.0.status
      then w.supervisor
      else on_detector_status d.hash r.0.status w.supervisor)
  pub queued : r.1.delete_detectors ≡ (
      if status_eq d.status r.0.status
      then w.delete_detectors
      else if status_eq r.0.status Status.deleted
      then w.delete_detectors ++ d.hash ∷ []
      else w.delete_detectors)

status_eq_refl : (s : Status) → status_eq s s ≡ true
status_eq_refl s = ground arith

module _ (fl : Floats) where
  set_status-Told :
      (status : Status) (reason : Reason) (d : Detector) (w : World)
      → Told d w (set_status fl status reason d w)
  set_status-Told status reason d w =
      let (s, h, u, l, t, told, q) = set_status_lem fl status reason d w in
      record { same_hash = h; told = rw s told; queued = rw s q }

  -- What a detector's status and hash are like, with nothing sent.
  unchanged-Told :
      (d d' : Detector) (w : World) → d'.hash ≡ d.hash → d'.status ≡ d.status → Told d w (d', w)
  unchanged-Told d d' w h s = record {
    same_hash = h;
    told = ground (arith, status_eq_refl d.status);
    queued = ground (arith, status_eq_refl d.status);
  }

  -- A detector with the same hash and status may stand for another, before and after.
  before-Told :
      (d e : Detector) (w : World) (r : Detector × World)
      → e.hash ≡ d.hash
      → e.status ≡ d.status
      → Told e w r
      → Told d w r
  before-Told d e w r h s t = record {
    same_hash = t.same_hash ∙ h;
    told = ground (arith, t.told);
    queued = ground (arith, t.queued);
  }

  after-Told :
      (d e : Detector) (w : World) (r : Detector × World)
      → e.hash ≡ r.0.hash
      → e.status ≡ r.0.status
      → Told d w r
      → Told d w (e, r.1)
  after-Told d e w r h s t = record {
    same_hash = h ∙ t.same_hash;
    told = ground (arith, t.told);
    queued = ground (arith, t.queued);
  }

  count_event_keeps :
      (e : Event) (d : Detector)
      → ((count_event fl e d).hash ≡ d.hash) × ((count_event fl e d).status ≡ d.status)
  unfolding count_event
  count_event_keeps e d = (refl, refl)

  pub process_event-Told :
      (e : Event) (d : Detector) (w : World)
      → Told d w ((process_event fl e d w).1, (process_event fl e d w).2)
  unfolding process_event
  process_event-Told e d w =
      let counted = count_event fl e d in
      let (h, s) = count_event_keeps e d in
      if-cases (λ r. Told d w (r.0, r.1)) (ltb extreme_timing_error e.head.time_acc)
        (set_status fl Status.unreliable Reason.time_accuracy_extreme counted w) (counted, w)
        (λ b.
          before-Told d counted w _ h s
            (set_status-Told Status.unreliable Reason.time_accuracy_extreme counted w))
        (λ b. unchanged-Told d counted w h s)

  judge-Told : (a b c : Double) (d : Detector) (w : World) → Told d w (judge fl a b c d w)
  unfolding judge
  judge-Told a b c d w =
      if-cases (Told d w) (fl.lt (upper_bound fl) a) _ _
        (λ h. set_status-Told Status.unreliable Reason.location_precision d w)
        (λ h.
          if-cases (Told d w) (fl.lt (upper_bound fl) b) _ _
            (λ h. set_status-Told Status.unreliable Reason.time_accuracy d w)
            (λ h.
              if-cases (Told d w) (fl.lt (upper_bound fl) c) _ _
                (λ h. set_status-Told Status.unreliable Reason.rate_unstable d w)
                (λ h.
                  if-cases (Told d w)
                    (fl.lt a (lower_bound fl)
                      && (fl.lt b (lower_bound fl) && fl.lt c (lower_bound fl)))
                    _ _ (λ h. set_status-Told Status.reliable Reason.miscellaneous d w)
                    (λ h. unchanged-Told d d w refl refl))))

  check_reliability-Told : (d : Detector) (w : World) → Told d w (check_reliability fl d w)
  unfolding check_reliability
  check_reliability-Told d w =
      let (h, u, l, s) = measures_keep fl d in
      before-Told d (measures fl d).3 w _ h s
        (judge-Told (measures fl d).0 (measures fl d).1 (measures fl d).2 (measures fl d).3 w)

  pub process_info-Told :
      (now : ℤ) (l : Location) (d : Detector) (w : World) → Told d w (process_info fl now l d w)
  unfolding process_info
  process_info-Told now l d w =
      let e = record d { last_log = now; location = l } in
      before-Told d e w _ refl refl (check_reliability-Told e w)

  pub enable-Told : (d : Detector) (w : World) → Told d w (enable fl d w)
  unfolding enable
  enable-Told d w = set_status-Told Status.created Reason.miscellaneous d w

  rates-Told :
      (now : ℤ) (d : Detector) (w : World) (r : Detector × World)
      → Told d w r
      → Told d w (step_rates fl now r.0, r.1)
  rates-Told now d w r t =
      let (s, h, u, l) = step_rates_keep fl now r.0 in
      after-Told d (step_rates fl now r.0) w r h s t

  pub step-Told : (now : ℤ) (d : Detector) (w : World) → Told d w (step fl now d w)
  unfolding step
  step-Told now d w =
      if-cases (Told d w) (ltb_ℤ log_interval (now -ℤ d.last_log)) _ _
        (λ h.
          if-cases (Told d w) (ltb_ℤ quit_interval (now -ℤ d.last_log)) _ _
            (λ h. set_status-Told Status.deleted Reason.missed_log_interval d w)
            (λ h.
              rates-Told now d w _
                (set_status-Told Status.unreliable Reason.missed_log_interval d w)))
        (λ h. rates-Told now d w _ (check_reliability-Told d w))

-- After a detector's operation the supervisor shows its status, and of others what it showed.
pub lookup-Told :
    (j : ℕ) (d : Detector) (w : World) (r : Detector × World)
    → IsSortedFrom 0 w.supervisor.detectors
    → Told d w r
    → (status_eq d.status r.0.status ≡ true → lookup d.hash w.supervisor.detectors ≡ shown (some d))
    → lookup j r.1.supervisor.detectors
      ≡ (if d.hash == j then shown (some r.0) else lookup j w.supervisor.detectors)
lookup-Told j d w r sorted t known = elim (Bool-cases (status_eq d.status r.0.status)) [
  | inl same ↦
      let quiet : r.1.supervisor ≡ w.supervisor = t.told ∙ rw same refl in
      let equal : d.status ≡ r.0.status = status_eq_iff d.status r.0.status same in
      rw quiet (ground (arith, known same, equal))
  | inr new ↦
      let loud : r.1.supervisor ≡ on_detector_status d.hash r.0.status w.supervisor =
        t.told ∙ rw new refl in
      rw (loud, lookup-on_detector_status d.hash j r.0.status w.supervisor sorted) refl
]

pub Told-sorted :
    (d : Detector) (w : World) (r : Detector × World)
    → IsSortedFrom 0 w.supervisor.detectors
    → Told d w r
    → IsSortedFrom 0 r.1.supervisor.detectors
Told-sorted d w r sorted t = elim (Bool-cases (status_eq d.status r.0.status)) [
  | inl same ↦ let quiet : r.1.supervisor ≡ w.supervisor = t.told ∙ rw same refl in rw quiet sorted
  | inr new ↦
      let loud : r.1.supervisor ≡ on_detector_status d.hash r.0.status w.supervisor =
        t.told ∙ rw new refl in
      rw loud (on_detector_status-sorted d.hash r.0.status w.supervisor sorted)
]
