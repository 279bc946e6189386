-- ===== src/Station/Mirror/Left.antt =====
-- Which detectors `station::process()` leaves, and what becomes of them.
use muondetector_cluster.Prelude.{
  ℕ, suc, ◌≡◌, refl, ◌∙◌, Bool, false, ◌||◌, ◌&&◌, not, List, [], ◌∷◌, ◌++◌, Option, some, none,
  if◌then◌else◌, ◌==◌, any, arith,
}
use muondetector_cluster.Prelude.Int.{ℤ}
use muondetector_cluster.Prelude.Floats.{Double, Floats}
use muondetector_cluster.Prelude.Assoc.{
  Map, lookup, erase, IsSortedFrom, lookup_below, lookup-erase, erase-IsSortedFrom,
}
use muondetector_cluster.Status.{Status, Reason, status_eq}
use muondetector_cluster.Detector.{
  Detector, World, set_status, notify, judge, check_reliability, step, current_log_data,
}
use muondetector_cluster.Station.{step_all, delete_all, summarise_all}
use muondetector_cluster.Station.Mirror.Tells.{step-Told}
use muondetector_cluster.Station.Mirror.Loops.{Keyed}

abbrev pub queued : ℕ → List ℕ → Bool
queued h qs = any (λ q. q == h) qs

queued-append : (h k : ℕ) (qs : List ℕ) → queued h (qs ++ k ∷ []) ≡ (queued h qs || k == h)
queued-append h k [] = ground arith
queued-append h k (q ∷ qs) = ground (arith, queued-append h k qs)

-- A status that was another one is now `deleted`.
abbrev pub newly_deleted : Detector → Detector → Bool
newly_deleted d d' = not (status_eq d.status d'.status) && status_eq d'.status Status.deleted

-- Erasing removes what is queued, and nothing else.
pub lookup-delete_all :
    (h : ℕ) (qs : List ℕ) (m : Map Detector)
    → IsSortedFrom 0 m
    → lookup h (delete_all qs m) ≡ (if queued h qs then none else lookup h m)
unfolding delete_all
lookup-delete_all h [] m s = refl
lookup-delete_all h (q ∷ qs) m s =
    lookup-delete_all h qs (erase q m) (erase-IsSortedFrom 0 q m s)
    ∙ ground (arith, lookup-erase q h 0 m s)

module _ (fl : Floats) where
  -- What becomes of a detector does not depend on the queues and the supervisor.
  set_status_alone :
      (status : Status) (reason : Reason) (d : Detector) (w w' : World)
      → (set_status fl status reason d w).0 ≡ (set_status fl status reason d w').0
  unfolding set_status notify
  set_status_alone status reason d w w' = ground arith

  judge_alone :
      (a b c : Double) (d : Detector) (w w' : World)
      → (judge fl a b c d w).0 ≡ (judge fl a b c d w').0
  unfolding judge
  judge_alone a b c d w w' = ground (
    arith,
    set_status_alone Status.unreliable Reason.location_precision d w w',
    set_status_alone Status.unreliable Reason.time_accuracy d w w',
    set_status_alone Status.unreliable Reason.rate_unstable d w w',
    set_status_alone Status.reliable Reason.miscellaneous d w w',
  )

  check_reliability_alone :
      (d : Detector) (w w' : World) → (check_reliability fl d w).0 ≡ (check_reliability fl d w').0
  unfolding check_reliability
  check_reliability_alone d w w' = judge_alone _ _ _ _ w w'

  step_alone : (now : ℤ) (d : Detector) (w w' : World) → (step fl now d w).0 ≡ (step fl now d w').0
  unfolding step
  step_alone now d w w' = ground (
    arith,
    set_status_alone Status.deleted Reason.missed_log_interval d w w',
    set_status_alone Status.unreliable Reason.missed_log_interval d w w',
    check_reliability_alone d w w',
  )

  module _ (now : ℤ) (w0 : World) where
    abbrev pub stepped : Option Detector → Option Detector
    stepped none = none
    stepped (some d) = some (step fl now d w0).0

    pub lookup-step_all :
        (h : ℕ) (largest : Double) (m : Map Detector) (w : World)
        → lookup h (step_all fl now largest m w).1 ≡ stepped (lookup h m)
    unfolding step_all lookup
    lookup-step_all h largest [] w = refl
    lookup-step_all h largest ((k, d) ∷ m) w =
        let (d', w') = step fl now d w in
        let raised =
          if status_eq d'.status Status.reliable && fl.lt largest d'.factor
          then d'.factor
          else largest in
        ground (arith, lookup-step_all h raised m w', step_alone now d w w0)

    abbrev leaves : Option Detector → Bool
    leaves none = false
    leaves (some d) = newly_deleted d (step fl now d w0).0

    queued-step :
        (h : ℕ) (d : Detector) (w : World)
        → queued h (step fl now d w).1.delete_detectors
          ≡ (queued h w.delete_detectors || (d.hash == h && leaves (some d)))
    queued-step h d w = ground (
      arith,
      (step-Told fl now d w).queued,
      queued-append h d.hash w.delete_detectors,
      step_alone now d w w0,
    )

    -- Queued is what was queued before, and each detector that is newly deleted.
    pub queued-step_all :
        (h n : ℕ) (largest : Double) (m : Map Detector) (w : World)
        → IsSortedFrom n m
        → Keyed m
        → queued h (step_all fl now largest m w).2.delete_detectors
          ≡ (queued h w.delete_detectors || leaves (lookup h m))
    unfolding step_all lookup
    queued-step_all h n largest [] w s k = ground arith
    queued-step_all h n largest ((q, d) ∷ m) w s k =
        let (d', w') = step fl now d w in
        let raised =
          if status_eq d'.status Status.reliable && fl.lt largest d'.factor
          then d'.factor
          else largest in
        queued-step_all h (suc q) raised m w' s.1 k.1
        ∙ ground (arith, queued-step h d w, k.0, lookup_below h (suc q) m)

  abbrev pub summarised : Option Detector → Option Detector
  summarised none = none
  summarised (some d) = some (current_log_data fl d).1

  pub lookup-summarise_all :
      (h : ℕ) (m : Map Detector) → lookup h (summarise_all fl m).0 ≡ summarised (lookup h m)
  unfolding summarise_all lookup
  lookup-summarise_all h [] = refl
  lookup-summarise_all h ((k, d) ∷ m) = ground (arith, lookup-summarise_all h m)
