-- ===== src/Station/Mirror.antt =====
-- The supervisor's map of detectors mirrors the station's.
pub mod Tells
pub mod Loops
pub mod Left
pub mod Process
use muondetector_cluster.Prelude.{
  ℕ, suc, ◌≡◌, refl, sym, ◌∙◌, ap, Bool, true, false, List, [], ◌∷◌, ◌++◌, Option, some, none,
  if◌then◌else◌, ◌==◌, arith, Option-cases, inl, inr, subst, ◌<◌,
}
use muondetector_cluster.Prelude.Int.{ℤ}
use muondetector_cluster.Prelude.Floats.{Double, Floats}
use muondetector_cluster.Prelude.Assoc.{
  Map, lookup, insert, IsSortedFrom, lookup-insert, insert-IsSortedFrom,
}
use muondetector_cluster.Event.{Event, Location}
use muondetector_cluster.Detector.{Detector, World, process_event, process_info, enable}
use muondetector_cluster.Status.{Status, Reason, status_eq}
use muondetector_cluster.Detector.Reliability.{set_status_lem, check_reliability_lem, status_eq_iff}
use muondetector_cluster.Station.Forward.{process_event_keeps}
use muondetector_cluster.Station.{Station, DetectorInfo, get_event, process_info_message, create}
use Tells.{
  shown, Told, lookup-Told, process_event-Told, process_info-Told, enable-Told, Told-sorted,
}

-- Every detector stands under its own hash, and the supervisor shows of each hash the status of
-- the station's detector, if there is one that is not deleted; none is queued for deletion.
pub record Mirrors (s : Station) : Type 0 where
  pub sorted : IsSortedFrom 0 s.detectors
  pub shown_sorted : IsSortedFrom 0 s.world.supervisor.detectors
  pub named : (h : ℕ) (d : Detector) → lookup h s.detectors ≡ some d → d.hash ≡ h
  pub agrees : (j : ℕ) → lookup j s.world.supervisor.detectors ≡ shown (lookup j s.detectors)
  pub idle : s.world.delete_detectors ≡ []

-- A detector's operation on `d` under the key `h`, of which the result is stored under `h`.
store-Mirrors :
    (h : ℕ) (d : Detector) (s : Station) (r : Detector × World)
    → Mirrors s
    → d.hash ≡ h
    → Told d s.world r
    → (status_eq d.status r.0.status ≡ true → lookup h s.detectors ≡ some d)
    → (r.0.status ≡ Status.deleted → d.status ≡ Status.deleted)
    → Mirrors (record s { detectors = insert h r.0 s.detectors; world = r.1 })
store-Mirrors h d s r m key t known calm = record {
  sorted = insert-IsSortedFrom 0 h r.0 s.detectors (omega arith) m.sorted;
  shown_sorted = Told-sorted d s.world r m.shown_sorted t;
  named =
      λ k e found. ground (arith, lookup-insert h k r.0 s.detectors, m.named k e, t.same_hash, key);
  agrees = λ j.
      lookup-Told j d s.world r m.shown_sorted t (λ same.
        subst (λ k. lookup k s.world.supervisor.detectors ≡ shown (some d)) (sym key)
          (m.agrees h ∙ ap (λ o. shown o) (known same)))
      ∙ ground (arith, lookup-insert h j r.0 s.detectors, m.agrees j, key);
  idle = ground (arith, t.queued, m.idle, calm, status_eq_iff r.0.status Status.deleted);
}

module _ (fl : Floats) where
  named_new : (now : ℤ) (info : DetectorInfo) → (create fl now info).hash ≡ info.hash
  unfolding create
  named_new now info = refl

  -- A new detector's status changes when it is enabled.
  enabled_new :
      (now : ℤ) (info : DetectorInfo) (s : Station)
      → status_eq (create fl now info).status (enable fl (create fl now info) s.world).0.status
        ≡ false
  unfolding create enable
  enabled_new now info s =
      rw (set_status_lem fl Status.created Reason.miscellaneous (create fl now info) s.world).0 refl

  created_new :
      (now : ℤ) (info : DetectorInfo) (s : Station)
      → (enable fl (create fl now info) s.world).0.status ≡ Status.created
  unfolding enable
  created_new now info s =
      (set_status_lem fl Status.created Reason.miscellaneous (create fl now info) s.world).0

  -- An information message deletes no detector.
  process_info_calm :
      (now : ℤ) (l : Location) (d : Detector) (w : World)
      → (process_info fl now l d w).0.status ≡ Status.deleted
      → d.status ≡ Status.deleted
  unfolding process_info
  process_info_calm now l d w gone =
      ground (arith, gone, check_reliability_lem fl (record d { last_log = now; location = l }) w)

  -- Putting an event keeps the mirror: afterwards the supervisor still shows of each hash the
  -- status of the station's detector, if there is one that is not deleted.
  pub get_event-Mirrors : (e : Event) (s : Station) → Mirrors s → Mirrors (get_event fl e s).0
  get_event-Mirrors e s m = elim (Option-cases (lookup e.head.hash s.detectors)) [
    | inl missing ↦ subst Mirrors (sym (unknown missing)) m
    | inr (d, found) ↦ subst Mirrors (sym (known d found)) (
        store-Mirrors e.head.hash d s
          ((process_event fl e d s.world).1, (process_event fl e d s.world).2) m
          (m.named e.head.hash d found) (process_event-Told fl e d s.world) (λ same. found)
          (λ gone. ground (arith, gone, process_event_keeps fl e d s.world)))
  ]
    where
      unknown : lookup e.head.hash s.detectors ≡ none → (get_event fl e s).0 ≡ s
      unknown missing = unfold get_event in ground (arith, missing)

      known :
          (d : Detector)
          → lookup e.head.hash s.detectors ≡ some d
          → (get_event fl e s).0 ≡ record s {
            detectors = insert e.head.hash (process_event fl e d s.world).1 s.detectors;
            world = (process_event fl e d s.world).2;
          }
      known d found = unfold get_event in ground (arith, found)

  -- Putting a detector's information message keeps the mirror, for a detector that is new and for
  -- one that is known.
  pub process_info_message-Mirrors :
      (now : ℤ) (info : DetectorInfo) (s : Station)
      → Mirrors s
      → Mirrors (process_info_message fl now info s)
  process_info_message-Mirrors now info s m = elim (Option-cases (lookup info.hash s.detectors)) [
    | inl missing ↦
        let new = create fl now info in
        subst Mirrors (sym (unknown missing)) (
          store-Mirrors info.hash new s (enable fl new s.world) m (named_new now info)
            (enable-Told fl new s.world) (λ same. ground (arith, same, enabled_new now info s))
            (λ gone. ground (arith, gone, created_new now info s)))
    | inr (d, found) ↦ subst Mirrors (sym (known d found)) (
        store-Mirrors info.hash d s (process_info fl now info.location d s.world) m
          (m.named info.hash d found) (process_info-Told fl now info.location d s.world)
          (λ same. found) (process_info_calm now info.location d s.world))
  ]
    where
      unknown :
          lookup info.hash s.detectors ≡ none
          → process_info_message fl now info s ≡ record s {
            detectors = insert info.hash (enable fl (create fl now info) s.world).0 s.detectors;
            world = (enable fl (create fl now info) s.world).1;
          }
      unknown missing = unfold process_info_message in ground (arith, missing)

      known :
          (d : Detector)
          → lookup info.hash s.detectors ≡ some d
          → process_info_message fl now info s ≡ record s {
            detectors =
                insert info.hash (process_info fl now info.location d s.world).0 s.detectors;
            world = (process_info fl now info.location d s.world).1;
          }
      known d found = unfold process_info_message in ground (arith, found)
