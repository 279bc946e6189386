-- ===== src/Station/Forward.antt =====
-- Which events `station::get(event_t)` sends on.
use muondetector_cluster.Prelude.{
  ◌≡◌, ◌&&◌, List, [], ◌∷◌, none, some, if◌then◌else◌, ◌==◌, arith, ltb, leb, Option-cases, inl,
  inr,
}
use muondetector_cluster.Prelude.Floats.{Floats}
use muondetector_cluster.Prelude.Assoc.{lookup}
use muondetector_cluster.Event.{Event}
use muondetector_cluster.Status.{Status, Reason, status_eq}
use muondetector_cluster.Detector.{
  Detector, World, count_event, process_event, max_timing_error, extreme_timing_error,
}
use muondetector_cluster.Detector.Reliability.{set_status_lem}
use muondetector_cluster.Station.{Station, get_event, forward}

-- The event that is sent on, with the location and the user of its detector.
abbrev pub signed : Event → Detector → Event
signed e d = record e { head = record e.head { location = d.location; userinfo = d.userinfo } }

-- The events that should be sent on: those of a known and reliable detector, with a time accuracy
-- of at most 1000 ns and a fix.
abbrev pub expected : Event → Station → List Event
expected e s = elim (lookup e.head.hash s.detectors) [
  | none ↦ []
  | some d ↦
      if leb e.head.time_acc max_timing_error
        && e.head.fix == 1
        && status_eq d.status Status.reliable
      then signed e d ∷ []
      else []
]

module _ (fl : Floats) where
  -- The event's detector keeps its location and its user; it keeps its status unless the event's
  -- time accuracy is extreme.
  pub process_event_keeps :
      (e : Event) (d : Detector) (w : World)
      → let r = process_event fl e d w in
        (r.0 ≡ (leb e.head.time_acc max_timing_error && e.head.fix == 1))
        × (r.1.location ≡ d.location)
        × (r.1.userinfo ≡ d.userinfo)
        × (r.1.status
            ≡ (if ltb extreme_timing_error e.head.time_acc then Status.unreliable else d.status))
  unfolding process_event count_event
  process_event_keeps e d w = ground (
    arith,
    set_status_lem fl Status.unreliable Reason.time_accuracy_extreme (count_event fl e d) w,
  )

  sent :
      (e : Event) (d : Detector) (w : World)
      → (if (process_event fl e d w).0 then forward fl e (process_event fl e d w).1 else []) ≡ (
          if leb e.head.time_acc max_timing_error
            && e.head.fix == 1
            && status_eq d.status Status.reliable
          then signed e d ∷ []
          else [])
  unfolding forward
  sent e d w = ground (arith, process_event_keeps e d w)

  -- Putting an event sends it on, signed with its detector's location and user, exactly if its
  -- detector is known and was reliable before, the time accuracy is at most 1000 ns and the
  -- receiver had a fix; otherwise it sends nothing.
  pub get_event-expected : (e : Event) (s : Station) → (get_event fl e s).1 ≡ expected e s
  unfolding get_event forward
  get_event-expected e s = elim (Option-cases (lookup e.head.hash s.detectors)) [
    | inl missing ↦ ground (arith, missing)
    | inr (d, found) ↦ ground (arith, found, sent e d s.world)
  ]
