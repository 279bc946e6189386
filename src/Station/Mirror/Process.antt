-- ===== src/Station/Mirror/Process.antt =====
-- One call of `station::process()` keeps the mirror, deletions and summaries included.
use muondetector_cluster.Prelude.{ℕ, ◌≡◌, Option, some, none, Bool, if◌then◌else◌}
use muondetector_cluster.Prelude.Int.{ℤ}
use muondetector_cluster.Prelude.Floats.{Floats}
use muondetector_cluster.Prelude.Assoc.{Map, lookup, IsSortedFrom}
use muondetector_cluster.Detector.{Detector, World, step, current_log_data}
use muondetector_cluster.Station.{Station}
use muondetector_cluster.Station.Mirror.Tells.{shown}
use muondetector_cluster.Station.Mirror.Left.{newly_deleted}

-- The mirror, of a map and the surroundings.
record Agrees (m : Map Detector) (w : World) : Type 0 where
  sorted : IsSortedFrom 0 m
  named : (h : ℕ) (d : Detector) → lookup h m ≡ some d → d.hash ≡ h
  agrees : (j : ℕ) → lookup j w.supervisor.detectors ≡ shown (lookup j m)

module _ (fl : Floats) where
  -- What `process()` makes of a detector, found in the map or not: it takes its step, and is gone
  -- if that has deleted it; otherwise its counters start again if the summaries are due.
  abbrev pub left : ℤ → World → Bool → Option Detector → Option Detector
  left now w due none = none
  left now w due (some d) =
      let d' = (step fl now d w).0 in
      if newly_deleted d d' then none else some (if due then (current_log_data fl d').1 else d')
