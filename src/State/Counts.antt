-- ===== src/State/Counts.antt =====
-- What the supervisor counts.
use muondetector_cluster.Prelude.{
  ℕ, ◌≤◌, ◌≡◌, false, [], ◌∷◌, none, some, arith, if◌then◌else◌, ◌==◌, ltb, length, add_64, max,
}
use muondetector_cluster.Prelude.Assoc.{
  Map, lookup, insert, lookup-insert, lookup-erase, IsSortedFrom, insert-IsSortedFrom,
  erase-IsSortedFrom,
}
use muondetector_cluster.Status.{Status, status_eq}
use muondetector_cluster.State.{
  State, count_reliable, on_detector_status, count_at, increase_event_count,
}

-- The detectors are a map, and the counts of the log record are those of the map.
pub record IsCounted (s : State) : Type 0 where
  pub sorted : IsSortedFrom 0 s.detectors
  pub total : s.current_data.total_detectors ≡ length s.detectors
  pub reliable : s.current_data.reliable_detectors ≡ count_reliable s.detectors

pub count_reliable-le : (m : Map Status) → count_reliable m ≤ length m
unfolding count_reliable
count_reliable-le [] = omega arith
count_reliable-le ((h, d) ∷ m) = ground (arith, count_reliable-le m)

-- A status update keeps the counts of all and of reliable detectors those of the map.
pub on_detector_status-IsCounted :
    (hash : ℕ) (status : Status) (s : State)
    → IsCounted s
    → IsCounted (on_detector_status hash status s)
unfolding on_detector_status
on_detector_status-IsCounted hash status s c = ground (
  arith,
  insert-IsSortedFrom 0 hash status s.detectors,
  erase-IsSortedFrom 0 hash (insert hash status s.detectors),
)

pub on_detector_status-sorted :
    (hash : ℕ) (status : Status) (s : State)
    → IsSortedFrom 0 s.detectors
    → IsSortedFrom 0 (on_detector_status hash status s).detectors
unfolding on_detector_status
on_detector_status-sorted hash status s sorted = ground (
  arith,
  insert-IsSortedFrom 0 hash status s.detectors,
  erase-IsSortedFrom 0 hash (insert hash status s.detectors),
)

-- After a status update the detector has that status, or is gone if the status is `deleted`; every
-- other detector is as before.
pub lookup-on_detector_status :
    (hash j : ℕ) (status : Status) (s : State)
    → IsSortedFrom 0 s.detectors
    → lookup j (on_detector_status hash status s).detectors ≡ (
        if hash == j
        then (if status_eq status Status.deleted then none else some status)
        else lookup j s.detectors)
unfolding on_detector_status
lookup-on_detector_status hash j status s sorted = ground (
  arith,
  lookup-insert hash j status s.detectors,
  lookup-erase hash j 0 (insert hash status s.detectors),
  insert-IsSortedFrom 0 hash status s.detectors,
)

-- An outgoing event of `n` hits is counted at the level `n` and at no other, the maximum level
-- covers it, and it counts for the rate exactly if it is a coincidence.
pub increase_outgoing_lem :
    (n k : ℕ) (s : State)
    → let t = increase_event_count false n s in
      (count_at k t.current_data.outgoing ≡ (
        if n == k
        then add_64 (count_at k s.current_data.outgoing) 1
        else count_at k s.current_data.outgoing))
      × (t.current_data.maximum_n ≡ max s.current_data.maximum_n n)
      × (t.outgoing_rate.current_n
          ≡ (if ltb 1 n then add_64 s.outgoing_rate.current_n 1 else s.outgoing_rate.current_n))
      × (t.incoming_rate ≡ s.incoming_rate)
      × (t.current_data.incoming ≡ s.current_data.incoming)
unfolding increase_event_count
increase_outgoing_lem n k s = ground (
  arith,
  lookup-insert n k (add_64 (count_at n s.current_data.outgoing) 1) s.current_data.outgoing,
)
