-- ===== src/State.antt =====
-- `supervision::state` (include/supervision/state.h, src/supervision/state.cpp): the program's
-- counters and its view of the detectors, with the record of include/messages/clusterlog.h.
pub mod Counts
pub mod Threads
pub mod Samples
mod Tests
use muondetector_cluster.Prelude.{
  ℕ, zero, suc, Bool, true, false, List, [], ◌∷◌, Option, some, none, if◌then◌else◌, ltb, length,
  add_64,
}
use muondetector_cluster.Prelude.Int.{ℤ}
use muondetector_cluster.Prelude.Assoc
use muondetector_cluster.Prelude.Assoc.{Map}
use muondetector_cluster.Prelude.Floats.{Double}
use muondetector_cluster.Rate.{Rate, increase_counter}
use muondetector_cluster.Status.{Status, Status.deleted, Status.reliable, status_eq}

pub record ClusterLog : Type 0 where
  pub timeout : ℤ
  pub timebase : ℤ
  pub uptime : ℤ
  pub single_in : Double
  pub l1_out : Double
  pub incoming : ℕ
  pub outgoing : Map ℕ
  pub buffer_length : ℕ
  pub total_detectors : ℕ
  pub reliable_detectors : ℕ
  pub maximum_n : ℕ
  pub process_cpu_load : Double
  pub system_cpu_load : Double
  pub memory_usage : Double

-- Durations are milliseconds. Not kept here: what only `step` and the threads use.
pub record State : Type 0 where
  pub detectors : Map Status
  pub timeout : ℤ
  pub timebase : ℤ
  pub incoming_rate : Rate
  pub outgoing_rate : Rate
  pub current_data : ClusterLog

unfoldable pub time_status : ℤ → ℤ → State → State
time_status timebase timeout s = record s { timebase = timebase; timeout = timeout }

-- The loop that counts the reliable detectors.
unfoldable pub count_reliable : Map Status → ℕ
count_reliable [] = 0
count_reliable ((h, d) ∷ m) =
    let rest = count_reliable m in if status_eq d Status.reliable then suc rest else rest

unfoldable pub on_detector_status : ℕ → Status → State → State
on_detector_status hash status s =
    let entered = Assoc.insert hash status s.detectors in
    let detectors =
      (if status_eq status Status.deleted then Assoc.erase hash entered else entered) in
    record s {
      detectors = detectors;
      current_data = record s.current_data {
        total_detectors = length detectors;
        reliable_detectors = count_reliable detectors;
      };
    }

-- `m[k]` where it is only read: a missing entry counts 0.
abbrev pub count_at : ℕ → Map ℕ → ℕ
count_at k m = elim (Assoc.lookup k m) [ none ↦ 0 | some v ↦ v ]

-- The first branch of `increase_event_count`.
unfoldable pub increase_incoming : State → State
unfolding increase_counter
increase_incoming s = record s {
  current_data = record s.current_data { incoming = add_64 s.current_data.incoming 1 };
  incoming_rate = increase_counter s.incoming_rate;
}

-- The second branch of `increase_event_count`.
unfoldable pub increase_outgoing : ℕ → State → State
unfolding increase_counter
increase_outgoing n s = record s {
  current_data = record s.current_data {
    outgoing =
        Assoc.insert n (add_64 (count_at n s.current_data.outgoing) 1) s.current_data.outgoing;
    maximum_n = (if ltb s.current_data.maximum_n n then n else s.current_data.maximum_n);
  };
  outgoing_rate = (if ltb 1 n then increase_counter s.outgoing_rate else s.outgoing_rate);
}

unfoldable pub increase_event_count : Bool → ℕ → State → State
unfolding increase_incoming increase_outgoing
increase_event_count incoming n s = if incoming then increase_incoming s else increase_outgoing n s

unfoldable pub set_queue_size : ℕ → State → State
set_queue_size size s = record s { current_data = record s.current_data { buffer_length = size } }
