-- ===== src/State/Tests.antt =====
-- Witnesses and tests for the supervisor's counts.
use muondetector_cluster.Prelude.{refl, true, false, [], ◌∷◌, ◌⊎◌, All}
use muondetector_cluster.Prelude.Int.{pos}
use muondetector_cluster.Prelude.Samples.{whole}
use muondetector_cluster.Series
use muondetector_cluster.Runner.{Runner, RunState, Place, Future, new_runner}
use muondetector_cluster.State.Threads.{Watch, Resources, watch_step}
use muondetector_cluster.State.Threads.Stop.{Continues, Fails, IsUp, SomeDown, watch_step_lem}
use muondetector_cluster.Status.{Status}
use muondetector_cluster.State.{State, on_detector_status, increase_event_count, count_at}
use muondetector_cluster.State.Samples.{fresh}
use muondetector_cluster.State.Counts.{IsCounted, on_detector_status-IsCounted}

fresh-IsCounted : IsCounted fresh
unfolding muondetector_cluster.State.count_reliable
fresh-IsCounted = record { sorted = tt; total = refl; reliable = refl }

-- Two detectors, one of them reliable.
abbrev pair : State
unfolding on_detector_status
pair = on_detector_status 3 Status.reliable (on_detector_status 7 Status.created fresh)

pair-IsCounted : IsCounted pair
unfolding pair on_detector_status
pair-IsCounted =
    on_detector_status-IsCounted 3 Status.reliable (on_detector_status 7 Status.created fresh)
      (on_detector_status-IsCounted 7 Status.created fresh fresh-IsCounted)

-- A thread that has returned 4.
abbrev ended_thread : Runner
ended_thread = record (new_runner false) {
  state = RunState.stopped;
  future = Future.ready (pos 4);
  place = Place.ended;
}

abbrev watch : Watch
watch = record {
  counts = fresh;
  process_cpu_load = Series.init 10 0;
  system_cpu_load = Series.init 10 0;
  failure = false;
  threads = new_runner false ∷ ended_thread ∷ [];
  last = pos 0;
  startup = pos 0;
  own = new_runner false;
  logs = [];
}

abbrev load : Resources
load = record { memory_usage = 1; process_cpu_load = 2; system_cpu_load = 3 }

-- The second of the two threads has ended.
watch_step_lem_example :
    let t = watch_step whole (pos 60) (pos 90) load ((true, 1) ∷ []) watch in
    (SomeDown watch.threads × Fails watch t)
    ⊎ (All IsUp watch.threads × Continues (pos 60) (pos 90) watch t)
watch_step_lem_example = watch_step_lem whole (pos 60) (pos 90) load ((true, 1) ∷ []) watch
