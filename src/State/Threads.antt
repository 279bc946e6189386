-- ===== src/State/Threads.antt =====
-- The thread of `supervision::state` (src/supervision/state.cpp): it watches the other threads, and
-- sends the counters on. The clock, the load of the process and the configured interval are
-- arguments, and so is the arithmetic of `float`.
pub mod Stop
use muondetector_cluster.Prelude.{
  ℕ, Bool, true, false, ◌||◌, List, [], ◌∷◌, ◌++◌, Option, none, some, if◌then◌else◌, leb,
}
use muondetector_cluster.Prelude.Int.{ℤ, pos, negsuc, ◌+ℤ◌, ◌-ℤ◌, quot_ℤ, ltb_ℤ}
use muondetector_cluster.Prelude.Floats.{Double, Floats}
use muondetector_cluster.Series
use muondetector_cluster.Series.{Series}
use muondetector_cluster.Rate
use muondetector_cluster.Runner.{Runner, run_state_value, RunState, stop, wait}
use muondetector_cluster.State.{State, ClusterLog, increase_event_count}

-- `resource::data_t`
pub record Resources : Type 0 where
  pub memory_usage : Double
  pub process_cpu_load : Double
  pub system_cpu_load : Double

-- The rest of `supervision::state`: `own` is its base class, `logs` what was put into its sink.
pub record Watch : Type 0 where
  pub counts : State
  pub process_cpu_load : Series
  pub system_cpu_load : Series
  pub failure : Bool
  pub threads : List Runner
  pub last : ℤ
  pub startup : ℤ
  pub own : Runner
  pub logs : List ClusterLog

unfoldable pub add_thread : Runner → Watch → Watch
add_thread thread w = record w { threads = w.threads ++ thread ∷ [] }

-- `state() <= Stopped` for one of the threads.
unfoldable pub any_over : List Runner → Bool
unfolding run_state_value
any_over [] = false
any_over (r ∷ rs) = leb (run_state_value r.state) (run_state_value RunState.stopped) || any_over rs

-- Calls of `increase_event_count` from other threads, which take no lock.
unfoldable pub count_all : List (Bool × ℕ) → State → State
count_all [] s = s
count_all ((incoming, n) ∷ calls) s = count_all calls (increase_event_count incoming n s)

-- The log that is put when its interval is over; the counters start again. The calls `between` come
-- behind the one and before the other.
unfoldable pub put_log : ℤ → ℤ → List (Bool × ℕ) → Watch → Watch
unfolding count_all
put_log interval now between w =
    if ltb_ℤ (now -ℤ w.last) interval
    then w
    else (let counts = count_all between w.counts in
        record w {
          last = now;
          logs = w.logs ++ w.counts.current_data ∷ [];
          counts = record counts {
            current_data = record counts.current_data { incoming = 0; outgoing = [] };
          };
        })

module _ (fl : Floats) where
  -- The load is smoothed over ten values.
  unfoldable pub track : Resources → Watch → Watch
  track load w =
      let (process, process_load) =
        Series.mean 10 fl (Series.add 10 load.process_cpu_load w.process_cpu_load) in
      let (system, system_load) =
        Series.mean 10 fl (Series.add 10 load.system_cpu_load w.system_cpu_load) in
      record w {
        process_cpu_load = process_load;
        system_cpu_load = system_load;
        counts = record w.counts {
          current_data = record w.counts.current_data {
            memory_usage = load.memory_usage;
            process_cpu_load = process;
            system_cpu_load = system;
          };
        };
      }

  -- The rates, once the interval of the outgoing rate is over.
  unfoldable pub update_rates : ℤ → Watch → Watch
  update_rates now w =
      let (over, outgoing) = Rate.step fl 100 5000 now w.counts.outgoing_rate in
      let incoming = (Rate.step fl 100 5000 now w.counts.incoming_rate).1 in
      let (single_in, in_series) = Series.mean 100 fl incoming.series in
      let (l1_out, out_series) = Series.mean 100 fl outgoing.series in
      if over
      then record w {
        counts = record w.counts {
          incoming_rate = record incoming { series = in_series };
          outgoing_rate = record outgoing { series = out_series };
          current_data = record w.counts.current_data {
            timeout = w.counts.timeout;
            timebase = w.counts.timebase;
            uptime = quot_ℤ (now -ℤ w.startup) 60000000000;
            single_in = single_in;
            l1_out = l1_out;
          };
        };
      }
      else record w { counts = record w.counts { outgoing_rate = outgoing } }

  -- `step`, which always returns 0; `between` is what other threads count while the log is put.
  unfoldable pub watch_step : ℤ → ℤ → Resources → List (Bool × ℕ) → Watch → Watch
  unfolding any_over track put_log update_rates
  watch_step interval now load between w =
      if any_over w.threads
      then record w { failure = true; own = stop (pos 0) w.own }
      else update_rates now (put_log interval now between (track load w))

unfoldable pub stop_all : List Runner → List Runner
stop_all [] = []
stop_all (r ∷ rs) = stop (pos 0) r ∷ stop_all rs

-- The sum of what the threads return; `none` while one of them does not.
unfoldable pub wait_all : List Runner → Option (ℤ × List Runner)
wait_all [] = some (pos 0, [])
wait_all (r ∷ rs) = elim (wait r) [
  | none ↦ none
  | some (value, joined) ↦ elim (wait_all rs) [
    | none ↦ none
    | some (total, others) ↦ some (value +ℤ total, joined ∷ others)
  ]
]

unfoldable pub post_run : Watch → Option (ℤ × Watch)
unfolding stop_all wait_all
post_run w = elim (wait_all (stop_all w.threads)) [
  | none ↦ none
  | some (total, threads) ↦
      some (if w.failure then negsuc 0 else total, record w { threads = threads })
]
