-- ===== src/Runner.antt =====
-- `thread_runner` (include/utility/threadrunner.h, src/utility/threadrunner.cpp): a thread that
-- calls `step` until it is stopped. `Place` is where the thread is in `exec` and `run`; a call of
-- `pre_run`, `step`, `custom_run` or `post_run`, which a derived class defines, ends with an
-- `Outcome`.
pub mod Reach
pub mod Progress
mod Tests
use muondetector_cluster.Prelude.{
  ℕ, Bool, true, false, ◌||◌, not, Option, none, some, Text, if◌then◌else◌, ltb, leb, ◌==◌,
}
use muondetector_cluster.Prelude.Int.{ℤ, pos, negsuc, ◌+ℤ◌}
use muondetector_cluster.Prelude.Texts.{codes}

-- `thread_runner::State`
pub data RunState : Type 0 where
  error stopped initial initialising running finalising : RunState

unfoldable pub run_state_value : RunState → ℕ
run_state_value RunState.error = 0
run_state_value RunState.stopped = 1
run_state_value RunState.initial = 2
run_state_value RunState.initialising = 3
run_state_value RunState.running = 4
run_state_value RunState.finalising = 5

unfoldable pub state_string : RunState → Text
state_string RunState.error = codes "Error"
state_string RunState.stopped = codes "Stopped"
state_string RunState.initial = codes "Initial"
state_string RunState.initialising = codes "Initialising"
state_string RunState.running = codes "Running"
state_string RunState.finalising = codes "Finalising"

-- How a call of a virtual function ends.
pub data Outcome : Type 0 where
  returned : ℤ → Outcome
  thrown : Outcome

-- Not started; before `exec`; in `pre_run`; at the test in front of `custom_run` and of each
-- `step`; in `custom_run` or `step`; in `post_run`; behind the end of `exec`.
pub data Place : Type 0 where
  unstarted entering preparing looping stepping concluding ended : Place

-- `m_run_future`
pub data Future : Type 0 where
  absent : Future
  pending : Future
  ready : ℤ → Future

pub record Runner : Type 0 where
  pub use_custom_run : Bool
  pub run : Bool
  pub quit : Bool
  pub exit_code : ℤ
  pub future : Future
  pub state : RunState
  -- Whether `m_thread` is set.
  pub thread : Bool
  pub place : Place

abbrev pub new_runner : Bool → Runner
new_runner use_custom_run = record {
  use_custom_run = use_custom_run;
  run = true;
  quit = false;
  exit_code = pos 0;
  future = Future.absent;
  state = RunState.initial;
  thread = false;
  place = Place.unstarted;
}

abbrev pub is_zero : ℤ → Bool
is_zero (pos n) = n == 0
is_zero (negsuc n) = false

-- `run` returns, the guard sets the state, and `exec` keeps the promise.
unfoldable pub leave : RunState → ℤ → Runner → Runner
leave state value r = record r { state = state; future = Future.ready value; place = Place.ended }

-- A call in `run` ends before `clean` is set: what follows if it returns 0.
unfoldable pub unless_failed : Outcome → Runner → Runner → Runner
unfolding leave
unless_failed (Outcome.returned value) next r =
    if is_zero value then next else leave RunState.error value r
unless_failed Outcome.thrown next r = leave RunState.error (negsuc 0) r

abbrev pub finalise : Runner → Runner
finalise r = record r { state = RunState.finalising; place = Place.concluding }

-- What the thread does next: `o` is the end of the call, where there is one.
unfoldable pub advance : Outcome → Runner → Runner
unfolding leave unless_failed
advance o r = elim r.place [
  | Place.unstarted ↦ r
  | Place.entering ↦ record r {
    future = Future.pending;
    state = RunState.initialising;
    place = Place.preparing;
  }
  | Place.preparing ↦
      unless_failed o (record r { state = RunState.running; place = Place.looping }) r
  | Place.looping ↦
      if r.use_custom_run || r.run then record r { place = Place.stepping } else finalise r
  | Place.stepping ↦
      unless_failed o (if r.use_custom_run then finalise r else record r { place = Place.looping })
        r
  | Place.concluding ↦ elim o [
    | Outcome.returned value ↦ leave RunState.stopped (value +ℤ r.exit_code) r
    | Outcome.thrown ↦ leave RunState.stopped (negsuc 0) r
  ]
  | Place.ended ↦ r
]

-- `stop`, from any thread
unfoldable pub stop : ℤ → Runner → Runner
stop exit_code r = record r { run = false; quit = true; exit_code = exit_code }

unfoldable pub start : Runner → Runner
unfolding run_state_value
start r =
    if ltb (run_state_value RunState.initial) (run_state_value r.state) || r.thread
    then r
    else record r { thread = true; place = Place.entering }

-- The caller's thread goes on in `exec`.
unfoldable pub start_synchronuos : Runner → Runner
unfolding run_state_value
start_synchronuos r =
    if ltb (run_state_value RunState.initial) (run_state_value r.state)
    then r
    else record r { place = Place.entering }

-- `join`; `none` while it blocks. `m_thread` is null behind it, as it may have been before.
unfoldable pub join : Runner → Option Runner
join r =
    let joined = record r { thread = false } in
    elim r.place [
      | Place.unstarted ↦ some joined
      | Place.ended ↦ some joined
      | Place.entering ↦ if r.thread then none else some joined
      | Place.preparing ↦ none
      | Place.looping ↦ none
      | Place.stepping ↦ none
      | Place.concluding ↦ none
    ]

-- `wait`; `get` leaves the future without a value.
unfoldable pub wait : Runner → Option (ℤ × Runner)
unfolding join
wait r = elim r.future [
  | Future.absent ↦ some (negsuc 0, r)
  | Future.pending ↦ none
  | Future.ready value ↦ elim (join r) [
    | none ↦ none
    | some joined ↦ some (value, record joined { future = Future.absent })
  ]
]

-- `finish`; `none` while it blocks.
unfoldable pub finish : Runner → Option Runner
unfolding stop join
finish r = join (stop (pos 0) r)
