-- ===== src/Filter.antt =====
-- `coincidence_filter`: include/analysis/coincidencefilter.h, src/analysis/coincidencefilter.cpp.
-- The event sink is the list of the events put into it; the supervisor's state is carried along.
-- `none` is undefined behaviour: an access of the vector outside its range.
pub mod Overlap
pub mod Matches
pub mod Joins
pub mod Conserve
pub mod Stations
pub mod Spans
pub mod Contest
pub mod Timeouts
mod Tests
use muondetector_cluster.Prelude.{
  ℕ, zero, suc, ◌+◌, Bool, true, false, List, [], ◌∷◌, ◌++◌, Option, some, none, ◌>>=◌,
  if◌then◌else◌, ◌==◌, ltb, length, any, get_elem?, set, erase_idx,
}
use muondetector_cluster.Prelude.Int.{ℤ, pos, ◌*ℤ◌, quot_ℤ}
use muondetector_cluster.Prelude.Floats.{Double, Floats}
use muondetector_cluster.Event.{Event, EventData, n, emplace}
use muondetector_cluster.Coincidence.{is_coincident}
use muondetector_cluster.Constructor.{Constructor, set_timeout, timed_out}
use muondetector_cluster.State.{State, increase_event_count, set_queue_size, time_status}
use muondetector_cluster.Rate.{ns_per_ms}

-- `timeout` is in nanoseconds.
pub record Filter : Type 0 where
  pub constructors : List Constructor
  pub timeout : ℤ
  pub supervisor : State

-- `timebase_t`; `base` is in nanoseconds.
pub record Timebase : Type 0 where
  pub factor : Double
  pub base : ℤ

-- `get(timebase_t)`
unfoldable pub get_timebase : Floats → Timebase → Filter → Filter
get_timebase fl tb f =
    let base_ms = quot_ℤ tb.base ns_per_ms in
    let timeout = fl.to_ℤ (fl.mul (fl.of_ℤ base_ms) tb.factor) *ℤ pos ns_per_ms in
    record f {
      timeout = timeout;
      supervisor = time_status base_ms (quot_ℤ timeout ns_per_ms) f.supervisor;
    }

-- The lambda `check_e_hash` of `process(event_t)`.
unfoldable pub check_hash : EventData → Event → Bool
check_hash d e = if ltb (n e) 2 then d.hash == e.head.hash else any (λ x. x.hash == d.hash) e.events

-- Whether the constructor's event `c` already has a hit of a station of the event `e`.
unfoldable pub skips : Event → Event → Bool
unfolding check_hash
skips c e =
    if ltb 1 (n c)
    then any (λ d. check_hash d e) c.events
    else if ltb 1 (n e)
    then any (λ d. check_hash d c) e.events
    else c.head.hash == e.head.hash

-- The loop that collects `matches`, from index `i` on.
unfoldable pub matches : ℕ → List Constructor → Event → List ℕ
unfolding skips
matches i [] e = []
matches i (c ∷ cs) e =
    let rest = matches (i + 1) cs e in
    if skips c.event e then rest else if is_coincident e c.event then i ∷ rest else rest

-- A constructor with a lone event becomes a coincidence of one hit.
unfoldable pub promote : Event → Event
promote c =
    if ltb (n c) 2 then emplace (record c { head = record c.head { end = c.head.start } }) c else c

unfoldable pub join : Event → Constructor → Constructor
unfolding promote
join e c = record c { event = emplace (promote c.event) e }

-- The event is added to the constructor at an index.
unfoldable pub join_at : Event → ℕ → List Constructor → Option (List Constructor)
unfolding join
join_at e i cs = do c ← get_elem? cs i; some (set cs i (join e c))

-- The body of the loop over contesting constructors: the constructor at `i` is added to the one
-- at `m`, and erased.
unfoldable pub absorb : ℕ → ℕ → List Constructor → Option (List Constructor)
absorb m i cs = do
  other ← get_elem? cs i
  c ← get_elem? cs m
  some (erase_idx (set cs m (record c { event = emplace c.event other.event })) i)

-- `while (!matches.empty())`
unfoldable pub absorb_all : ℕ → List ℕ → List Constructor → Option (List Constructor)
unfolding absorb
absorb_all m [] cs = some cs
absorb_all m (i ∷ is) cs = do cs' ← absorb m i cs; absorb_all m is cs'

-- What `process(event_t)` does with the queue of matches; `now` is the time at which a new
-- constructor is made.
unfoldable pub dispatch : ℤ → ℤ → Event → List ℕ → List Constructor → Option (List Constructor)
unfolding join_at absorb_all
dispatch now timeout e [] cs =
    some (cs ++ record { event = e; timeout = timeout; start = now } ∷ [])
dispatch now timeout e (m ∷ []) cs = join_at e m cs
dispatch now timeout e (m ∷ i ∷ is) cs = do cs' ← join_at e m cs; absorb_all m (i ∷ is) cs'

-- `process(event_t)`; it always returns 0.
unfoldable pub process_event : ℤ → Event → Filter → Option Filter
unfolding dispatch matches
process_event now e f = do
  let counted = increase_event_count true 1 f.supervisor
  let sized = set_queue_size (length f.constructors) counted
  cs ← dispatch now f.timeout e (matches 0 f.constructors e) f.constructors
  some (record f { constructors = cs; supervisor = sized })

-- The loop of `process()` from index `i - 1` down to 0: the constructors and the supervisor
-- after it, and the events sent.
unfoldable pub send_finished :
    ℤ → ℤ → ℕ → List Constructor → State → List Constructor × State × List Event
send_finished now timeout zero cs sup = (cs, sup, [])
send_finished now timeout (suc i) cs sup = elim (get_elem? cs i) [
  | none ↦ (cs, sup, [])
  | some c ↦
      let c' = set_timeout timeout c in
      elim (timed_out now c') [
        | true ↦
            let (cs', sup', out) =
              send_finished now timeout i (erase_idx cs i)
                (increase_event_count false (n c'.event) sup) in
            (cs', sup', c'.event ∷ out)
        | false ↦ send_finished now timeout i (set cs i c') sup
      ]
]

-- `process()`, with the events put into the sink.
unfoldable pub process : ℤ → Filter → Filter × List Event
unfolding send_finished
process now f =
    let (cs, sup, out) =
      send_finished now f.timeout (length f.constructors) f.constructors f.supervisor in
    (record f { constructors = cs; supervisor = set_queue_size (length cs) sup }, out)
