-- ===== src/Sink.antt =====
-- `sink::threaded` and `sink::collection` (include/sink/base.h). What a derived class does with an
-- item, and when there was none for a while, changes its state and returns a code.
pub mod Fifo
mod Tests
use muondetector_cluster.Prelude.{
  ℕ, zero, suc, Bool, true, false, List, [], ◌∷◌, ◌++◌, Option, none, some, if◌then◌else◌, map,
}
use muondetector_cluster.Prelude.Int.{ℤ, pos, negsuc}
use muondetector_cluster.Message.{is_empty}
use muondetector_cluster.Runner.{is_zero}

-- The two functions `process`.
pub record Process (A W : Type 0) : Type 0 where
  pub each : A → W → ℤ × W
  pub idle : W → ℤ × W

-- How `m_condition.wait_for` ends.
pub data Wake : Type 0 where
  timeout notified : Wake

-- `internal_get`, the callers' side
unfoldable pub internal_get {ℓ} : {A : Type ℓ} → A → List A → List A
internal_get item items = items ++ item ∷ []

-- `threaded<T>::process()`
unfoldable pub no_process : {W : Type 0} → W → ℤ × W
no_process w = (pos 0, w)

-- What `step` leaves: its code, the queue, and the derived class's state; `none` where it reads the
-- front of an empty queue.
abbrev pub Outcome : Type 0 → Type 0 → Type 0
Outcome A W = Option (ℤ × List A × W)

module _ {A W : Type 0} (process : Process A W) where
  -- Behind the loop of `step`.
  unfoldable pub idle_step : List A → W → Outcome A W
  idle_step items w = let r = process.idle w in some (r.0, items, r.1)

  -- The loop, with the rounds that are left; `arrivals n` is what other threads put into the queue
  -- while round `n`, counted from the last, handles its item.
  unfoldable pub handle_items : (arrivals : ℕ → List A) → ℕ → List A → W → Outcome A W
  unfolding idle_step
  handle_items arrivals zero items w = idle_step items w
  handle_items arrivals (suc left) [] w = none
  handle_items arrivals (suc left) (item ∷ items) w =
      let r = process.each item w in
      let queue = items ++ arrivals left in
      let rest = handle_items arrivals left queue r.1 in
      if is_zero r.0
      then (if is_empty queue then idle_step queue r.1 else rest)
      else some (r.0, queue, r.1)

  -- `step`; `wake` is looked at only if the queue is empty, and `woken` is what was put into it
  -- until then.
  unfoldable pub sink_step :
      Wake → List A → Bool → (arrivals : ℕ → List A) → List A → W → Outcome A W
  unfolding idle_step handle_items
  sink_step wake woken quit arrivals items w = elim items [
    | [] ↦ elim wake [
      | Wake.timeout ↦ idle_step woken w
      | Wake.notified ↦ if quit then some (pos 0, woken, w) else handle_items arrivals 10 woken w
    ]
    | item ∷ rest ↦
        if quit then some (pos 0, item ∷ rest, w) else handle_items arrivals 10 (item ∷ rest) w
  ]

-- `collection`: its sinks have states of any type, and `get` is their virtual `sink::base::get`.
unfoldable pub emplace_sink {ℓ} : {S : Type ℓ} → S → List S → List S
emplace_sink sink sinks = sinks ++ sink ∷ []

module _ {A S : Type 0} (get : A → S → S) where
  unfoldable pub forward_all : A → List S → List S
  forward_all item [] = []
  forward_all item (sink ∷ sinks) = get item sink ∷ forward_all item sinks

  unfoldable pub collection : Process A (List S)
  unfolding forward_all no_process
  collection = record {
    each = λ item sinks. (pos 0, forward_all item sinks);
    idle = λ sinks. no_process sinks;
  }
