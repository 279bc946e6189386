-- ===== src/Sink/Tests.antt =====
-- Witnesses and tests for the sinks.
use muondetector_cluster.Prelude.{
  ℕ, ◌+◌, ◌≡◌, refl, false, List, [], ◌∷◌, some, none, if◌then◌else◌, ◌==◌,
}
use muondetector_cluster.Prelude.Int.{ℤ, pos}
use muondetector_cluster.Sink.{Process, Wake, sink_step, handle_items, collection}
use muondetector_cluster.Sink.Fifo.{Batch, sink_step-Batch}

-- A sink that adds up its items, and stops at 7.
abbrev adder : Process ℕ ℕ
adder = record {
  each = λ item w. (if item == 7 then pos 1 else pos 0, w + item);
  idle = λ w. (pos 0, w);
}

-- A wake-up with nothing in the queue reads its front.
spurious : sink_step adder Wake.notified [] false (λ n. []) [] 5 ≡ none
unfolding sink_step handle_items
spurious = refl

stopped_by_seven :
    sink_step adder Wake.notified [] false (λ n. []) (2 ∷ 7 ∷ 4 ∷ []) 5 ≡ some (pos 1, 4 ∷ [], 14)
unfolding sink_step handle_items
stopped_by_seven = refl

sink_step-Batch_example :
    (after : ℤ × List ℕ × ℕ) × (sink_step adder Wake.notified [] false
        (λ n. 9 ∷ [])
        (2 ∷ 7 ∷ 4 ∷ [])
        5
      ≡ some after)
    × Batch adder 10 (2 ∷ 7 ∷ 4 ∷ []) 5 after
sink_step-Batch_example = sink_step-Batch adder Wake.notified [] (λ n. 9 ∷ []) 2 (7 ∷ 4 ∷ []) 5

-- Both sinks of a collection of sums get the items.
collected :
    sink_step
      (collection (λ (k sum : ℕ). sum + k))
      Wake.notified
      []
      false
      (λ n. [])
      (2 ∷ 7 ∷ [])
      (1 ∷ 10 ∷ [])
    ≡ some (pos 0, [], 10 ∷ 19 ∷ [])
unfolding sink_step collection
collected = refl
