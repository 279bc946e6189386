-- ===== src/Filter/Tests.antt =====
use muondetector_cluster.Prelude.{
  ℕ, ◌+◌, ◌≡◌, refl, inl, Bool, List, [], ◌∷◌, Option, some, none, arith, leb, length, get_elem?,
}
use muondetector_cluster.Prelude.Int.{pos, ◌-ℤ◌, ◌+ℤ◌}
use muondetector_cluster.Prelude.Sums.{sum_by, tally}
use muondetector_cluster.Event.{EventData}
use muondetector_cluster.Event.Hits.{hits}
use muondetector_cluster.Event.Samples.{lone}
use muondetector_cluster.Constructor.{Constructor, set_timeout, timed_out}
use muondetector_cluster.Coincidence.{is_coincident}
use muondetector_cluster.State.{set_queue_size}
use muondetector_cluster.State.Samples.{fresh}
use muondetector_cluster.Filter.{Filter, join, process_event, process, matches, skips}
use muondetector_cluster.Filter.Conserve.{process_event_conserves}
use muondetector_cluster.Filter.Conserve.Absorb.{held, AllWhole, merged}
use muondetector_cluster.Filter.Spans.{AllCoherent, process_event-AllCoherent}
use muondetector_cluster.Filter.Contest.{process_event-some, process_event_out_of_range}
use muondetector_cluster.Filter.Contest.Neighbour.{process_event_takes_neighbour}
use muondetector_cluster.Filter.Timeouts.{process_lem, kept, sent, counted}

abbrev waiting : ℕ → ℕ → Constructor
waiting k t = record { event = lone k t; timeout = pos 1000; start = pos t }

abbrev buffer : List Constructor → Filter
buffer cs = record { constructors = cs; timeout = pos 1000; supervisor = fresh }

abbrev result : Option Filter → Filter
result none = buffer []
result (some f) = f

-- Stations 1 and 2 wait for station 3.
abbrev two : Filter
two = buffer (waiting 1 100 ∷ waiting 2 200 ∷ [])

abbrev after_two : Filter
unfolding process_event
after_two = result (process_event (pos 400) (lone 3 300) two)

abbrev three : Filter
three = buffer (waiting 1 100 ∷ waiting 2 200 ∷ waiting 4 250 ∷ [])

-- The last constructor is too early to be coincident.
abbrev four : Filter
four = buffer (waiting 1 200100 ∷ waiting 2 200200 ∷ waiting 4 200250 ∷ waiting 5 0 ∷ [])

late : EventData → Bool
late d = leb 2 d.hash

matches_two : matches 0 two.constructors (lone 3 300) ≡ 0 ∷ 1 ∷ []
unfolding matches is_coincident ◌-ℤ◌ ◌+ℤ◌
matches_two = refl

join_counts : length after_two.constructors ≡ 1
unfolding process_event is_coincident ◌-ℤ◌ ◌+ℤ◌
join_counts = refl

process_event_conserves_example :
    (sum_by (held late) after_two.constructors
      ≡ sum_by (held late) two.constructors + tally late (hits (lone 3 300)))
    × AllWhole after_two.constructors
unfolding process_event is_coincident ◌-ℤ◌ ◌+ℤ◌
process_event_conserves_example =
    process_event_conserves late (pos 400) (lone 3 300) two (omega arith) (omega arith) refl

process_event-AllCoherent_example : AllCoherent after_two.constructors
unfolding process_event is_coincident ◌-ℤ◌ ◌+ℤ◌
process_event-AllCoherent_example =
    process_event-AllCoherent (pos 400) (lone 3 300) two (inl refl) (inl refl, (inl refl, tt)) refl

-- Station 1 alone waits for station 3.
abbrev one : Filter
one = buffer (waiting 1 100 ∷ [])

abbrev after_one : Filter
unfolding process_event
after_one = result (process_event (pos 400) (lone 3 300) one)

process_event-some_example : (f' : Filter) × (process_event (pos 400) (lone 3 300) two ≡ some f')
unfolding skips is_coincident ◌-ℤ◌ ◌+ℤ◌
process_event-some_example = process_event-some (pos 400) (lone 3 300) two (omega arith)

process_event_out_of_range_example : process_event (pos 400) (lone 3 300) three ≡ none
unfolding skips is_coincident ◌-ℤ◌ ◌+ℤ◌
process_event_out_of_range_example =
    process_event_out_of_range (pos 400) (lone 3 300) three (waiting 1 100 ∷ waiting 2 200 ∷ [])
      (waiting 4 250) refl refl (omega arith)

process_event_takes_neighbour_example :
    (f' : Filter) × (process_event (pos 200400) (lone 3 200300) four ≡ some f')
    × (get_elem? f'.constructors 0
        ≡ some (
            merged
              (merged (join (lone 3 200300) (waiting 1 200100)) (waiting 2 200200))
              (waiting 5 0)))
    × (get_elem? f'.constructors 1 ≡ some (waiting 4 200250))
unfolding matches is_coincident ◌-ℤ◌ ◌+ℤ◌
process_event_takes_neighbour_example =
    process_event_takes_neighbour (pos 200400) (lone 3 200300) four 0 1 1 (waiting 1 200100)
      (waiting 2 200200) (waiting 5 0) refl refl refl refl

process_lem_example : process (pos 1150) two ≡ (
  record two {
    constructors = kept (pos 1150) (pos 1000) two.constructors;
    supervisor =
        set_queue_size
          (length (kept (pos 1150) (pos 1000) two.constructors))
          (counted (sent (pos 1150) (pos 1000) two.constructors) fresh);
  },
  sent (pos 1150) (pos 1000) two.constructors,
)
process_lem_example = process_lem (pos 1150) two

process_sends_first : (process (pos 1150) two).1 ≡ lone 1 100 ∷ []
unfolding process ◌-ℤ◌ timed_out set_timeout
process_sends_first = refl
