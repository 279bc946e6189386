-- ===== src/Pairs/Counting.antt =====
-- `get(event_t)` of `station_coincidence`: every pair of hits is counted in the histogram of its
-- two stations.
use muondetector_cluster.Prelude.{
  ℕ, ◌+◌, ◌-◌, ◌%◌, ◌^◌, max, min, ◌≡◌, ◌≢◌, refl, Bool, true, false, List, [], ◌∷◌, Option, none,
  some, Text, ◌||◌, if◌then◌else◌, ltb, length, arith, Bool-cases, inl, inr, ap, ◌∙◌,
}
use muondetector_cluster.Prelude.Int.{ℤ, pos, negsuc, pos_part, neg_part, ◌-ℤ◌}
use muondetector_cluster.Prelude.Floats.{Double, Floats}
use muondetector_cluster.Event.{Event, EventData, UserInfo, Location, n}
use muondetector_cluster.Histogram
use muondetector_cluster.Matrix.{UpperMatrix, at, write_at}
use muondetector_cluster.Pairs.{Pairs, PairData, find_station, add_station}

-- `static_cast<std::int32_t>`
abbrev pub to_int32 : ℤ → ℤ
to_int32 z =
    let low = (pos_part z + 2 ^ 32 - neg_part z % 2 ^ 32) % 2 ^ 32 in
    if ltb low (2 ^ 31) then pos low else negsuc (2 ^ 32 - 1 - low)

-- The difference of two hits' times; that of the greater hash is subtracted.
unfoldable pub time_difference : EventData → EventData → ℤ
time_difference a b =
    if ltb a.hash b.hash then to_int32 (a.start -ℤ b.start) else to_int32 (b.start -ℤ a.start)

-- A difference is counted in the histogram at two indices.
unfoldable pub tally : ℕ → ℕ → ℤ → UpperMatrix PairData → Option (UpperMatrix PairData)
tally x y difference m = elim (at x y m) [
  | none ↦ none
  | some d ↦ elim (Histogram.add difference d.hist) [
    | none ↦ none
    | some hist ↦ some (write_at x y (record d { hist = hist }) m)
  ]
]

-- The end of the inner loop, for the stations at two indices.
unfoldable pub count_pair :
    ℕ → ℕ → EventData → EventData → UpperMatrix PairData → Option (UpperMatrix PairData)
unfolding time_difference tally
count_pair first second a b m = tally (max first second) (min first second) (time_difference a b) m

module _ (fl : Floats) (straight_distance : Location → Location → Double) (c_0 : Double) where
  module _ (assertions : Bool) (std_hash : Text → ℕ) (now : ℤ)
      (get_station : ℕ → UserInfo × Location) where
    -- The index of the station with a hash, which is added if it is not there; `get_station` is
    -- that of `supervision::station`.
    unfoldable pub station_index : ℕ → Pairs → Option (ℕ × Pairs)
    station_index hash p = elim (find_station std_hash hash p.stations) [
      | some i ↦ some (i, p)
      | none ↦
          elim (add_station fl straight_distance c_0 assertions std_hash now (get_station hash).0
            (get_station hash).1 p) [ none ↦ none | some p' ↦ some (length p'.stations - 1, p') ]
    ]

    -- The inner loop.
    unfoldable pub count_later : ℕ → EventData → List EventData → Pairs → Option Pairs
    unfolding station_index count_pair
    count_later first a [] p = some p
    count_later first a (b ∷ bs) p = elim (station_index b.hash p) [
      | none ↦ none
      | some (second, p') ↦ elim (count_pair first second a b p'.matrix) [
        | none ↦ none
        | some m ↦ count_later first a bs (record p' { matrix = m })
      ]
    ]

    -- The outer loop, which stops before the last hit.
    unfoldable pub count_hits : List EventData → Pairs → Option Pairs
    unfolding station_index count_later
    count_hits [] p = some p
    count_hits (a ∷ []) p = some p
    count_hits (a ∷ b ∷ bs) p = elim (station_index a.hash p) [
      | none ↦ none
      | some (first, p') ↦ elim (count_later first a (b ∷ bs) p') [
        | none ↦ none
        | some p'' ↦ count_hits (b ∷ bs) p''
      ]
    ]

    -- `get(event_t)`; while the histograms are being saved, nothing is counted.
    unfoldable pub count_event_pairs : Bool → Event → Pairs → Option Pairs
    unfolding count_hits
    count_event_pairs saving e p = if (ltb (n e) 2 || saving) then some p else count_hits e.events p

time_difference_comm :
    (a b : EventData) → a.hash ≢ b.hash → time_difference a b ≡ time_difference b a
unfolding time_difference
time_difference_comm a b apart = elim (Bool-cases (ltb a.hash b.hash)) [
  | inl less ↦ let other : ltb b.hash a.hash ≡ false = ground (arith, less) in rw (less, other) refl
  | inr greater ↦
      let other : ltb b.hash a.hash ≡ true = ground (arith, greater, apart) in
      rw (greater, other) refl
]

-- Two hits of different stations are counted the same, whichever of them comes first in the event.
pub count_pair_comm :
    (first second : ℕ) (a b : EventData) (m : UpperMatrix PairData)
    → a.hash ≢ b.hash
    → count_pair first second a b m ≡ count_pair second first b a m
unfolding count_pair
count_pair_comm first second a b m apart =
    let top : max first second ≡ max second first = omega arith in
    let bottom : min first second ≡ min second first = omega arith in
    ap (λ x. tally x (min first second) (time_difference a b) m) top
    ∙ ap (λ y. tally (max second first) y (time_difference a b) m) bottom
    ∙ ap (λ d. tally (max second first) (min second first) d m) (time_difference_comm a b apart)
