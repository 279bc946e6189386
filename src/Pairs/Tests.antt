-- ===== src/Pairs/Tests.antt =====
-- Witnesses and tests for the pairs of stations.
use muondetector_cluster.Prelude.{
  ℕ, ◌+◌, ◌≡◌, ◌≢◌, ◌⊎◌, ◌%◌, ◌^◌, refl, [], ◌∷◌, ◌++◌, some, none, true, false, arith, length,
}
use muondetector_cluster.Prelude.Int.{pos}
use muondetector_cluster.Prelude.Samples.{whole}
use muondetector_cluster.Prelude.Texts.{codes}
use muondetector_cluster.Event.{UserInfo}
use muondetector_cluster.Event.Samples.{nowhere, nobody}
use muondetector_cluster.Status.{Status, Reason}
use muondetector_cluster.Detector.{Trigger}
use muondetector_cluster.Matrix.{at}
use muondetector_cluster.Matrix.Position.{triangle}
use muondetector_cluster.Matrix.Access.{IsPair}
use muondetector_cluster.Pairs.{Pairs, PairData, add_station, no_pair}
use muondetector_cluster.Pairs.Triggers.{IsMatched}
use muondetector_cluster.Pairs.Stations.{add_station_lem}
use muondetector_cluster.Histogram.{integral, qualified_bins}
use muondetector_cluster.Source.Run.{done}
use muondetector_cluster.Aggregation.{Aggregator, fill_file, new_aggregator}
use muondetector_cluster.Aggregation.Reading.{bump_all}
use muondetector_cluster.Source.Samples.{strokes, signed_strokes, stroke_numbers}
use muondetector_cluster.Aggregation.Samples.{stroke_printers, strokes-Agree}
use muondetector_cluster.Pairs.Saving.{Streams, Recorder, pair_directory, write_pair}
use muondetector_cluster.Pairs.Saving.Read.{centres, fill_file-write_pair}

abbrev home : UserInfo
home = record { username = codes "kai"; station_id = codes "home" }

-- Two stations, and the data of their pair.
abbrev two : Pairs
two = record {
  stations = (nobody, nowhere) ∷ (home, nowhere) ∷ [];
  matrix = record { columns = 2; elements = no_pair whole (λ a b. 7) 3 (pos 0) ∷ [] };
}

two-IsMatched : IsMatched two
unfolding triangle
two-IsMatched = record { valid = record { sized = refl; small = omega arith }; columns = refl }

abbrev lost : Trigger
lost = record {
  hash = 0;
  userinfo = nobody;
  status = Status.unreliable;
  reason = Reason.miscellaneous;
}

add_station_lem_example :
    (add_station whole (λ a b. 7) 3 true length (pos 9) home nowhere two ≡ none)
    × (p' : Pairs) × (add_station whole (λ a b. 7) 3 false length (pos 9) home nowhere two
        ≡ some p')
    × IsMatched p'
    × (p'.stations ≡ two.stations ++ (home, nowhere) ∷ [])
    × ((a b : ℕ) → IsPair two.matrix a b → at a b p'.matrix ≡ at a b two.matrix)
add_station_lem_example =
    add_station_lem whole (λ a b. 7) 3 length (pos 9) home nowhere two two-IsMatched (omega arith)

abbrev streams : Streams
streams = record { signed = signed_strokes; unsigned = strokes; hex = strokes; real = strokes }

abbrev measured : PairData
measured = record {
  first = 3;
  second = 4;
  distance = 5;
  hist = record { lower = pos 0; upper = pos 4; width = pos 2; bins = 3 ∷ 1 ∷ [] };
  online = 2;
  last_online = pos 0;
  uptime = pos 8;
}

abbrev nothing : Aggregator
nothing = new_aggregator stroke_printers

fill_file-write_pair_example :
    fill_file stroke_numbers
      (write_pair streams (codes "1") (pos 9) [] measured [])
      (pair_directory [] measured ++ codes "1")
      nothing
    ≡ done (record nothing {
      entries = bump_all (centres (qualified_bins measured.hist)) [];
      bin_width = 2;
      distance = 5;
      n = (0 + integral measured.hist) % 2 ^ 32;
      uptime = (0 + 8) % 2 ^ 32;
    })
unfolding integral qualified_bins muondetector_cluster.Prelude.Int.quot_ℤ
    muondetector_cluster.Prelude.Int.◌+ℤ◌
fill_file-write_pair_example =
    fill_file-write_pair stroke_numbers streams (λ d. d) strokes-Agree (λ n. refl) (codes "1")
      (pos 9) [] measured [] 2 8 nothing refl (omega arith) refl (omega arith) (omega arith)
      (((omega arith, omega arith), omega arith), (((omega arith, omega arith), omega arith), tt))

abbrev recorder : Recorder
recorder = record { pairs = two; last_save = pos 0; files = [] }
