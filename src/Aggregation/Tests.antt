-- ===== src/Aggregation/Tests.antt =====
-- Witnesses and tests for the aggregation.
use muondetector_cluster.Prelude.{
  ℕ, ◌+◌, ◌%◌, ◌^◌, ◌≡◌, refl, true, [], ◌∷◌, List, arith, Text, some,
}
use muondetector_cluster.Prelude.Int.{ℤ, pos, negsuc}
use muondetector_cluster.Prelude.Texts.{codes}
use muondetector_cluster.Source.Run.{done}
use muondetector_cluster.Aggregation.{Aggregator, save, fill_file, new_aggregator, find_stems}
use muondetector_cluster.Aggregation.Entries.{count_at}
use muondetector_cluster.Aggregation.Saved.{fill_file-save}
use muondetector_cluster.Source.Samples.{stroke_numbers}
use muondetector_cluster.Aggregation.Samples.{stroke_printers, strokes-Agree}

abbrev two_bins : Aggregator
two_bins = record (new_aggregator stroke_printers) {
  entries = (negsuc 4, 3) ∷ (pos 6, 1) ∷ [];
  n = 4;
  bin_width = 2;
  distance = 5;
  uptime = 7;
  sample_time = 9;
}

-- A second run over a directory finds the sum that the first one wrote, and adds it to itself.
fill_file-save_example :
    (r : Aggregator) × (fill_file stroke_numbers
        (save stroke_printers (codes "aggregate") two_bins [])
        (codes "aggregate")
        two_bins
      ≡ done r)
    × ((bin : ℤ)
        → count_at bin r.entries
          ≡ (count_at bin two_bins.entries + count_at bin two_bins.entries) % 2 ^ 32)
    × (r.n ≡ (4 + 4) % 2 ^ 32)
    × (r.uptime ≡ (7 + 7) % 2 ^ 32)
    × (r.sample_time ≡ (9 + 9) % 2 ^ 32)
    × (r.bin_width ≡ 2)
    × (r.distance ≡ 5)
fill_file-save_example =
    fill_file-save stroke_numbers stroke_printers (λ d. d) strokes-Agree (codes "aggregate") []
      two_bins two_bins
      (((omega arith, omega arith), omega arith), (((omega arith, omega arith), omega arith), tt))
      (omega arith, omega arith, omega arith, omega arith) (omega arith, tt) (omega arith, tt)
      (((omega arith, omega arith), omega arith), (((omega arith, omega arith), omega arith), tt))

-- The file that is written is one of those that are read.
aggregate_found :
    find_stems (save stroke_printers (codes "aggregate") two_bins []) ≡ codes "aggregate" ∷ []
unfolding find_stems save muondetector_cluster.Prelude.TextMap.assign
aggregate_found = refl
