-- ===== src/Filter/Stations.antt =====
-- A coincidence holds at most one hit of each station, as long as no two constructors contest an
-- event.
use muondetector_cluster.Prelude.{◌≡◌, false, List, [], ◌∷◌, All}
use muondetector_cluster.Event.{Event, EventData}
use muondetector_cluster.Event.Hits.{hits}
use muondetector_cluster.Constructor.{Constructor}
use muondetector_cluster.Filter.{Filter}
use muondetector_cluster.Filter.Overlap.{from_station}

-- No two hits come from one station.
abbrev pub IsDistinct : List EventData → Type 0
IsDistinct [] = Unit
IsDistinct (d ∷ ds) = (from_station d.hash ds ≡ false) × IsDistinct ds

abbrev pub AllDistinct : List Constructor → Type 0
AllDistinct = All λ c. IsDistinct (hits c.event)
