-- ===== src/Event/Tests.antt =====
use muondetector_cluster.Prelude.{◌≡◌, refl, [], ◌∷◌, arith}
use muondetector_cluster.Prelude.Int.{pos}
use muondetector_cluster.Event.{Event, emplace}
use muondetector_cluster.Event.Window.{IsSpan}
use muondetector_cluster.Event.Samples.{hit, lone}

-- Two hits, 40 ns apart.
abbrev pair : Event
pair = record {
  head = record (hit 1 1000) { end = pos 1040 };
  events = hit 1 1000 ∷ hit 2 1040 ∷ [];
}

pair-IsSpan : IsSpan pair
pair-IsSpan = record {
  ordered = omega arith;
  lower = omega arith;
  upper = omega arith;
  first = refl;
  last = refl;
}

emplace_early : (emplace pair (lone 3 900)).head.start ≡ pos 900
unfolding emplace
emplace_early = refl
