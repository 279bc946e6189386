-- ===== src/Event/Hits.antt =====
-- What an event holds: a lone event holds its own data, a coincidence the list `events`.
use muondetector_cluster.Prelude.{
  ◌≡◌, sym, ◌∙◌, ◌≢◌, List, [], ◌∷◌, ◌++◌, arith, ltb, if◌then◌else◌, length,
}
use mathlib.Core.List.{append_assoc, append-nil}
use muondetector_cluster.Event.{Event, EventData, n, emplace_data, emplace_all, emplace}

unfoldable pub hits : Event → List EventData
hits e = if ltb (n e) 2 then e.head ∷ [] else e.events

-- No event lists exactly one hit: `events` is empty, or holds two or more.
abbrev pub IsWhole : Event → Type 0
IsWhole e = length e.events ≢ 1

pub length-hits : (e : Event) → length (hits e) ≡ n e
unfolding hits
length-hits e = ground arith

pub events-emplace_all :
    (e : Event) (ds : List EventData) → (emplace_all e ds).events ≡ e.events ++ ds
unfolding emplace_all
events-emplace_all e [] = sym (append-nil e.events)
events-emplace_all e (d ∷ ds) =
    events-emplace_all (emplace_data e d) ds
    ∙ unfold emplace_data in append_assoc e.events (d ∷ []) ds

-- Adding an event appends exactly its hits, in their order.
pub events-emplace : (e f : Event) → (emplace e f).events ≡ e.events ++ hits f
unfolding emplace hits
events-emplace e f = ground (arith, events-emplace_all e f.events)
