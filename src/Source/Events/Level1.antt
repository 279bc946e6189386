-- ===== src/Source/Events/Level1.antt =====
-- What is collected of a level-1 coincidence.
use muondetector_cluster.Prelude.{
  ℕ, zero, suc, ◌+◌, ◌-◌, ◌%◌, ◌^◌, ◌<◌, ◌≡◌, refl, ◌∙◌, false, List, [], ◌∷◌, ◌++◌, arith, length,
  replicate, if◌then◌else◌, ◌==◌,
}
use mathlib.Core.List.{append_assoc}
use muondetector_cluster.Event.{Event, EventData, emplace_data, n}
use muondetector_cluster.Source.Collector.{ItemCollector, ResultCode}
use muondetector_cluster.Source.Events.{collect_l1, lone_event}

-- The hits of a coincidence of `count` hits as they arrive, with the codes that are returned.
abbrev pub collect_hits :
    ℕ → List EventData → ItemCollector Event → List ResultCode × ItemCollector Event
collect_hits count [] c = ([], c)
collect_hits count (d ∷ ds) c =
    let r = collect_l1 d count c in let (rs, c') = collect_hits count ds r.1 in (r.0 ∷ rs, c')

collect_later :
    (d : EventData) (count left : ℕ) (c : ItemCollector Event)
    → c.status ≡ suc left
    → suc left < 2 ^ 16
    → collect_l1 d count c ≡ (
      if left == 0 then ResultCode.finished else ResultCode.aggregating,
      record c { item = emplace_data c.item d; status = left },
    )
unfolding collect_l1
collect_later d count left c e h =
    let down : (c.status + 2 ^ 16 - 1) % 2 ^ 16 ≡ left = omega arith in
    let more : (c.status == 0) ≡ false = ground arith in rw (more, down) refl

collect_first :
    (d : EventData) (left : ℕ) (c : ItemCollector Event)
    → c.status ≡ 0
    → suc left < 2 ^ 16
    → collect_l1 d (suc (suc left)) c
      ≡ (ResultCode.aggregating, record c { item = lone_event d; status = suc left })
unfolding collect_l1
collect_first d left c e h =
    let count : (suc (suc left) + 2 ^ 64 - 1) % 2 ^ 16 ≡ suc left = omega arith in
    rw (e, count) refl

-- The codes of `left` hits, of which the last finishes.
abbrev pub last_finishes : ℕ → List ResultCode
last_finishes left = replicate left ResultCode.aggregating ++ ResultCode.finished ∷ []

collect_rest :
    (count left : ℕ) (ds : List EventData) (c : ItemCollector Event)
    → length ds ≡ suc left
    → c.status ≡ suc left
    → suc left < 2 ^ 16
    → (c' : ItemCollector Event) × (collect_hits count ds c ≡ (last_finishes left, c'))
      × (c'.status ≡ 0)
      × (c'.item.events ≡ c.item.events ++ ds)
collect_rest count left [] c l s h = absurd (omega arith)
collect_rest count zero (d ∷ []) c l s h = (
  record c { item = emplace_data c.item d; status = 0 },
  rw (collect_later d count 0 c s h) refl,
  refl,
  unfold emplace_data in refl,
)
collect_rest count zero (d ∷ e ∷ ds) c l s h = absurd (omega arith)
collect_rest count (suc left) (d ∷ ds) c l s h =
    let more : (suc left == 0) ≡ false = ground arith in
    let next = record c { item = emplace_data c.item d; status = suc left } in
    let (c', q, z, e) = collect_rest count left ds next (omega arith) refl (omega arith) in
    (
      c',
      rw (collect_later d count (suc left) c s h, q, more) refl,
      z,
      e ∙ unfold emplace_data in append_assoc c.item.events (d ∷ []) ds,
    )

-- A collector that waits for a coincidence takes the first of its hits only to count the others:
-- when the message of the last has come, as many messages as there are hits, the event is finished,
-- and its hits are all but the first.
pub collect_hits_lem :
    (left : ℕ) (d : EventData) (ds : List EventData) (c : ItemCollector Event)
    → length ds ≡ suc left
    → c.status ≡ 0
    → suc left < 2 ^ 16
    → (c' : ItemCollector Event) × (collect_hits (suc (suc left)) (d ∷ ds) c
        ≡ (ResultCode.aggregating ∷ last_finishes left, c'))
      × (c'.status ≡ 0)
      × (c'.item.events ≡ ds)
      × (n c'.item ≡ suc left)
collect_hits_lem left d ds c l s h =
    let first = record c { item = lone_event d; status = suc left } in
    let (c', q, z, e) = collect_rest (suc (suc left)) left ds first l refl h in
    (c', rw (collect_first d left c s h, q) refl, z, e, ground (arith, e, l))
