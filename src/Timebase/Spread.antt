-- ===== src/Timebase/Spread.antt =====
-- The time base is bounded, and is the spread of the events' start times, if it can be computed.
use muondetector_cluster.Prelude.{
  ℕ, suc, ◌-◌, ◌^◌, ◌<◌, ◌≡◌, refl, ◌∙◌, List, [], ◌∷◌, some, none, arith, All, Option-cases, inl,
  inr,
}
use muondetector_cluster.Prelude.Int.{ℤ, pos, ◌-ℤ◌, ◌≤ℤ◌, -ℤ_parts}
use muondetector_cluster.Event.{Event}
use muondetector_cluster.Filter.{Timebase}
use muondetector_cluster.Timebase.{
  TimebaseSupervisor, minimum, maximum, sample_time, min_time, max_time, initial, observe_event,
  subtract, clamp, send_timebase,
}

-- A time base that the program allows.
abbrev pub IsBounded : ℤ → Type 0
IsBounded t = (minimum ≤ℤ t) × (t ≤ℤ maximum)

clamp-IsBounded : (v : ℤ) → IsBounded (clamp v minimum maximum)
unfolding clamp
clamp-IsBounded v = ground arith

-- The time base that is sent, and the one that is kept, lie between 800 ms and 2 min, and the
-- factor is sent on as it came, whenever the subtraction does not overflow.
pub send_timebase-IsBounded :
    (now later : ℤ) (tb tb' : Timebase) (s s' : TimebaseSupervisor)
    → IsBounded s.current
    → send_timebase now later tb s ≡ some (s', tb')
    → IsBounded s'.current × IsBounded tb'.base × (tb'.factor ≡ tb.factor)
unfolding send_timebase
send_timebase-IsBounded now later tb tb' s s' b h = elim (Option-cases (subtract s.end s.start)) [
  | inl stuck ↦ ground (arith, stuck)
  | inr (d, e) ↦ ground (arith, e, clamp-IsBounded d)
]

-- The interval is as it is set at the start, and behind every sample.
abbrev IsReset : TimebaseSupervisor → Type 0
IsReset s = (s.start ≡ max_time) × (s.end ≡ min_time)

observe_first :
    (s : TimebaseSupervisor) (e : Event) (t : ℕ)
    → IsReset s
    → e.head.start ≡ pos (suc t)
    → suc t < 2 ^ 63 - 1
    → observe_event e s ≡ record s { start = pos (suc t); end = min_time }
unfolding observe_event
observe_first s e t (starts, ends) q h = rw (q, starts) (ground (arith, h, ends))

subtract_first : (t : ℕ) → subtract min_time (pos (suc t)) ≡ none
unfolding subtract
subtract_first t = ground (arith, -ℤ_parts min_time (pos (suc t)))

-- The supervisor at the beginning of a sample: as it is made, or behind a time base that was
-- computed.
pub data Begins : TimebaseSupervisor → Type 0 where
  made : (now : ℤ) → Begins (initial now)
  renewed :
      (now later : ℤ) (tb tb' : Timebase) (s s' : TimebaseSupervisor)
      → sample_time ≤ℤ (now -ℤ s.sample_start)
      → send_timebase now later tb s ≡ some (s', tb')
      → Begins s'

Begins-IsReset : (s : TimebaseSupervisor) → Begins s → IsReset s
Begins-IsReset s (made now) = unfold initial in (refl, refl)
Begins-IsReset s' (renewed now later tb tb' s t d h) =
    elim (Option-cases (subtract s.end s.start)) [
      | inl stuck ↦ unfold send_timebase in ground (arith, stuck, d, h)
      | inr (spread, e) ↦ unfold send_timebase in ground (arith, e, d, h)
    ]

-- After any sample in which there was one event, at a time after 1970 and before the greatest that
-- a signed 64-bit count holds, no time base can be computed: the end of the interval is still the
-- least count, and the subtraction overflows. The sample is the first one, or follows any other for
-- which a time base was computed.
pub send_timebase-single :
    (now later : ℤ) (tb : Timebase) (s : TimebaseSupervisor) (e : Event) (t : ℕ)
    → Begins s
    → e.head.start ≡ pos (suc t)
    → suc t < 2 ^ 63 - 1
    → sample_time ≤ℤ (now -ℤ s.sample_start)
    → send_timebase now later tb (observe_event e s) ≡ none
unfolding send_timebase
send_timebase-single now later tb s e t begins q h d =
    rw (observe_first s e t (Begins-IsReset s begins) q h) (ground (arith, subtract_first t, d))

abbrev pub observe_all : List Event → TimebaseSupervisor → TimebaseSupervisor
observe_all [] s = s
observe_all (e ∷ es) s = observe_all es (observe_event e s)

observe_event-keeps :
    (e : Event) (s : TimebaseSupervisor)
    → s.start ≤ℤ e.head.start
    → ((observe_event e s).start ≡ s.start)
      × (s.end ≤ℤ (observe_event e s).end)
      × (e.head.start ≤ℤ (observe_event e s).end)
unfolding observe_event
observe_event-keeps e s h = ground arith

-- While no event is earlier than the start of the interval, the start stays, and the end only grows
-- and is not before any of the events.
pub observe_all-covers :
    (es : List Event) (s : TimebaseSupervisor)
    → All (λ e. s.start ≤ℤ e.head.start) es
    → ((observe_all es s).start ≡ s.start)
      × (s.end ≤ℤ (observe_all es s).end)
      × All (λ e. e.head.start ≤ℤ (observe_all es s).end) es
observe_all-covers [] s h = (refl, omega arith, tt)
observe_all-covers (e ∷ es) s h =
    let (same, grows, covers) = observe_event-keeps e s h.0 in
    let (same', grows', covers') = observe_all-covers es (observe_event e s) (rw same h.1) in
    (same' ∙ same, omega (arith, grows, grows'), (omega (arith, covers, grows'), covers'))
