-- ===== src/Event/Window.antt =====
-- The time window of a coincidence: `data.start` and `data.end` of `event_t`, which
-- `event_t::emplace` (src/messages/event.cpp) keeps up to date.
use muondetector_cluster.Prelude.{
  ◌≡◌, Bool, true, false, ◌⊎◌, inl, inr, List, [], ◌∷◌, ◌++◌, arith, if◌then◌else◌, any, All,
  All-append,
}
use muondetector_cluster.Prelude.Int.{ℤ, ◌≤ℤ◌, leb_ℤ}
use muondetector_cluster.Event.{Event, EventData, widen, emplace_data, emplace_all, emplace}

abbrev pub starts_at : ℤ → EventData → Bool
starts_at t d = if leb_ℤ t d.start then leb_ℤ d.start t else false

-- The window is exactly the span of the hits' start times.
pub record IsSpan (e : Event) : Type 0 where
  pub ordered : e.head.start ≤ℤ e.head.end
  pub lower : All (λ d. e.head.start ≤ℤ d.start) e.events
  pub upper : All (λ d. d.start ≤ℤ e.head.end) e.events
  pub first : any (starts_at e.head.start) e.events ≡ true
  pub last : any (starts_at e.head.end) e.events ≡ true

All-lower_mono :
    (s t : ℤ) (ds : List EventData)
    → s ≤ℤ t
    → All (λ d. t ≤ℤ d.start) ds
    → All (λ d. s ≤ℤ d.start) ds
All-lower_mono s t [] h a = tt
All-lower_mono s t (d ∷ ds) h a = (omega arith, All-lower_mono s t ds h a.1)

All-upper_mono :
    (s t : ℤ) (ds : List EventData)
    → s ≤ℤ t
    → All (λ d. d.start ≤ℤ s) ds
    → All (λ d. d.start ≤ℤ t) ds
All-upper_mono s t [] h a = tt
All-upper_mono s t (d ∷ ds) h a = (omega arith, All-upper_mono s t ds h a.1)

any-append_right :
    (p : EventData → Bool) (ds : List EventData) (d : EventData)
    → p d ≡ true
    → any p (ds ++ d ∷ []) ≡ true
any-append_right p [] d h = ground arith
any-append_right p (x ∷ ds) d h = ground (arith, any-append_right p ds d h)

any-append_left :
    (p : EventData → Bool) (ds es : List EventData) → any p ds ≡ true → any p (ds ++ es) ≡ true
any-append_left p [] es h = cc h
any-append_left p (x ∷ ds) es h = ground (arith, any-append_left p ds es)

-- The tests of `emplace(data_t)`, when the window is ordered.
module _ (h d : EventData) (o : h.start ≤ℤ h.end) where
  widen_bounds :
      ((widen h d).start ≤ℤ h.start)
      × (h.end ≤ℤ (widen h d).end)
      × ((widen h d).start ≤ℤ d.start)
      × (d.start ≤ℤ (widen h d).end)
      × ((widen h d).start ≤ℤ (widen h d).end)
  unfolding widen
  widen_bounds = ground arith

module _ (h d : EventData) where
  widen_start : ((widen h d).start ≡ h.start) ⊎ ((widen h d).start ≡ d.start)
  unfolding widen
  widen_start = ground arith

  widen_end : ((widen h d).end ≡ h.end) ⊎ ((widen h d).end ≡ d.start)
  unfolding widen
  widen_end = ground arith

starts_at_self : (d : EventData) → starts_at d.start d ≡ true
starts_at_self d = ground arith

emplace_data-IsSpan : (e : Event) (d : EventData) → IsSpan e → IsSpan (emplace_data e d)
unfolding emplace_data
emplace_data-IsSpan e d s = record {
  ordered = b.4;
  lower = All-append _ e.events (d ∷ []) (All-lower_mono _ _ e.events b.0 s.lower) (b.2, tt);
  upper = All-append _ e.events (d ∷ []) (All-upper_mono _ _ e.events b.1 s.upper) (b.3, tt);
  first = first (widen_start e.head d);
  last = last (widen_end e.head d);
}
  where
    b :
        ((widen e.head d).start ≤ℤ e.head.start)
        × (e.head.end ≤ℤ (widen e.head d).end)
        × ((widen e.head d).start ≤ℤ d.start)
        × (d.start ≤ℤ (widen e.head d).end)
        × ((widen e.head d).start ≤ℤ (widen e.head d).end)
    b = widen_bounds e.head d s.ordered

    first :
        (((widen e.head d).start ≡ e.head.start) ⊎ ((widen e.head d).start ≡ d.start))
        → any (starts_at (widen e.head d).start) (e.events ++ d ∷ []) ≡ true
    first (inl q) = rw q (any-append_left (starts_at e.head.start) e.events (d ∷ []) s.first)
    first (inr q) = rw q (any-append_right (starts_at d.start) e.events d (starts_at_self d))

    last :
        (((widen e.head d).end ≡ e.head.end) ⊎ ((widen e.head d).end ≡ d.start))
        → any (starts_at (widen e.head d).end) (e.events ++ d ∷ []) ≡ true
    last (inl q) = rw q (any-append_left (starts_at e.head.end) e.events (d ∷ []) s.last)
    last (inr q) = rw q (any-append_right (starts_at d.start) e.events d (starts_at_self d))

pub emplace_all-IsSpan : (e : Event) (ds : List EventData) → IsSpan e → IsSpan (emplace_all e ds)
unfolding emplace_all
emplace_all-IsSpan e [] s = s
emplace_all-IsSpan e (d ∷ ds) s =
    emplace_all-IsSpan (emplace_data e d) ds (emplace_data-IsSpan e d s)

-- Adding an event to a coincidence whose window is the span of its hits gives a coincidence
-- whose window is the span of all its hits.
pub emplace-IsSpan : (e f : Event) → IsSpan e → IsSpan (emplace e f)
unfolding emplace
emplace-IsSpan e f s =
    ground (arith, emplace_all-IsSpan e f.events s, emplace_data-IsSpan e f.head s)

-- The start of an event without a list, taken as an empty window, spans its own hit.
pub emplace_data_self-IsSpan :
    (e : Event)
    → e.events ≡ []
    → IsSpan (emplace_data (record e { head = record e.head { end = e.head.start } }) e.head)
unfolding emplace_data widen
emplace_data_self-IsSpan e h = rw h (ground arith)
