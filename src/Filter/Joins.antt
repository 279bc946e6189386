-- ===== src/Filter/Joins.antt =====
-- What joining an event to a constructor does to the hits that it holds.
use muondetector_cluster.Prelude.{
  ◌≤◌, ◌<◌, ◌≡◌, refl, sym, ◌∙◌, ap, List, [], ◌∷◌, ◌++◌, arith, length, length-append, ◌⊎◌, inl,
  inr,
}
use muondetector_cluster.Event.{Event, EventData, emplace}
use muondetector_cluster.Event.Hits.{hits, IsWhole, length-hits, events-emplace}
use muondetector_cluster.Event.Window.{IsSpan, emplace-IsSpan, emplace_data_self-IsSpan}
use muondetector_cluster.Constructor.{Constructor}
use muondetector_cluster.Filter.{promote, join}

-- The event lists its hits.
abbrev pub IsListed : Event → Type 0
IsListed e = 2 ≤ length e.events

pub hits_of_listed : (e : Event) → IsListed e → hits e ≡ e.events
unfolding hits
hits_of_listed e h = ground arith

events-of_lone : (e : Event) → IsWhole e → length e.events < 2 → e.events ≡ []
events-of_lone e w h = nil e.events w h
  where
    nil : (ds : List EventData) → ¬ (length ds ≡ 1) → length ds < 2 → ds ≡ []
    nil [] w h = refl
    nil (d ∷ []) w h = absurd (w refl)
    nil (d ∷ x ∷ ds) w h = absurd (omega arith)

-- A lone event is listed as its own first hit.
pub events-promote : (c : Event) → IsWhole c → (promote c).events ≡ hits c
unfolding promote hits
events-promote c w = ground (
  arith,
  events-of_lone c w,
  events-emplace (record c { head = record c.head { end = c.head.start } }) c,
)

-- Joining appends the event's hits to those of the constructor.
pub events-join :
    (e : Event) (c : Constructor)
    → IsWhole c.event
    → (join e c).event.events ≡ hits c.event ++ hits e
unfolding join
events-join e c w =
    events-emplace (promote c.event) e ∙ ap (λ ds. ds ++ hits e) (events-promote c.event w)

pub join-IsListed : (e : Event) (c : Constructor) → IsWhole c.event → IsListed (join e c).event
join-IsListed e c w = omega (
  arith,
  ap length (events-join e c w),
  length-append (hits c.event) (hits e),
  length-hits c.event,
  length-hits e,
)

-- After a join the constructor holds its hits and those of the event.
pub hits-join :
    (e : Event) (c : Constructor) → IsWhole c.event → hits (join e c).event ≡ hits c.event ++ hits e
hits-join e c w = hits_of_listed (join e c).event (join-IsListed e c w) ∙ events-join e c w

pub emplace-IsListed : (c e : Event) → IsListed c → IsListed (emplace c e)
emplace-IsListed c e l =
    omega (arith, ap length (events-emplace c e), length-append c.events (hits e))

pub hits-emplace : (c e : Event) → IsListed c → hits (emplace c e) ≡ hits c ++ hits e
hits-emplace c e l =
    hits_of_listed (emplace c e) (emplace-IsListed c e l)
    ∙ events-emplace c e
    ∙ ap (λ ds. ds ++ hits e) (sym (hits_of_listed c l))

-- A lone event, or a coincidence whose window is the span of its hits.
abbrev pub IsCoherent : Event → Type 0
IsCoherent e = (e.events ≡ []) ⊎ (IsListed e × IsSpan e)

promote-IsSpan : (c : Event) → IsCoherent c → IsSpan (promote c)
unfolding promote emplace
promote-IsSpan c (inl lone) = ground (arith, emplace_data_self-IsSpan c lone)
promote-IsSpan c (inr s) = ground arith

pub IsCoherent-IsWhole : (c : Event) → IsCoherent c → IsWhole c
IsCoherent-IsWhole c (inl lone) = omega (arith, ap length lone)
IsCoherent-IsWhole c (inr s) = omega arith

pub join-IsCoherent :
    (e : Event) (c : Constructor)
    → IsCoherent c.event
    → IsListed (join e c).event × IsSpan (join e c).event
unfolding join
join-IsCoherent e c h = (
  join-IsListed e c (IsCoherent-IsWhole c.event h),
  emplace-IsSpan (promote c.event) e (promote-IsSpan c.event h),
)
