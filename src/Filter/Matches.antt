-- ===== src/Filter/Matches.antt =====
-- The queue `matches` of `coincidence_filter::process(event_t)`.
use muondetector_cluster.Prelude.{
  ℕ, zero, suc, ◌+◌, ◌≤◌, ◌<◌, ◌≡◌, refl, Bool, false, ◌&&◌, ◌||◌, not, leb, if◌then◌else◌, List,
  [], ◌∷◌, Option, some, none, arith, ◌==◌, any, length, get_elem?, ◌∙◌, ap,
}
use muondetector_cluster.Prelude.Int.{ℤ, ◌-ℤ◌, nat_abs}
use muondetector_cluster.Event.{Event}
use muondetector_cluster.Event.Hits.{hits}
use muondetector_cluster.Coincidence.{is_coincident}
use muondetector_cluster.Constructor.{Constructor}
use muondetector_cluster.Filter.{skips, matches}
use muondetector_cluster.Filter.Overlap.{shares}

-- The constructor shares no station with the event and is coincident with it.
abbrev pub admits : Event → Constructor → Bool
admits e c = not (skips c.event e) && is_coincident e c.event

-- The indices rise strictly, from `lo` at least.
abbrev pub Rising : ℕ → List ℕ → Type 0
Rising lo [] = Unit
Rising lo (m ∷ ms) = (lo ≤ m) × Rising (m + 1) ms

pub Rising-mono : (a b : ℕ) (ms : List ℕ) → a ≤ b → Rising b ms → Rising a ms
Rising-mono a b [] h r = tt
Rising-mono a b (m ∷ ms) h r = (omega arith, r.1)

pub matches-Rising : (i : ℕ) (cs : List Constructor) (e : Event) → Rising i (matches i cs e)
unfolding matches
matches-Rising i [] e = tt
matches-Rising i (c ∷ cs) e =
    ground (arith, matches-Rising (i + 1) cs e, Rising-mono i (i + 1) (matches (i + 1) cs e))

absent : (k lo : ℕ) (ms : List ℕ) → k < lo → Rising lo ms → any (λ m. m == k) ms ≡ false
absent k lo [] h r = refl
absent k lo (m ∷ ms) h r = ground (arith, absent k (m + 1) ms)

abbrev pub admitted : Event → Option Constructor → Bool
admitted e none = false
admitted e (some c) = admits e c

matches-get :
    (i k j : ℕ) (cs : List Constructor) (e : Event)
    → i + k ≡ j
    → any (λ m. m == j) (matches i cs e) ≡ admitted e (get_elem? cs k)
unfolding matches
matches-get i k j [] e h = refl
matches-get i zero j (c ∷ cs) e h =
    ground (arith, absent j (i + 1) (matches (i + 1) cs e), matches-Rising (i + 1) cs e)
matches-get i (suc k) j (c ∷ cs) e h = ground (arith, matches-get (i + 1) k j cs e)

pub matches-admits :
    (cs : List Constructor) (e : Event) (k : ℕ) (c : Constructor)
    → get_elem? cs k ≡ some c
    → any (λ m. m == k) (matches 0 cs e) ≡ admits e c
matches-admits cs e k c h = matches-get 0 k k cs e (omega arith) ∙ ap (admitted e) h

-- The start of an event, and its end, which for a lone event is the start again.
abbrev pub first_time : Event → ℤ
first_time e = e.head.start

abbrev pub end_time : Event → ℤ
end_time e = if leb 2 (length e.events) then e.head.end else e.head.start

-- A first or last time of the one lies within 100000 ns of a first or last time of the other.
abbrev pub is_close : Event → Event → Bool
is_close e c =
    leb (nat_abs (first_time e -ℤ first_time c)) 100000
    || leb (nat_abs (first_time e -ℤ end_time c)) 100000
    || leb (nat_abs (end_time e -ℤ first_time c)) 100000
    || leb (nat_abs (end_time e -ℤ end_time c)) 100000

-- No hit of the one has the hash of a hit of the other, and the times are close.
abbrev pub belongs : Event → Event → Bool
belongs e c = not (shares (hits c) (hits e)) && is_close e c
