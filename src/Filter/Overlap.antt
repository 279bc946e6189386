-- ===== src/Filter/Overlap.antt =====
-- When the filter takes a constructor's event and a new event to share a station.
use muondetector_cluster.Prelude.{
  ℕ, ◌≡◌, refl, Bool, true, false, List, [], ◌∷◌, arith, ◌==◌, any, inl, inr, ltb, Bool-cases,
}
use muondetector_cluster.Event.{Event, EventData, n}
use muondetector_cluster.Event.Hits.{hits}
use muondetector_cluster.Filter.{check_hash, skips}

-- A hit of the list comes from this station.
abbrev pub from_station : ℕ → List EventData → Bool
from_station k ds = any (λ d. d.hash == k) ds

-- A hit of the one list and a hit of the other come from one station.
abbrev pub shares : List EventData → List EventData → Bool
shares ds es = any (λ d. from_station d.hash es) ds

check_hash_lem : (d : EventData) (e : Event) → check_hash d e ≡ from_station d.hash (hits e)
unfolding check_hash hits
check_hash_lem d e = ground arith

any-ext :
    (p q : EventData → Bool) (ds : List EventData)
    → ((d : EventData) → p d ≡ q d)
    → any p ds ≡ any q ds
any-ext p q [] h = refl
any-ext p q (d ∷ ds) h = rw (h d, any-ext p q ds h) refl

shares_one : (ds : List EventData) (d : EventData) → shares ds (d ∷ []) ≡ from_station d.hash ds
shares_one [] d = refl
shares_one (x ∷ ds) d = ground (arith, shares_one ds d)

pub hits_of_many : (e : Event) → ltb 1 (n e) ≡ true → hits e ≡ e.events
unfolding hits
hits_of_many e h = ground arith

pub hits_of_one : (e : Event) → ltb 1 (n e) ≡ false → hits e ≡ e.head ∷ []
unfolding hits
hits_of_one e h = ground arith

-- `skip` is set exactly if the constructor and the event share a station, whether each is a lone
-- event or a coincidence.
pub skips_lem : (c e : Event) → skips c e ≡ shares (hits c) (hits e)
unfolding skips
skips_lem c e = elim (Bool-cases (ltb 1 (n c))) [
  | inl many ↦ rw (many, hits_of_many c many) (any-ext _ _ c.events (λ d. check_hash_lem d e))
  | inr lone ↦ elim (Bool-cases (ltb 1 (n e))) [
    | inl many ↦
        rw (lone, many, any-ext _ _ e.events (λ d. check_hash_lem d c))
          (rw (hits_of_one c lone, hits_of_many e many)
            (ground (arith, shares_one e.events c.head)))
    | inr single ↦ rw (lone, single, hits_of_one c lone, hits_of_one e single) (ground arith)
  ]
]
