-- ===== src/Filter/Conserve/Absorb.antt =====
-- The loop over contesting constructors, which adds each to the constructor at `m` and erases it.
use muondetector_cluster.Prelude.{
  ℕ, ◌+◌, ◌<◌, ◌≡◌, sym, ◌∙◌, ap, Bool, List, [], ◌∷◌, some, arith, get_elem?, set, erase_idx, All,
  All-set, All-erase_idx, Option-cases, get_elem?-set_self, get_elem?-set_ne, get_elem?-lt,
  get_elem?-erase_idx_below, inl, inr, subst,
}
use muondetector_cluster.Prelude.Sums.{sum_by, tally, tally-append, sum_by-set, sum_by-erase_idx}
use muondetector_cluster.Event.{EventData, emplace}
use muondetector_cluster.Event.Hits.{hits, IsWhole}
use muondetector_cluster.Constructor.{Constructor}
use muondetector_cluster.Filter.{absorb, absorb_all}
use muondetector_cluster.Filter.Matches.{Rising, Rising-mono}
use muondetector_cluster.Filter.Joins.{IsListed, hits-emplace, emplace-IsListed}

-- How many of the constructor's hits pass the test.
abbrev pub held : (EventData → Bool) → Constructor → ℕ
held p c = tally p (hits c.event)

abbrev pub AllWhole : List Constructor → Type 0
AllWhole = All λ c. IsWhole c.event

-- The constructors hold `t` hits that pass the test, and the one at `m` is a coincidence.
pub record Joined (p : EventData → Bool) (m t : ℕ) (cs : List Constructor) : Type 0 where
  pub total : sum_by (held p) cs ≡ t
  pub there : (c : Constructor) × (get_elem? cs m ≡ some c) × IsListed c.event
  pub whole : AllWhole cs

abbrev pub merged : Constructor → Constructor → Constructor
merged c other = record c { event = emplace c.event other.event }

pub absorb-some :
    (m i : ℕ) (cs : List Constructor) {cs' : List Constructor} (c : Constructor)
    → get_elem? cs m ≡ some c
    → absorb m i cs ≡ some cs'
    → (other : Constructor) × (get_elem? cs i ≡ some other)
      × (cs' ≡ erase_idx (set cs m (merged c other)) i)
unfolding absorb
absorb-some m i cs c q h = elim (Option-cases (get_elem? cs i)) [
  | inl missing ↦ absurd (ground arith)
  | inr (other, r) ↦ (other, r, ground arith)
]

module _ (p : EventData → Bool) (m t : ℕ) where
  merged-Joined :
      (i : ℕ) (cs : List Constructor) (c other : Constructor)
      → m < i
      → Joined p m t cs
      → get_elem? cs m ≡ some c
      → IsListed c.event
      → get_elem? cs i ≡ some other
      → Joined p m t (erase_idx (set cs m (merged c other)) i)
  merged-Joined i cs c other lt j q l r =
      let kept = get_elem?-set_ne cs {i = m} {j = i} (merged c other) (omega arith) ∙ r in
      record {
        total = omega (
          arith,
          j.total,
          sum_by-erase_idx (held p) (set cs m (merged c other)) i other kept,
          sum_by-set (held p) cs m c (merged c other) q,
          ap (tally p) (hits-emplace c.event other.event l),
          tally-append p (hits c.event) (hits other.event),
        );
        there = (
          merged c other,
          get_elem?-erase_idx_below (set cs m (merged c other)) i m lt
              ∙ get_elem?-set_self cs m (merged c other) (get_elem?-lt cs m c q),
          emplace-IsListed c.event other.event l,
        );
        whole =
            All-erase_idx (λ k. IsWhole k.event) (set cs m (merged c other)) i
              (All-set (λ k. IsWhole k.event) cs m (merged c other) j.whole
                (omega (arith, emplace-IsListed c.event other.event l)));
      }

  absorb-Joined :
      (i : ℕ) (cs : List Constructor) {cs' : List Constructor}
      → m < i
      → Joined p m t cs
      → absorb m i cs ≡ some cs'
      → Joined p m t cs'
  absorb-Joined i cs lt j h =
      let (c, q, l) = j.there in
      let (other, r, e) = absorb-some m i cs c q h in
      subst (Joined p m t) (sym e) (merged-Joined i cs c other lt j q l r)

  pub absorb_all-Joined :
      (is : List ℕ) (cs : List Constructor) {cs' : List Constructor}
      → Rising (m + 1) is
      → Joined p m t cs
      → absorb_all m is cs ≡ some cs'
      → Joined p m t cs'
  unfolding absorb_all
  absorb_all-Joined [] cs rising j h = subst (Joined p m t) (cc) j
  absorb_all-Joined (i ∷ is) cs {cs'} rising j h = elim (Option-cases (absorb m i cs)) [
    | inl stuck ↦ absurd (ground arith)
    | inr (ds, q) ↦
        absorb_all-Joined is ds (Rising-mono (m + 1) (i + 1) is (omega arith) rising.1)
          (absorb-Joined i cs (omega arith) j q) (ground arith)
  ]
