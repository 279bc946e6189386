-- ===== src/Filter/Spans.antt =====
-- Every constructor in the filter's buffer is a lone event, or a coincidence whose window is the
-- span of its hits.
use muondetector_cluster.Prelude.{
  ℕ, ◌+◌, ◌<◌, ◌≡◌, sym, ◌∙◌, List, [], ◌∷◌, some, arith, get_elem?, set, erase_idx, All,
  All-append, All-set, All-get_elem?, All-erase_idx, Option-cases, get_elem?-set_self, get_elem?-lt,
  get_elem?-erase_idx_below, inl, inr, subst,
}
use muondetector_cluster.Prelude.Int.{ℤ}
use muondetector_cluster.Event.{Event}
use muondetector_cluster.Event.Window.{IsSpan, emplace-IsSpan}
use muondetector_cluster.Constructor.{Constructor}
use muondetector_cluster.Filter.{
  Filter, join, join_at, absorb, absorb_all, dispatch, process_event, matches,
}
use muondetector_cluster.Filter.Matches.{Rising, Rising-mono, matches-Rising}
use muondetector_cluster.Filter.Joins.{IsListed, IsCoherent, join-IsCoherent, emplace-IsListed}
use muondetector_cluster.Filter.Conserve.Absorb.{merged, absorb-some}

abbrev pub AllCoherent : List Constructor → Type 0
AllCoherent = All λ c. IsCoherent c.event

-- All constructors are coherent, and the one at `m` is a coincidence.
record Coincident (m : ℕ) (cs : List Constructor) : Type 0 where
  there : (c : Constructor) × (get_elem? cs m ≡ some c) × IsListed c.event × IsSpan c.event
  coherent : AllCoherent cs

set-Coincident :
    (m : ℕ) (cs : List Constructor) (c new : Constructor)
    → get_elem? cs m ≡ some c
    → IsListed new.event
    → IsSpan new.event
    → AllCoherent cs
    → Coincident m (set cs m new)
set-Coincident m cs c new q l s h = record {
  there = (new, get_elem?-set_self cs m new (get_elem?-lt cs m c q), l, s);
  coherent = All-set (λ k. IsCoherent k.event) cs m new h (inr (l, s));
}

erase-Coincident :
    (m i : ℕ) (cs : List Constructor) → m < i → Coincident m cs → Coincident m (erase_idx cs i)
erase-Coincident m i cs lt j = record {
  there = (j.there.0, get_elem?-erase_idx_below cs i m lt ∙ j.there.1, j.there.2, j.there.3);
  coherent = All-erase_idx (λ k. IsCoherent k.event) cs i j.coherent;
}

join_at-Coincident :
    (e : Event) (m : ℕ) (cs : List Constructor) {cs' : List Constructor}
    → AllCoherent cs
    → join_at e m cs ≡ some cs'
    → Coincident m cs'
unfolding join_at
join_at-Coincident e m cs hs h = elim (Option-cases (get_elem? cs m)) [
  | inl missing ↦ absurd (ground arith)
  | inr (c, q) ↦
      let new = join-IsCoherent e c (All-get_elem? (λ k. IsCoherent k.event) cs m c hs q) in
      subst (Coincident m) (ground arith) (set-Coincident m cs c (join e c) q new.0 new.1 hs)
]

module _ (m : ℕ) where
  absorb-Coincident :
      (i : ℕ) (cs : List Constructor) {cs' : List Constructor}
      → m < i
      → Coincident m cs
      → absorb m i cs ≡ some cs'
      → Coincident m cs'
  absorb-Coincident i cs lt j h =
      let (c, q, l, s) = j.there in
      let (other, r, e) = absorb-some m i cs c q h in
      subst (Coincident m) (sym e) (
        erase-Coincident m i _ lt (
          set-Coincident m cs c (merged c other) q (emplace-IsListed c.event other.event l)
            (emplace-IsSpan c.event other.event s) j.coherent))

  absorb_all-Coincident :
      (is : List ℕ) (cs : List Constructor) {cs' : List Constructor}
      → Rising (m + 1) is
      → Coincident m cs
      → absorb_all m is cs ≡ some cs'
      → Coincident m cs'
  unfolding absorb_all
  absorb_all-Coincident [] cs rising j h = subst (Coincident m) (cc) j
  absorb_all-Coincident (i ∷ is) cs rising j h = elim (Option-cases (absorb m i cs)) [
    | inl stuck ↦ absurd (ground arith)
    | inr (ds, q) ↦
        absorb_all-Coincident is ds (Rising-mono (m + 1) (i + 1) is (omega arith) rising.1)
          (absorb-Coincident i cs (omega arith) j q) (ground arith)
  ]

dispatch-AllCoherent :
    (now timeout : ℤ) (e : Event) (ms : List ℕ) (cs : List Constructor) {cs' : List Constructor}
    → IsCoherent e
    → AllCoherent cs
    → Rising 0 ms
    → dispatch now timeout e ms cs ≡ some cs'
    → AllCoherent cs'
unfolding dispatch
dispatch-AllCoherent now timeout e [] cs w ws rising h =
    let opened : Constructor = record { event = e; timeout = timeout; start = now } in
    subst AllCoherent (cc h) (All-append (λ k. IsCoherent k.event) cs (opened ∷ []) ws (w, tt))
dispatch-AllCoherent now timeout e (m ∷ []) cs w ws rising h =
    (join_at-Coincident e m cs ws h).coherent
dispatch-AllCoherent now timeout e (m ∷ i ∷ is) cs {cs'} w ws rising h =
    elim (Option-cases (join_at e m cs)) [
      | inl stuck ↦ absurd (ground arith)
      | inr (ds, q) ↦
          (absorb_all-Coincident m (i ∷ is) ds {cs' = cs'} rising.1 (join_at-Coincident e m cs ws q)
            (ground arith)).coherent
    ]

-- Taking in an event keeps every constructor a lone event or a coincidence whose window runs
-- exactly from the earliest to the latest start of its hits, if the event is one of these.
pub process_event-AllCoherent :
    (now : ℤ) (e : Event) (f : Filter) {f' : Filter}
    → IsCoherent e
    → AllCoherent f.constructors
    → process_event now e f ≡ some f'
    → AllCoherent f'.constructors
unfolding process_event
process_event-AllCoherent now e f {f'} w ws h =
    elim (Option-cases (dispatch now f.timeout e (matches 0 f.constructors e) f.constructors)) [
      | inl stuck ↦ absurd (ground arith)
      | inr (cs, q) ↦ subst AllCoherent (ground arith) (
          dispatch-AllCoherent now f.timeout e (matches 0 f.constructors e) f.constructors w ws
            (matches-Rising 0 f.constructors e) q)
    ]
