-- ===== src/Filter/Conserve.antt =====
-- No hit is lost and none is made up on the way through the filter's buffer.
pub mod Absorb
use muondetector_cluster.Prelude.{
  ℕ, zero, suc, ◌+◌, ◌≤◌, ◌<◌, ◌≡◌, refl, sym, ◌∙◌, ap, Bool, List, [], ◌∷◌, ◌++◌, Option, some,
  none, arith, length, get_elem?, set, All, All-append, All-set, All-get_elem?, Option-cases,
  get_elem?-set_self, get_elem?-lt, inl, inr, subst,
}
use muondetector_cluster.Prelude.Int.{ℤ}
use muondetector_cluster.Prelude.Sums.{sum_by, tally, tally-append, sum_by-append, sum_by-set}
use muondetector_cluster.Event.{Event, EventData}
use muondetector_cluster.Event.Hits.{hits, IsWhole}
use muondetector_cluster.Constructor.{Constructor}
use muondetector_cluster.Filter.{
  Filter, join, join_at, absorb_all, dispatch, process_event, matches, absorb,
}
use muondetector_cluster.Filter.Matches.{Rising, matches-Rising}
use muondetector_cluster.Filter.Joins.{IsListed, hits-join, join-IsListed}
use Absorb.{held, AllWhole, Joined, absorb_all-Joined}

pub join_at-Joined :
    (p : EventData → Bool) (e : Event) (m : ℕ) (cs : List Constructor) {cs' : List Constructor}
    → IsWhole e
    → AllWhole cs
    → join_at e m cs ≡ some cs'
    → Joined p m (sum_by (held p) cs + tally p (hits e)) cs'
unfolding join_at
join_at-Joined p e m cs {cs'} w ws h = elim (Option-cases (get_elem? cs m)) [
  | inl missing ↦ absurd (none_lem missing)
  | inr (c, q) ↦ subst (Joined p m (sum_by (held p) cs + tally p (hits e))) (found c q) (made c q)
]
  where
    none_lem : get_elem? cs m ≡ none → ⊥
    none_lem missing = ground arith

    found : (c : Constructor) → get_elem? cs m ≡ some c → set cs m (join e c) ≡ cs'
    found c q = ground arith

    made :
        (c : Constructor)
        → get_elem? cs m ≡ some c
        → Joined p m (sum_by (held p) cs + tally p (hits e)) (set cs m (join e c))
    made c q =
        let wc : IsWhole c.event = All-get_elem? (λ k. IsWhole k.event) cs m c ws q in
        record {
          total = omega (
            arith,
            sum_by-set (held p) cs m c (join e c) q,
            ap (tally p) (hits-join e c wc),
            tally-append p (hits c.event) (hits e),
          );
          there = (
            join e c,
            get_elem?-set_self cs m (join e c) (get_elem?-lt cs m c q),
            join-IsListed e c wc,
          );
          whole =
              All-set (λ k. IsWhole k.event) cs m (join e c) ws
                (omega (arith, join-IsListed e c wc));
        }

dispatch-total :
    (p : EventData → Bool) (now timeout : ℤ) (e : Event) (ms : List ℕ) (cs : List Constructor)
    {cs' : List Constructor}
    → IsWhole e
    → AllWhole cs
    → Rising 0 ms
    → dispatch now timeout e ms cs ≡ some cs'
    → (sum_by (held p) cs' ≡ sum_by (held p) cs + tally p (hits e)) × AllWhole cs'
unfolding dispatch
dispatch-total p now timeout e [] cs {cs'} w ws rising h =
    let opened : Constructor = record { event = e; timeout = timeout; start = now } in
    let made : cs ++ opened ∷ [] ≡ cs' = cc h in
    (
      rw (← made) (omega (arith, sum_by-append (held p) cs (opened ∷ []))),
      subst AllWhole made (All-append (λ k. IsWhole k.event) cs (opened ∷ []) ws (w, tt)),
    )
dispatch-total p now timeout e (m ∷ []) cs w ws rising h =
    let j = join_at-Joined p e m cs w ws h in (j.total, j.whole)
dispatch-total p now timeout e (m ∷ i ∷ is) cs {cs'} w ws rising h =
    elim (Option-cases (join_at e m cs)) [
      | inl stuck ↦ absurd (ground arith)
      | inr (ds, q) ↦
          let j =
            absorb_all-Joined p m (sum_by (held p) cs + tally p (hits e)) (i ∷ is) ds {cs' = cs'}
              rising.1 (join_at-Joined p e m cs w ws q) (ground arith) in
          (j.total, j.whole)
    ]

-- When the filter takes in an event, on any number of matches, then for every test on hits the
-- buffer holds afterwards as many hits that pass as before and in the event together, if no event
-- there lists exactly one hit; and again none does.
pub process_event_conserves :
    (p : EventData → Bool) (now : ℤ) (e : Event) (f : Filter) {f' : Filter}
    → IsWhole e
    → AllWhole f.constructors
    → process_event now e f ≡ some f'
    → (sum_by (held p) f'.constructors ≡ sum_by (held p) f.constructors + tally p (hits e))
      × AllWhole f'.constructors
unfolding process_event
process_event_conserves p now e f {f'} w ws h =
    elim (Option-cases (dispatch now f.timeout e (matches 0 f.constructors e) f.constructors)) [
      | inl stuck ↦ absurd (ground arith)
      | inr (cs, q) ↦
          let done : cs ≡ f'.constructors = ground arith in
          rw (← done) (
            dispatch-total p now f.timeout e (matches 0 f.constructors e) f.constructors w ws
              (matches-Rising 0 f.constructors e) q)
    ]
