-- ===== src/Filter/Contest.antt =====
-- What `process(event_t)` does when several constructors contest an event, and when it reads
-- outside the vector.
pub mod Counts
pub mod Neighbour
use muondetector_cluster.Prelude.{
  ℕ, zero, suc, ◌+◌, ◌-◌, ◌≤◌, ◌<◌, ◌≡◌, ◌≢◌, refl, sym, ◌∙◌, ap, Bool, true, false, List, [], ◌∷◌,
  ◌++◌, Option, some, none, arith, length, length-append, length-set, get_elem?, set, erase_idx,
  length-erase_idx, All, Option-cases, get_elem?-set_self, get_elem?-set_ne, get_elem?-of_lt,
  get_elem?-lt, get_elem?-ge, get_elem?-erase_idx_below, get_elem?-erase_idx_above, inl, inr, subst,
}
use muondetector_cluster.Prelude.Int.{ℤ}
use muondetector_cluster.Prelude.Sums.{tally, tally-append}
use muondetector_cluster.Event.{Event, EventData, emplace}
use muondetector_cluster.Constructor.{Constructor}
use muondetector_cluster.Filter.{
  Filter, join, join_at, absorb, absorb_all, dispatch, process_event, matches,
}
use muondetector_cluster.Filter.Matches.{admits, Rising, matches-Rising}
use muondetector_cluster.Filter.Conserve.Absorb.{merged, absorb-some}
use muondetector_cluster.State.{increase_event_count, set_queue_size}
use Counts.{length-matches, matches-below, matches-append_one, Last}

join_at-of_lt :
    (e : Event) (m : ℕ) (cs : List Constructor)
    → m < length cs
    → (c : Constructor) × (get_elem? cs m ≡ some c) × (join_at e m cs ≡ some (set cs m (join e c)))
unfolding join_at
join_at-of_lt e m cs h = let (c, q) = get_elem?-of_lt cs m h in (c, q, ground arith)

pub absorb-of_lt :
    (m i : ℕ) (cs : List Constructor) (c other : Constructor)
    → get_elem? cs m ≡ some c
    → get_elem? cs i ≡ some other
    → absorb m i cs ≡ some (erase_idx (set cs m (merged c other)) i)
unfolding absorb
absorb-of_lt m i cs c other q r = ground arith

dispatch-of_two :
    (now timeout : ℤ) (e : Event) (ms : List ℕ) (cs : List Constructor)
    → length ms ≤ 2
    → All (λ m. m < length cs) ms
    → Rising 0 ms
    → (cs' : List Constructor) × (dispatch now timeout e ms cs ≡ some cs')
unfolding dispatch
dispatch-of_two now timeout e [] cs h a r = (_, refl)
dispatch-of_two now timeout e (m ∷ []) cs h a r = let (c, q, j) = join_at-of_lt e m cs a.0 in (_, j)
dispatch-of_two now timeout e (m ∷ i ∷ k ∷ ms) cs h a r = absurd (omega arith)
dispatch-of_two now timeout e (m ∷ i ∷ []) cs h a r =
    let (c, q, j) = join_at-of_lt e m cs a.0 in
    let (other, o) = get_elem?-of_lt cs i a.1.0 in
    (
      erase_idx (set (set cs m (join e c)) m (merged (join e c) other)) i,
      rw j (
          rw
            (absorb-of_lt m i (set cs m (join e c)) (join e c) other
              (get_elem?-set_self cs m (join e c) a.0)
              (get_elem?-set_ne cs {i = m} {j = i} (join e c) (omega arith) ∙ o))
            refl),
    )

-- The filter with new constructors, its supervisor told of one more incoming event.
abbrev pub after_event : Filter → List Constructor → Filter
after_event f cs = record f {
  constructors = cs;
  supervisor = set_queue_size (length f.constructors) (increase_event_count true 1 f.supervisor);
}

-- With at most two admitting constructors `process(event_t)` stays inside the vector and returns.
pub process_event-some :
    (now : ℤ) (e : Event) (f : Filter)
    → tally (admits e) f.constructors ≤ 2
    → (f' : Filter) × (process_event now e f ≡ some f')
unfolding process_event
process_event-some now e f h =
    let (cs, q) =
      dispatch-of_two now f.timeout e (matches 0 f.constructors e) f.constructors
        (omega (arith, length-matches 0 f.constructors e))
        (matches-below 0 _ f.constructors e (omega arith)) (matches-Rising 0 f.constructors e) in
    (after_event f cs, rw q refl)

-- The loop's body takes one constructor out.
length-absorb :
    (m i : ℕ) (cs : List Constructor) {cs' : List Constructor}
    → absorb m i cs ≡ some cs'
    → length cs' + 1 ≡ length cs
unfolding absorb
length-absorb m i cs h = elim (Option-cases (get_elem? cs m)) [
  | inl missing ↦ elim (Option-cases (get_elem? cs i)) [
    | inl absent ↦ absurd (ground arith)
    | inr (other, r) ↦ absurd (ground arith)
  ]
  | inr (c, q) ↦
      let (other, r, e) = absorb-some m i cs c q h in
      omega (
        arith,
        ap length e,
        length-set cs m (merged c other),
        length-erase_idx (set cs m (merged c other)) i
            (omega (arith, length-set cs m (merged c other), get_elem?-lt cs i other r)),
      )
]

length-join_at :
    (e : Event) (m : ℕ) (cs : List Constructor) {cs' : List Constructor}
    → join_at e m cs ≡ some cs'
    → length cs' ≡ length cs
unfolding join_at
length-join_at e m cs {cs'} h = elim (Option-cases (get_elem? cs m)) [
  | inl missing ↦ absurd (ground arith)
  | inr (c, q) ↦
      let made : set cs m (join e c) ≡ cs' = ground arith in
      omega (arith, ap length made, length-set cs m (join e c))
]

-- The loop faults if its last index is not below the number of constructors it starts with.
absorb_all-none :
    (m k : ℕ) (is : List ℕ) (cs : List Constructor)
    → length cs ≤ k
    → Last k is
    → absorb_all m is cs ≡ none
unfolding absorb_all
absorb_all-none m k [] cs h l = absurd l
absorb_all-none m k (i ∷ []) cs h l = unfold absorb in ground (arith, get_elem?-ge cs i)
absorb_all-none m k (i ∷ x ∷ is) cs h l = elim (Option-cases (absorb m i cs)) [
  | inl stuck ↦ ground arith
  | inr (ds, q) ↦
      ground (arith, absorb_all-none m k (x ∷ is) ds (omega (arith, length-absorb m i cs q)))
]

dispatch-of_three :
    (now timeout : ℤ) (e : Event) (ms : List ℕ) (cs : List Constructor) (k : ℕ)
    → 3 ≤ length ms
    → Last k ms
    → k + 1 ≡ length cs
    → dispatch now timeout e ms cs ≡ none
unfolding dispatch absorb_all
dispatch-of_three now timeout e [] cs k h l b = absurd (omega arith)
dispatch-of_three now timeout e (m ∷ []) cs k h l b = absurd (omega arith)
dispatch-of_three now timeout e (m ∷ i ∷ []) cs k h l b = absurd (omega arith)
dispatch-of_three now timeout e (m ∷ i ∷ x ∷ ms) cs k h l b = elim (Option-cases (join_at e m cs)) [
  | inl stuck ↦ ground arith
  | inr (ds, q) ↦ elim (Option-cases (absorb m i ds)) [
    | inl stuck ↦ ground arith
    | inr (es, r) ↦ ground (
      arith,
      absorb_all-none m k (x ∷ ms) es
          (omega (arith, length-absorb m i ds r, length-join_at e m cs q)) l,
    )
  ]
]

-- Erasing inside the loop makes the remaining indices stale: whenever the last constructor in the
-- buffer admits the event and two or more before it do, `process(event_t)` reads outside the
-- vector.
pub process_event_out_of_range :
    (now : ℤ) (e : Event) (f : Filter) (pre : List Constructor) (c : Constructor)
    → f.constructors ≡ pre ++ c ∷ []
    → admits e c ≡ true
    → 2 ≤ tally (admits e) pre
    → process_event now e f ≡ none
unfolding process_event
process_event_out_of_range now e f pre c q a h =
    rw
      (dispatch-of_three now f.timeout e (matches 0 f.constructors e) f.constructors (length pre)
        (omega (
          arith,
          length-matches 0 f.constructors e,
          ap (tally (admits e)) q,
          tally-append (admits e) pre (c ∷ []),
          last_counts,
        ))
        (rw q (matches-append_one 0 (length pre) pre c e a (omega arith)))
        (omega (arith, ap length q, length-append pre (c ∷ []))))
      refl
  where
    last_counts : tally (admits e) (c ∷ []) ≡ 1
    last_counts = ground arith
