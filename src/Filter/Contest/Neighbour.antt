-- ===== src/Filter/Contest/Neighbour.antt =====
-- What stale indices do to the third of three contesting constructors.
use muondetector_cluster.Prelude.{
  ℕ, suc, ◌≤◌, ◌<◌, ◌≡◌, refl, ◌∙◌, List, [], ◌∷◌, some, arith, get_elem?, set, erase_idx,
  get_elem?-set_self, get_elem?-set_ne, get_elem?-lt, get_elem?-erase_idx_below,
  get_elem?-erase_idx_above,
}
use muondetector_cluster.Prelude.Int.{ℤ}
use muondetector_cluster.Event.{Event}
use muondetector_cluster.Constructor.{Constructor}
use muondetector_cluster.Filter.{
  Filter, join, join_at, absorb_all, dispatch, process_event, matches,
}
use muondetector_cluster.Filter.Matches.{Rising, matches-Rising}
use muondetector_cluster.Filter.Conserve.Absorb.{merged}
use muondetector_cluster.Filter.Contest.{absorb-of_lt, after_event}

-- The buffer after an event joins `a` at `m`, which then takes `b` at `i` and what the loop finds
-- at its third index.
module _ (e : Event) (cs : List Constructor) (m i j : ℕ) (a b d : Constructor) where
  abbrev pair : Constructor
  pair = merged (join e a) b

  abbrev triple : Constructor
  triple = merged pair d

  abbrev joined : List Constructor
  joined = set cs m (join e a)

  abbrev first_erased : List Constructor
  first_erased = erase_idx (set joined m pair) i

  abbrev both_erased : List Constructor
  both_erased = erase_idx (set first_erased m triple) (suc j)

  module _ (lt : m < i) (le : i ≤ j) (ga : get_elem? cs m ≡ some a) where
    joined_elsewhere : (k : ℕ) → m < k → get_elem? (set joined m pair) k ≡ get_elem? cs k
    joined_elsewhere k h =
        get_elem?-set_ne joined {i = m} {j = k} pair (omega arith)
        ∙ get_elem?-set_ne cs {i = m} {j = k} (join e a) (omega arith)

    joined_at : get_elem? joined m ≡ some (join e a)
    joined_at = get_elem?-set_self cs m (join e a) (get_elem?-lt cs m a ga)

    first_erased_at : get_elem? first_erased m ≡ some pair
    first_erased_at =
        get_elem?-erase_idx_below (set joined m pair) i m lt
        ∙ get_elem?-set_self joined m pair (get_elem?-lt joined m (join e a) joined_at)

    first_erased_above : (k : ℕ) → i ≤ k → get_elem? first_erased k ≡ get_elem? cs (suc k)
    first_erased_above k h =
        get_elem?-erase_idx_above (set joined m pair) i k h ∙ joined_elsewhere (suc k) (omega arith)

    both_erased_at : get_elem? both_erased m ≡ some triple
    both_erased_at =
        get_elem?-erase_idx_below (set first_erased m triple) (suc j) m (omega arith)
        ∙ get_elem?-set_self first_erased m triple
            (get_elem?-lt first_erased m pair first_erased_at)

    both_erased_before : get_elem? both_erased j ≡ get_elem? cs (suc j)
    both_erased_before =
        get_elem?-erase_idx_below (set first_erased m triple) (suc j) j (omega arith)
        ∙ get_elem?-set_ne first_erased {i = m} {j = j} triple (omega arith)
        ∙ first_erased_above j le

    dispatch-three :
        (now timeout : ℤ)
        → get_elem? cs i ≡ some b
        → get_elem? cs (suc (suc j)) ≡ some d
        → dispatch now timeout e (m ∷ i ∷ suc j ∷ []) cs ≡ some both_erased
    unfolding dispatch absorb_all join_at
    dispatch-three now timeout gb gd =
        rw (ga, absorb-of_lt m i joined (join e a) b joined_at (other_at gb))
          (rw (absorb-of_lt m (suc j) first_erased pair d first_erased_at (third_at gd)) refl)
      where
        other_at : get_elem? cs i ≡ some b → get_elem? joined i ≡ some b
        other_at h = get_elem?-set_ne cs {i = m} {j = i} (join e a) (omega arith) ∙ h

        third_at : get_elem? cs (suc (suc j)) ≡ some d → get_elem? first_erased (suc j) ≡ some d
        third_at h = first_erased_above (suc j) (omega arith) ∙ h

-- With three admitting constructors, at `m`, `i` and `j + 1`, and another behind them, the loop
-- takes the constructor behind the third in place of the third: the third stays in the buffer, and
-- the hits of its neighbour are added to the coincidence whether the neighbour admits the event or
-- not.
pub process_event_takes_neighbour :
    (now : ℤ) (e : Event) (f : Filter) (m i j : ℕ) (a b d : Constructor)
    → matches 0 f.constructors e ≡ m ∷ i ∷ suc j ∷ []
    → get_elem? f.constructors m ≡ some a
    → get_elem? f.constructors i ≡ some b
    → get_elem? f.constructors (suc (suc j)) ≡ some d
    → (f' : Filter) × (process_event now e f ≡ some f')
      × (get_elem? f'.constructors m ≡ some (merged (merged (join e a) b) d))
      × (get_elem? f'.constructors j ≡ get_elem? f.constructors (suc j))
unfolding process_event
process_event_takes_neighbour now e f m i j a b d q ga gb gd =
    let cs = f.constructors in
    let rising : Rising 0 (m ∷ i ∷ suc j ∷ []) = rw q at (matches-Rising 0 cs e) in
    let lt : m < i = omega (arith, rising.1.0) in
    let le : i ≤ j = omega (arith, rising.1.1.0) in
    (
      after_event f (both_erased e cs m i j a b d),
      rw (q, dispatch-three e cs m i j a b d lt le ga now f.timeout gb gd) refl,
      both_erased_at e cs m i j a b d lt le ga,
      both_erased_before e cs m i j a b d lt le ga,
    )
