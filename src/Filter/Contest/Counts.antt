-- ===== src/Filter/Contest/Counts.antt =====
-- How many matches there are, and where the last stands.
use muondetector_cluster.Prelude.{
  ℕ, ◌+◌, ◌≤◌, ◌<◌, ◌≡◌, refl, true, List, [], ◌∷◌, ◌++◌, arith, length, All,
}
use muondetector_cluster.Prelude.Sums.{tally}
use muondetector_cluster.Event.{Event}
use muondetector_cluster.Constructor.{Constructor}
use muondetector_cluster.Filter.{matches}
use muondetector_cluster.Filter.Matches.{admits}

pub length-matches :
    (i : ℕ) (cs : List Constructor) (e : Event) → length (matches i cs e) ≡ tally (admits e) cs
unfolding matches
length-matches i [] e = refl
length-matches i (c ∷ cs) e = ground (arith, length-matches (i + 1) cs e)

pub matches-below :
    (i hi : ℕ) (cs : List Constructor) (e : Event)
    → i + length cs ≤ hi
    → All (λ m. m < hi) (matches i cs e)
unfolding matches
matches-below i hi [] e h = tt
matches-below i hi (c ∷ cs) e h = ground (arith, matches-below (i + 1) hi cs e)

-- The list ends in `k`.
abbrev pub Last : ℕ → List ℕ → Type 0
Last k [] = ⊥
Last k (m ∷ []) = m ≡ k
Last k (m ∷ x ∷ ms) = Last k (x ∷ ms)

pub Last-cons : (k m : ℕ) (ms : List ℕ) → Last k ms → Last k (m ∷ ms)
Last-cons k m [] h = absurd h
Last-cons k m (x ∷ ms) h = h

-- If the last constructor admits the event, its index is the last match.
pub matches-append_one :
    (i k : ℕ) (pre : List Constructor) (c : Constructor) (e : Event)
    → admits e c ≡ true
    → i + length pre ≡ k
    → Last k (matches i (pre ++ c ∷ []) e)
unfolding matches
matches-append_one i k [] c e h q = ground arith
matches-append_one i k (x ∷ pre) c e h q = ground (
  arith,
  matches-append_one (i + 1) k pre c e h,
  Last-cons k i (matches (i + 1) (pre ++ c ∷ []) e),
)
