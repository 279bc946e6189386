-- ===== src/Pairs/Triggers.antt =====
-- What a trigger changes.
use muondetector_cluster.Prelude.{
  ℕ, ◌<◌, ◌≡◌, ◌≢◌, refl, List, [], ◌∷◌, some, Text, length, arith, Bool-cases, Option-cases, inl,
  inr, ◌==◌,
}
use muondetector_cluster.Prelude.Int.{ℤ}
use muondetector_cluster.Event.{UserInfo, Location, user_hash}
use muondetector_cluster.Detector.{Trigger}
use muondetector_cluster.Matrix.{at}
use muondetector_cluster.Matrix.Access.{IsValid, IsPair}
use muondetector_cluster.Matrix.Iterate.{iterate_lem}
use muondetector_cluster.Pairs.{Pairs, PairData, find_station, switch_online, get_trigger}

-- One column for each station.
pub record IsMatched (p : Pairs) : Type 0 where
  pub valid : IsValid p.matrix
  pub columns : p.matrix.columns ≡ length p.stations

find_station-lt :
    (std_hash : Text → ℕ) (hash : ℕ) (rows : List (UserInfo × Location)) (i : ℕ)
    → find_station std_hash hash rows ≡ some i
    → i < length rows
unfolding find_station
find_station-lt std_hash hash [] i e = absurd (cc (e))
find_station-lt std_hash hash ((user, location) ∷ rows) i e =
    elim (Bool-cases (user_hash std_hash user == hash)) [
      | inl found ↦ ground (arith, e, found)
      | inr other ↦ elim (Option-cases (find_station std_hash hash rows)) [
        | inl q ↦ absurd (ground (arith, e, other, q))
        | inr (j, q) ↦ ground (arith, e, other, q, find_station-lt std_hash hash rows j q)
      ]
    ]

-- A trigger of a known station throws no exception; it switches every pair of the station, once,
-- and leaves all other pairs and the stations as they are.
pub get_trigger_lem :
    (std_hash : Text → ℕ) (now : ℤ) (t : Trigger) (p : Pairs) (index : ℕ)
    → IsMatched p
    → find_station std_hash t.hash p.stations ≡ some index
    → (p' : Pairs) × (get_trigger std_hash now t p ≡ some p')
      × IsValid p'.matrix
      × (p'.stations ≡ p.stations)
      × ((y : ℕ) (d : PairData)
          → IsPair p.matrix index y
          → at index y p.matrix ≡ some d
          → at index y p'.matrix ≡ some (switch_online now t.status d))
      × ((x y : ℕ)
          → IsPair p.matrix x y
          → index ≢ x
          → index ≢ y
          → at x y p'.matrix ≡ at x y p.matrix)
get_trigger_lem std_hash now t p index m found =
    let below = find_station-lt std_hash t.hash p.stations index found in
    let (changed, made, valid, mapped, others) =
      iterate_lem index (switch_online now t.status) p.matrix m.valid
        (omega (arith, below, m.columns)) in
    (
      record p { matrix = changed },
      unfold get_trigger in ground (arith, found, made),
      valid,
      refl,
      mapped,
      others,
    )
