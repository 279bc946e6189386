-- ===== src/Pairs/Stations.antt =====
-- What a new station changes.
use muondetector_cluster.Prelude.{
  ℕ, zero, suc, ◌+◌, ◌≤◌, ◌<◌, ◌≡◌, ◌≢◌, refl, ap, ◌∙◌, List, [], ◌∷◌, ◌++◌, some, none, true,
  false, Text, length, length-append, get_elem?-of_lt, arith, inl, inr,
}
use muondetector_cluster.Prelude.Int.{ℤ}
use muondetector_cluster.Prelude.Floats.{Double, Floats}
use muondetector_cluster.Event.{UserInfo, Location, user_hash}
use muondetector_cluster.Matrix.{UpperMatrix, at, write_at, increase, try_increase, emplace}
use muondetector_cluster.Matrix.Position.{columns_limit}
use muondetector_cluster.Matrix.Access.{
  IsValid, IsPair, emplace_lem, increase_lem, emplace-write_at,
}
use muondetector_cluster.Pairs.{Pairs, PairData, pair_data, connect, no_pair, add_station}
use muondetector_cluster.Pairs.Triggers.{IsMatched}

-- The matrix stays valid and as wide, and pairs without `x` keep their data.
record Keeps (x : ℕ) (m m' : UpperMatrix PairData) : Type 0 where
  valid : IsValid m'
  columns : m'.columns ≡ m.columns
  others : (a b : ℕ) → IsPair m a b → x ≢ a → x ≢ b → at a b m' ≡ at a b m

emplace-Keeps :
    (x y : ℕ) (d : PairData) (m : UpperMatrix PairData)
    → IsValid m
    → y < x
    → x < m.columns
    → Keeps x m (emplace x y d m)
emplace-Keeps x y d m v below inside =
    let here : IsPair m x y = record {
      apart = omega (arith, below);
      first_in = inside;
      second_in = omega (arith, below, inside);
    } in
    record {
      valid = (emplace_lem x y x y d m v here here).3;
      columns = ap (λ t. t.columns) (emplace-write_at x y d m v here) ∙ unfold write_at in refl;
      others = λ a b p xa xb. elim (emplace_lem x y a b d m v here p).2 [
        | inl (top, bottom) ↦ absurd (omega (arith, top, bottom, below, xa, xb))
        | inr same ↦ same
      ];
    }

-- The new number of columns is below itself in the assertion.
try_increase-asserted : (d : PairData) (m : UpperMatrix PairData) → try_increase true d m ≡ none
unfolding try_increase
try_increase-asserted d m = ground arith

module _ (fl : Floats) (straight_distance : Location → Location → Double) (c_0 : Double) where
  connect-Keeps :
      (std_hash : Text → ℕ) (now : ℤ) (x : ℕ) (user : UserInfo) (place : Location)
      (stations : List (UserInfo × Location)) (left y : ℕ) (m : UpperMatrix PairData)
      → IsValid m
      → y + left ≤ x
      → x < m.columns
      → x < length stations
      → (m' : UpperMatrix PairData) × (connect fl straight_distance c_0 std_hash now x user place
            stations left y m
          ≡ some m')
        × Keeps x m m'
  unfolding connect
  connect-Keeps h now x user place stations zero y m v below inside some_left =
      (m, refl, record { valid = v; columns = refl; others = λ a b p xa xb. refl })
  connect-Keeps h now x user place stations (suc left) y m v below inside known =
      let (other, q) = get_elem?-of_lt stations y (omega (arith, below, known)) in
      let d =
        pair_data fl straight_distance c_0 now (user_hash h user) (user_hash h other.0)
          (straight_distance place other.1) in
      let k = emplace-Keeps x y d m v (omega (arith, below)) inside in
      let (m', made, more) =
        connect-Keeps h now x user place stations left (y + 1) (emplace x y d m) k.valid
          (omega (arith, below)) (omega (arith, inside, k.columns)) known in
      (
        m',
        ground (arith, q, made),
        record {
          valid = more.valid;
          columns = more.columns ∙ k.columns;
          others = λ a b p xa xb.
              more.others a b
                (record {
                  apart = p.apart;
                  first_in = omega (arith, p.first_in, k.columns);
                  second_in = omega (arith, p.second_in, k.columns);
                })
                xa xb
              ∙ k.others a b p xa xb;
        },
      )

  -- If assertions are compiled in, any new station ends the program. If they are not, and the
  -- matrix has one column for each station, less than 2^32 with the new one, a new station throws
  -- no exception: it comes behind the others, the matrix has one column for each station again, and
  -- every pair of the stations that were there keeps its data.
  pub add_station_lem :
      (std_hash : Text → ℕ) (now : ℤ) (user : UserInfo) (place : Location) (p : Pairs)
      → IsMatched p
      → p.matrix.columns + 1 < columns_limit
      → (add_station fl straight_distance c_0 true std_hash now user place p ≡ none)
        × (p' : Pairs) × (add_station fl straight_distance c_0 false std_hash now user place p
            ≡ some p')
        × IsMatched p'
        × (p'.stations ≡ p.stations ++ (user, place) ∷ [])
        × ((a b : ℕ) → IsPair p.matrix a b → at a b p'.matrix ≡ at a b p.matrix)
  add_station_lem h now user place p m small =
      let d = no_pair fl straight_distance c_0 now in
      let (valid, index, wider, kept, fresh) = increase_lem d p.matrix m.valid small in
      let stations = p.stations ++ (user, place) ∷ [] in
      let size = length-append p.stations ((user, place) ∷ []) in
      let x = (increase d p.matrix).0 in
      let (m', made, k) =
        connect-Keeps h now x user place stations x 0 (increase d p.matrix).1 valid (omega arith)
          (omega (arith, index, wider)) (omega (arith, index, size, m.columns)) in
      (
        unfold add_station in ground (arith, try_increase-asserted d p.matrix),
        record { stations = stations; matrix = m' },
        unfold add_station try_increase in ground (arith, made),
        record { valid = k.valid; columns = omega (arith, k.columns, wider, size, m.columns) },
        refl,
        (λ a b q.
            k.others a b
              (record {
                apart = q.apart;
                first_in = omega (arith, q.first_in, wider);
                second_in = omega (arith, q.second_in, wider);
              })
              (omega (arith, q.first_in, index)) (omega (arith, q.second_in, index))
            ∙ kept a b q),
      )
