-- ===== src/Pairs/Saving.antt =====
-- `save` and `reset` of `station_coincidence`: the files that are written of the stations and of
-- each pair, and what is begun anew. A file is its path below the data directory, with its text;
-- how a stream writes a number is a parameter.
pub mod Read
pub mod Renewed
use muondetector_cluster.Prelude.{
  ℕ, ◌+◌, ◌-◌, Bool, true, false, List, [], ◌∷◌, ◌++◌, Option, none, some, Text, if◌then◌else◌,
  ◌==◌, ltb, map,
}
use muondetector_cluster.Prelude.Int.{ℤ, pos, ◌+ℤ◌, ◌-ℤ◌, quot_ℤ}
use muondetector_cluster.Prelude.Assoc.{Map, lookup, insert}
use muondetector_cluster.Prelude.Floats.{Double, Floats}
use muondetector_cluster.Prelude.Texts.{codes}
use muondetector_cluster.Prelude.TextMap.{TextMap, assign}
use muondetector_cluster.Event.{UserInfo, Location, user_hash, site_id}
use muondetector_cluster.Histogram.{Histogram, Bin, qualified_bins, integral, clear}
use muondetector_cluster.Matrix
use muondetector_cluster.Pairs.{PairData, Pairs, add_station}

-- `signed` and `unsigned` are decimal numbers, `hex` a hexadecimal one, `real` a floating-point
-- one.
pub record Streams : Type 0 where
  pub signed : ℤ → Text
  pub unsigned : ℕ → Text
  pub hex : ℕ → Text
  pub real : Double → Text

-- The parts of the object that `save` uses.
pub record Recorder : Type 0 where
  pub pairs : Pairs
  pub last_save : ℤ
  pub files : TextMap Text

abbrev pub minute : ℕ
minute = 60000000000

abbrev hour : ℕ
hour = 3600000000000

-- `stations[hash]`: an entry that is not there is made, with empty texts.
abbrev station_of : Map UserInfo → ℕ → UserInfo
station_of stations hash = elim (lookup hash stations) [
  | some user ↦ user
  | none ↦ record { username = []; station_id = [] }
]

-- `stations.emplace` for each station: the first of a hash stays.
unfoldable pub stations_by_hash :
    (Text → ℕ) → List (UserInfo × Location) → Map UserInfo → Map UserInfo
stations_by_hash std_hash [] m = m
stations_by_hash std_hash ((user, place) ∷ rows) m =
    let hash = user_hash std_hash user in
    stations_by_hash std_hash rows (elim (lookup hash m) [ some u ↦ m | none ↦ insert hash user m ])

-- `row_vector`
unfoldable pub row_vector : (Text → ℕ) → List (UserInfo × Location) → Map ℕ → Map ℕ
row_vector std_hash [] m = m
row_vector std_hash ((user, place) ∷ rows) m =
    row_vector std_hash rows (insert (user_hash std_hash user) 0 m)

-- The station matrix, with the row for each station.
unfoldable pub matrix_rows :
    (Text → ℕ) → List (UserInfo × Location) → Map ℕ → Map (Map ℕ) → Map (Map ℕ)
matrix_rows std_hash [] row m = m
matrix_rows std_hash ((user, place) ∷ rows) row m =
    matrix_rows std_hash rows row (insert (user_hash std_hash user) row m)

-- `station_matrix[a][b] = value`
unfoldable pub put_cell : ℕ → ℕ → ℕ → Map (Map ℕ) → Map (Map ℕ)
put_cell a b value m =
    insert a (insert b value (elim (lookup a m) [ some row ↦ row | none ↦ [] ])) m

-- The minutes that a pair that is online was up since it was last looked at.
unfoldable pub settle : ℤ → PairData → PairData
settle now d =
    if d.online == 2
    then record d { uptime = d.uptime +ℤ quot_ℤ (now -ℤ d.last_online) minute; last_online = now }
    else d

-- What a pair begins anew with.
unfoldable pub renew : PairData → PairData
unfolding clear
renew d = record d { uptime = pos 0; hist = clear d.hist }

-- `std::replace` of '/' by '-'
unfoldable pub without_slashes : Text → Text
without_slashes [] = []
without_slashes (c ∷ s) = (if c == b'/' then b'-' else c) ∷ without_slashes s

-- The directory of a pair, with the slash at its end.
unfoldable pub pair_directory : Map UserInfo → PairData → Text
unfolding without_slashes
pair_directory stations d =
    let first_site = without_slashes (site_id (station_of stations d.first)) in
    let second_site = without_slashes (site_id (station_of stations d.second)) in
    if ltb d.first d.second
    then first_site ++ b'_' ∷ second_site ++ b'/' ∷ []
    else second_site ++ b'_' ∷ first_site ++ b'/' ∷ []

module _ (out : Streams) where
  -- A line of the file of the stations.
  unfoldable pub station_lines : (Text → ℕ) → List (UserInfo × Location) → Text
  station_lines std_hash [] = []
  station_lines std_hash ((user, place) ∷ rows) =
      let rest = station_lines std_hash rows in
      out.hex (user_hash std_hash user)
      ++ b';' ∷ site_id user
      ++ b';' ∷ out.real place.lat
      ++ b';' ∷ out.real place.lon
      ++ b';' ∷ out.real place.h
      ++ b'\n' ∷ rest

  -- The loop over `qualified_bins`.
  unfoldable pub bin_lines : List Bin → Text
  bin_lines [] = []
  bin_lines (b ∷ bs) =
      out.signed (quot_ℤ (b.lower +ℤ b.upper) 2)
      ++ b' ' ∷ out.unsigned b.count
      ++ b'\n' ∷ bin_lines bs

  -- The text of a meta file; there is no blank between the sample time and its unit.
  unfoldable pub metadata : ℤ → PairData → Text
  unfolding integral
  metadata sample d =
      codes "bin_width"
      ++ b' ' ∷ out.signed d.hist.width
      ++ b' ' ∷ codes "ns"
      ++ b'\n'
        ∷ (codes "distance"
            ++ b' ' ∷ out.real d.distance
            ++ b' ' ∷ codes "m"
            ++ b'\n'
              ∷ (codes "total"
                  ++ b' ' ∷ out.unsigned (integral d.hist)
                  ++ b' ' ∷ codes "1"
                  ++ b'\n'
                    ∷ (codes "uptime"
                        ++ b' ' ∷ out.signed d.uptime
                        ++ b' ' ∷ codes "min"
                        ++ b'\n'
                          ∷ (codes "sample_time"
                              ++ b' ' ∷ (out.signed sample ++ codes "min")
                              ++ b'\n' ∷ []))))

  -- The two files of a pair.
  unfoldable pub write_pair : Text → ℤ → Map UserInfo → PairData → TextMap Text → TextMap Text
  unfolding bin_lines metadata pair_directory qualified_bins
  write_pair filename sample stations d files =
      let path = pair_directory stations d ++ filename in
      assign (path ++ codes ".meta") (metadata sample d)
        (assign (path ++ codes ".hist") (bin_lines (qualified_bins d.hist)) files)

  -- The loop over the pairs: the pairs as they are left, the matrix and the files.
  unfoldable pub save_pairs :
      Text
      → ℤ
      → ℤ
      → Map UserInfo
      → List PairData
      → Map (Map ℕ)
      → TextMap Text
      → List PairData × Map (Map ℕ) × TextMap Text
  unfolding settle put_cell integral write_pair renew
  save_pairs filename now sample stations [] m files = ([], m, files)
  save_pairs filename now sample stations (d ∷ ds) m files =
      let d' = settle now d in
      let n = integral d'.hist in
      let m' = put_cell d'.second d'.first n (put_cell d'.first d'.second n m) in
      let (left, m'', files') =
        save_pairs filename now sample stations ds m'
          (write_pair filename sample stations d' files) in
      (renew d' ∷ left, m'', files')

  -- The rows of the file of the matrix.
  unfoldable pub heading : Map ℕ → Text
  heading [] = b'\n' ∷ []
  heading ((hash, n) ∷ rows) = b';' ∷ out.hex hash ++ heading rows

  unfoldable pub cells : Map ℕ → Text
  cells [] = b'\n' ∷ []
  cells ((hash, n) ∷ rows) = b';' ∷ out.unsigned n ++ cells rows

  unfoldable pub adjacency : Map (Map ℕ) → Text
  unfolding cells
  adjacency [] = []
  adjacency ((hash, row) ∷ rows) = let rest = adjacency rows in out.hex hash ++ cells row ++ rest

  module _ (fl : Floats) (std_hash : Text → ℕ) where
    -- `sample_time` is the configured one, `grace` the literal 0.9; the clock is read once. The
    -- name of the files is the number of hours since the epoch.
    unfoldable pub save : ℤ → Double → ℤ → Recorder → Recorder
    unfolding station_lines stations_by_hash row_vector matrix_rows save_pairs heading adjacency
    save sample_time grace now r =
        let duration = now -ℤ r.last_save in
        let filename = out.signed (quot_ℤ now hour) in
        let stations = r.pairs.stations in
        let by_hash = stations_by_hash std_hash stations [] in
        let row = row_vector std_hash stations [] in
        let begun =
          assign (filename ++ codes ".stations") (station_lines std_hash stations) r.files in
        let (left, m, files) =
          save_pairs filename now (quot_ℤ duration minute) by_hash r.pairs.matrix.elements
            (matrix_rows std_hash stations row []) begun in
        if fl.lt (fl.of_ℤ duration) (fl.mul (fl.of_ℤ sample_time) grace) then r else record {
          pairs = record r.pairs { matrix = record r.pairs.matrix { elements = left } };
          last_save = now;
          files = assign (filename ++ codes ".adj") (heading row ++ adjacency m) files;
        }

    -- `step` behind its wait, and `post_run`.
    unfoldable pub step : Bool → ℤ → Double → ℤ → Recorder → Recorder
    unfolding save
    step quit sample_time grace now r = if quit then r else save sample_time grace now r

    unfoldable pub post_run : ℤ → Double → ℤ → Recorder → Recorder
    unfolding save
    post_run sample_time grace now r = save sample_time grace now r

-- `reset`: the stations of the supervisor are added to nothing; `none` is the exception of `at`,
-- or an assertion.
module _ (fl : Floats) (straight_distance : Location → Location → Double) (c_0 : Double) where
  unfoldable pub add_stations :
      Bool → (Text → ℕ) → ℤ → List (UserInfo × Location) → Pairs → Option Pairs
  add_stations assertions std_hash now [] p = some p
  add_stations assertions std_hash now ((user, place) ∷ rows) p =
      elim (add_station fl straight_distance c_0 assertions std_hash now user place p) [
        | none ↦ none
        | some p' ↦ add_stations assertions std_hash now rows p'
      ]

  unfoldable pub reset : Bool → (Text → ℕ) → ℤ → List (UserInfo × Location) → Pairs → Option Pairs
  unfolding add_stations Matrix.reset
  reset assertions std_hash now supervised p =
      add_stations assertions std_hash now supervised
        (record { stations = []; matrix = Matrix.reset p.matrix })
