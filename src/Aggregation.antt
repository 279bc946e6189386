-- ===== src/Aggregation.antt =====
-- The program `aggregation` (src/aggregation.cpp), which adds up the histograms of a directory. A
-- directory is its files by their names; `directory_iterator` gives them in the order of the list.
-- The conversions between numbers and texts are parameters. An exception ends the program.
pub mod Entries
pub mod Reading
pub mod Saved
pub mod Samples
mod Tests
use muondetector_cluster.Prelude.{
  ℕ, ◌+◌, ◌%◌, ◌^◌, Bool, true, false, not, ◌&&◌, ◌||◌, List, [], ◌∷◌, ◌++◌, Option, none, some,
  if◌then◌else◌, ◌==◌, Text,
}
use muondetector_cluster.Prelude.Int.{ℤ, pos_part, neg_part, ltb_ℤ}
use muondetector_cluster.Prelude.Floats.{Double}
use muondetector_cluster.Prelude.Texts.{codes, text_eq}
use muondetector_cluster.Prelude.TextMap.{TextMap, find, assign}
use muondetector_cluster.Message.{is_empty}
use muondetector_cluster.Message.Lines.{getlines, cut, tokens}
use muondetector_cluster.Source.Run.{Run, done, ◌>>=◌, Numbers}

abbrev pub eq_ℤ : ℤ → ℤ → Bool
eq_ℤ a b = pos_part a + neg_part b == pos_part b + neg_part a

-- `std::map<std::int32_t, std::uint32_t>`
abbrev pub Entries : Type 0
Entries = List (ℤ × ℕ)

-- `m_entries[bin] += count`
unfoldable pub bump : ℤ → ℕ → Entries → Entries
bump bin count [] = (bin, count % 2 ^ 32) ∷ []
bump bin count ((b, c) ∷ rows) =
    let rest = bump bin count rows in
    if eq_ℤ b bin
    then (b, (c + count) % 2 ^ 32) ∷ rows
    else if ltb_ℤ bin b
    then (bin, count % 2 ^ 32) ∷ (b, c) ∷ rows
    else (b, c) ∷ rest

abbrev pub Files : Type 0
Files = TextMap Text

pub record Aggregator : Type 0 where
  pub entries : Entries
  pub distance : Double
  pub bin_width : ℕ
  pub n : ℕ
  pub uptime : ℕ
  pub sample_time : ℕ
  pub input_files : List Text

-- `std::to_string`, and the value of a `double` that is zero.
pub record Printers : Type 0 where
  pub signed : ℤ → Text
  pub unsigned : ℕ → Text
  pub fixed : Double → Text
  pub zero_double : Double

-- `stem` and `extension` of a file's name: before the last dot and from it on, unless it is the
-- first character. `none` is a text without a dot.
unfoldable pub last_dot : Text → Option (Text × Text)
last_dot [] = none
last_dot (c ∷ s) = elim (last_dot s) [
  | some (stem, extension) ↦ some (c ∷ stem, extension)
  | none ↦ if c == b'.' then some ([], c ∷ s) else none
]

unfoldable pub stem_extension : Text → Text × Text
unfolding last_dot
stem_extension name = elim (last_dot name) [
  | none ↦ (name, [])
  | some (stem, extension) ↦ if is_empty stem then (name, []) else (stem, extension)
]

-- `find_files`; the check for a histogram beside the file does nothing.
unfoldable pub find_stems : Files → List Text
unfolding stem_extension
find_stems [] = []
find_stems ((name, content) ∷ files) =
    let rest = find_stems files in
    let (stem, extension) = stem_extension name in
    if text_eq extension (codes ".meta") then stem ∷ rest else rest

unfoldable pub find_files : Files → Aggregator → Bool × Aggregator
unfolding find_stems
find_files files a =
    let a' = record a { input_files = a.input_files ++ find_stems files } in
    (not (is_empty a'.input_files), a')

-- A stream of a file that is not there has no lines.
abbrev pub content_of : Option Text → Text
content_of none = []
content_of (some content) = content

module _ (std : Numbers) where
  -- A line of a histogram, by its fields.
  unfoldable pub hist_fields : List Text → Aggregator → Run Aggregator
  hist_fields (bin ∷ count ∷ []) a = std.stoi bin >>= λ b.
      std.stoul 10 count >>= λ c. done (record a { entries = bump b (c % 2 ^ 32) a.entries })
  hist_fields _ a = done a

  -- A line of a meta file, by its fields.
  unfoldable pub meta_fields : List Text → Aggregator → Run Aggregator
  meta_fields (key ∷ value ∷ unit ∷ []) a =
      if text_eq key (codes "distance")
      then (std.stod value >>= λ d. done (record a { distance = d }))
      else if text_eq key (codes "total")
      then (std.stoul 10 value >>= λ v. done (record a { n = (a.n + v) % 2 ^ 32 }))
      else if text_eq key (codes "uptime")
      then (std.stoul 10 value >>= λ v. done (record a { uptime = (a.uptime + v) % 2 ^ 32 }))
      else if text_eq key (codes "bin_width")
      then (std.stoul 10 value >>= λ v. done (record a { bin_width = v % 2 ^ 32 }))
      else if text_eq key (codes "sample_time")
      then (std.stoul 10 value >>= λ v.
          done (record a { sample_time = (a.sample_time + v) % 2 ^ 32 }))
      else done a
  meta_fields _ a = done a

  -- The two loops over the lines of a stream.
  unfoldable pub fill_hist : List Text → Aggregator → Run Aggregator
  unfolding hist_fields tokens
  fill_hist [] a = done a
  fill_hist (line ∷ lines) a = hist_fields (tokens line) a >>= fill_hist lines

  unfoldable pub fill_meta : List Text → Aggregator → Run Aggregator
  unfolding meta_fields tokens
  fill_meta [] a = done a
  fill_meta (line ∷ lines) a = meta_fields (tokens line) a >>= fill_meta lines

  -- The body of the loop of `fill`.
  unfoldable pub fill_file : Files → Text → Aggregator → Run Aggregator
  unfolding fill_hist fill_meta cut
  fill_file files file a =
      fill_hist (getlines b'\n' (content_of (find (file ++ codes ".hist") files))) a
      >>= fill_meta (getlines b'\n' (content_of (find (file ++ codes ".meta") files)))

  unfoldable pub fill_all : Files → List Text → Aggregator → Run Aggregator
  unfolding fill_file
  fill_all files [] a = done a
  fill_all files (file ∷ more) a = fill_file files file a >>= fill_all files more

  unfoldable pub fill : Files → Aggregator → Run Aggregator
  unfolding fill_all
  fill files a = fill_all files a.input_files a

abbrev pub meta_line : Text → Text → Text → Text → Text
meta_line key value unit rest = key ++ b' ' ∷ value ++ b' ' ∷ unit ++ b'\n' ∷ rest

module _ (print : Printers) where
  -- The loop that writes the entries.
  unfoldable pub hist_text : Entries → Text
  hist_text [] = []
  hist_text ((bin, count) ∷ rows) =
      print.signed bin ++ b' ' ∷ print.unsigned count ++ b'\n' ∷ hist_text rows

  unfoldable pub meta_text : Aggregator → Text
  meta_text a = meta_line (codes "bin_width") (print.unsigned a.bin_width) (codes "ns") (
      meta_line (codes "distance") (print.fixed a.distance) (codes "m") (
        meta_line (codes "total") (print.unsigned a.n) (codes "1") (
          meta_line (codes "uptime") (print.unsigned a.uptime) (codes "min")
            (meta_line (codes "sample_time") (print.unsigned a.sample_time) (codes "min") []))))

  -- `save`: a file that is there is written anew.
  unfoldable pub save : Text → Aggregator → Files → Files
  unfolding hist_text meta_text
  save filename a files =
      assign (filename ++ codes ".meta") (meta_text a)
        (assign (filename ++ codes ".hist") (hist_text a.entries) files)

  abbrev pub new_aggregator : Aggregator
  new_aggregator = record {
    entries = [];
    distance = print.zero_double;
    bin_width = 0;
    n = 0;
    uptime = 0;
    sample_time = 0;
    input_files = [];
  }

  -- The body of the loop of `main` for a directory; `none` is the exit with an error.
  unfoldable pub aggregate : Numbers → Files → Run (Option Files)
  unfolding find_files fill save
  aggregate std files =
      let (found, a) = find_files files new_aggregator in
      if not found
      then done none
      else (fill std files a >>= λ b. done (some (save (codes "aggregate") b files)))

  -- The loop of `main`, over the directories of the histograms that it comes upon; `last` is
  -- `last_directory`. A directory that is not known is empty.
  unfoldable pub aggregate_all :
      Numbers → Text → List Text → TextMap Files → Run (Option (TextMap Files))
  unfolding aggregate
  aggregate_all std last [] world = done (some world)
  aggregate_all std last (directory ∷ more) world =
      if text_eq last directory
      then aggregate_all std last more world
      else (aggregate std (elim (find directory world) [ none ↦ [] | some files ↦ files ])
          >>= λ result. elim result [
            | none ↦ done none
            | some files ↦ aggregate_all std directory more (assign directory files world)
          ])
