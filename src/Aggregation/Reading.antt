-- ===== src/Aggregation/Reading.antt =====
-- What a histogram's lines add to the entries, by the numbers that they hold.
use muondetector_cluster.Prelude.{
  ℕ, ◌+◌, ◌%◌, ◌^◌, ◌<◌, ◌≡◌, refl, ap, sym, ◌∙◌, List, [], ◌∷◌, ◌++◌, if◌then◌else◌, arith,
  Bool-cases, inl, inr, Text,
}
use muondetector_cluster.Prelude.Int.{ℤ}
use muondetector_cluster.Message.Lines.{tokens}
use muondetector_cluster.Source.Run.{Run, done, ◌>>=◌, Numbers}
use muondetector_cluster.Source.Run.Yields.{>>=-assoc, >>=-cong}
use muondetector_cluster.Aggregation.{Entries, Aggregator, bump, eq_ℤ, hist_fields, fill_hist}
use muondetector_cluster.Aggregation.Entries.{
  count_at, IsSorted, IsAbove-IsSorted, count_at-above, bump-IsSorted, count_at-bump,
}

abbrev pub bump_all : List (ℤ × ℕ) → Entries → Entries
bump_all [] rows = rows
bump_all ((b, c) ∷ readings) rows = bump_all readings (bump b (c % 2 ^ 32) rows)

-- The sum of what is read for a bin.
abbrev pub total : ℤ → List (ℤ × ℕ) → ℕ
total bin [] = 0
total bin ((b, c) ∷ readings) = (if eq_ℤ b bin then c else 0) + total bin readings

pub bump_all-IsSorted :
    (readings : List (ℤ × ℕ)) (rows : Entries) → IsSorted rows → IsSorted (bump_all readings rows)
bump_all-IsSorted [] rows s = s
bump_all-IsSorted ((b, c) ∷ readings) rows s =
    bump_all-IsSorted readings _ (bump-IsSorted b (c % 2 ^ 32) rows s)

pub count_at-bump_all :
    (bin : ℤ) (readings : List (ℤ × ℕ)) (rows : Entries)
    → IsSorted rows
    → count_at bin rows < 2 ^ 32
    → count_at bin (bump_all readings rows) ≡ (count_at bin rows + total bin readings) % 2 ^ 32
count_at-bump_all bin [] rows s h = omega (arith, h)
count_at-bump_all bin ((b, c) ∷ readings) rows s h =
    let next = bump b (c % 2 ^ 32) rows in
    let here = count_at-bump b bin (c % 2 ^ 32) rows s in
    let rest = count_at-bump_all bin readings next (bump-IsSorted b (c % 2 ^ 32) rows s) in
    elim (Bool-cases (eq_ℤ b bin)) [
      | inl same ↦
          let now : count_at bin next ≡ (count_at bin rows + c % 2 ^ 32) % 2 ^ 32 =
            rw same at here in
          rw same (omega (arith, rest (omega (arith, now)), now))
      | inr other ↦
          let now : count_at bin next ≡ count_at bin rows = rw other at here in
          rw other (omega (arith, rest (omega (arith, now, h)), now))
    ]

-- In a sorted list a bin has one entry.
pub total-count_at : (bin : ℤ) (rows : Entries) → IsSorted rows → total bin rows ≡ count_at bin rows
total-count_at bin [] s = refl
total-count_at bin ((b, c) ∷ rows) s =
    let rest = total-count_at bin rows (IsAbove-IsSorted b rows s) in
    elim (Bool-cases (eq_ℤ b bin)) [
      | inl same ↦ rw same (omega (arith, rest, count_at-above b bin rows same s))
      | inr other ↦ rw other (omega (arith, rest))
    ]

module _ (std : Numbers) where
  -- The numbers of a line that has two fields; another line has none.
  abbrev pub reading : List Text → Run (List (ℤ × ℕ))
  reading (bin ∷ count ∷ []) = std.stoi bin >>= λ b. std.stoul 10 count >>= λ c. done ((b, c) ∷ [])
  reading _ = done []

  unfoldable pub readings_of : List Text → Run (List (ℤ × ℕ))
  unfolding tokens
  readings_of [] = done []
  readings_of (line ∷ lines) =
      reading (tokens line) >>= λ r. readings_of lines >>= λ rs. done (r ++ rs)

  abbrev put : List (ℤ × ℕ) → Aggregator → Aggregator
  put readings a = record a { entries = bump_all readings a.entries }

  bump_all-append :
      (r rs : List (ℤ × ℕ)) (rows : Entries)
      → bump_all (r ++ rs) rows ≡ bump_all rs (bump_all r rows)
  bump_all-append [] rs rows = refl
  bump_all-append ((b, c) ∷ r) rs rows = bump_all-append r rs _

  hist_fields-reading :
      (fields : List Text) (a : Aggregator)
      → hist_fields std fields a ≡ (reading fields >>= λ r. done (put r a))
  unfolding hist_fields
  hist_fields-reading [] a = refl
  hist_fields-reading (bin ∷ []) a = refl
  hist_fields-reading (bin ∷ count ∷ []) a = sym (
      >>=-assoc (std.stoi bin) _ _
      ∙ >>=-cong (std.stoi bin) _ _ (λ b. >>=-assoc (std.stoul 10 count) _ _))
  hist_fields-reading (bin ∷ count ∷ other ∷ more) a = refl

  -- Filling from the lines of a histogram adds the numbers that its lines hold, line by line, and
  -- throws what the first line that cannot be read throws; it changes nothing else.
  pub fill_hist-readings :
      (lines : List Text) (a : Aggregator)
      → fill_hist std lines a
        ≡ (readings_of lines >>= λ rs. done (record a { entries = bump_all rs a.entries }))
  unfolding fill_hist readings_of
  fill_hist-readings [] a = refl
  fill_hist-readings (line ∷ lines) a =
      let r = reading (tokens line) in
      rw (hist_fields-reading (tokens line) a) (
        >>=-assoc r _ _
        ∙ >>=-cong r _ _ (λ x.
          fill_hist-readings lines (put x a)
          ∙ >>=-cong (readings_of lines) _ _ (λ xs.
            ap (λ e. done (record a { entries = e })) (sym (bump_all-append x xs a.entries)))
          ∙ sym (>>=-assoc (readings_of lines) _ _))
        ∙ sym (>>=-assoc r _ _))
