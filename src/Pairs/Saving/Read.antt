-- ===== src/Pairs/Saving/Read.antt =====
-- What the program `aggregation` reads of the files of a pair.
use muondetector_cluster.Prelude.{
  ℕ, ◌+◌, ◌%◌, ◌^◌, ◌<◌, ◌≡◌, refl, ap, ◌∙◌, false, List, [], ◌∷◌, ◌++◌, some, Text, All,
  All-append, arith,
}
use muondetector_cluster.Prelude.Int.{ℤ, pos, ◌+ℤ◌, quot_ℤ}
use muondetector_cluster.Prelude.Assoc.{Map}
use muondetector_cluster.Prelude.Floats.{Double}
use muondetector_cluster.Prelude.Texts.{codes, text_eq_refl}
use muondetector_cluster.Prelude.TextMap.{TextMap, find, find-assign}
use muondetector_cluster.Message.Lines.{getlines, cut, IsToken, is_space}
use muondetector_cluster.Source.Run.{done, Numbers}
use muondetector_cluster.Event.{UserInfo}
use muondetector_cluster.Histogram.{Bin, qualified_bins, integral}
use muondetector_cluster.Aggregation.{
  Entries, Aggregator, Printers, hist_text, fill_meta, meta_fields, fill_file,
}
use muondetector_cluster.Aggregation.Reading.{bump_all, fill_hist-readings}
use muondetector_cluster.Aggregation.Saved.{
  Agree, IsWritable, IsToken-of, two, lines-two, tokens-two, text_eq-append, readings_of-hist_text,
  fill_meta-line,
}
use muondetector_cluster.Pairs.{PairData}
use muondetector_cluster.Pairs.Saving.{Streams, bin_lines, metadata, pair_directory, write_pair}

-- The conversions that a stream and `std::to_string` share.
abbrev pub as_printers : Streams → Printers
as_printers out = record {
  signed = out.signed;
  unsigned = out.unsigned;
  fixed = out.real;
  zero_double = 0;
}

-- The middle of each bin, and its count.
abbrev pub centres : List Bin → Entries
centres [] = []
centres (b ∷ bs) = (quot_ℤ (b.lower +ℤ b.upper) 2, b.count) ∷ centres bs

bin_lines-centres :
    (out : Streams) (bs : List Bin) → bin_lines out bs ≡ hist_text (as_printers out) (centres bs)
unfolding bin_lines hist_text
bin_lines-centres out [] = refl
bin_lines-centres out (b ∷ bs) = rw (bin_lines-centres out bs) refl

IsToken-append : (s t : Text) → IsToken s → All (λ c. is_space c ≡ false) t → IsToken (s ++ t)
IsToken-append [] t h k = absurd (h.0 refl)
IsToken-append (c ∷ s) t h k = ((λ n. absurd (ground (arith, n))), All-append _ (c ∷ s) t h.1 k)

module _ (std : Numbers) (out : Streams) (rounded : Double → Double)
    (agree : Agree std (as_printers out) rounded)
    (signed_pos : (n : ℕ) → out.signed (pos n) ≡ out.unsigned n) where
  fill_meta-metadata :
      (sample : ℤ) (d : PairData) (width up : ℕ) (b : Aggregator)
      → d.hist.width ≡ pos width
      → width < 2 ^ 32
      → d.uptime ≡ pos up
      → up < 2 ^ 32
      → integral d.hist < 2 ^ 32
      → fill_meta std (getlines b'\n' (metadata out sample d)) b
        ≡ done (record b {
          bin_width = width;
          distance = rounded d.distance;
          n = (b.n + integral d.hist) % 2 ^ 32;
          uptime = (b.uptime + up) % 2 ^ 32;
        })
  unfolding metadata meta_fields fill_meta cut
  fill_meta-metadata sample d width up b ew hw eu hu hn =
      let u = agree.unsigned_token in
      let total = integral d.hist in
      let unit : Text = out.signed sample ++ codes "min" in
      let last = two (codes "sample_time") unit ++ b'\n' ∷ [] in
      let plain =
        IsToken-append (out.signed sample) (codes "min") (agree.signed_token sample)
          (refl, (refl, (refl, tt))) in
      let b1 = record b { bin_width = width } in
      let b2 = record b1 { distance = rounded d.distance } in
      let b3 = record b2 { n = (b.n + total) % 2 ^ 32 } in
      let b4 = record b3 { uptime = (b.uptime + up) % 2 ^ 32 } in
      rw (ew, eu, signed_pos width, signed_pos up)
        (fill_meta-line std (as_printers out) rounded agree (codes "bin_width") (out.unsigned width)
            (codes "ns") _ b b1 (IsToken-of _ _ refl) (u width) (IsToken-of _ _ refl)
            (rw (agree.stoul_unsigned width hw)
              (ap (λ v. done (record b { bin_width = v })) (omega (arith, hw))))
          ∙ fill_meta-line std (as_printers out) rounded agree (codes "distance")
              (out.real d.distance) (codes "m") _ b1 b2 (IsToken-of _ _ refl)
              (agree.fixed_token d.distance) (IsToken-of _ _ refl)
              (rw (agree.stod_fixed d.distance) refl)
          ∙ fill_meta-line std (as_printers out) rounded agree (codes "total") (out.unsigned total)
              (codes "1") _ b2 b3 (IsToken-of _ _ refl) (u total) (IsToken-of _ _ refl)
              (rw (agree.stoul_unsigned total hn) refl)
          ∙ fill_meta-line std (as_printers out) rounded agree (codes "uptime") (out.unsigned up)
              (codes "min") last b3 b4 (IsToken-of _ _ refl) (u up) (IsToken-of _ _ refl)
              (rw (agree.stoul_unsigned up hu) refl)
          ∙ rw
              (
                lines-two (codes "sample_time") unit [] (IsToken-of _ _ refl) plain,
                tokens-two (codes "sample_time") unit (IsToken-of _ _ refl) plain,
              )
              refl)

  -- Where the conversions read back what the streams write, the program `aggregation` reads the two
  -- files of a pair, whatever other files there are: it adds the count of each bin at the middle of
  -- the bin, the sum of the counts and the minutes, takes the width and the distance, as the
  -- conversions round it, and leaves its sample time as it is. The numbers are of the reader's
  -- types, and the width and the minutes are not negative.
  pub fill_file-write_pair :
      (filename : Text) (sample : ℤ) (stations : Map UserInfo) (d : PairData) (files : TextMap Text)
      (width up : ℕ) (b : Aggregator)
      → d.hist.width ≡ pos width
      → width < 2 ^ 32
      → d.uptime ≡ pos up
      → up < 2 ^ 32
      → integral d.hist < 2 ^ 32
      → IsWritable (centres (qualified_bins d.hist))
      → fill_file std
          (write_pair out filename sample stations d files)
          (pair_directory stations d ++ filename)
          b
        ≡ done (record b {
          entries = bump_all (centres (qualified_bins d.hist)) b.entries;
          bin_width = width;
          distance = rounded d.distance;
          n = (b.n + integral d.hist) % 2 ^ 32;
          uptime = (b.uptime + up) % 2 ^ 32;
        })
  unfolding fill_file write_pair cut
  fill_file-write_pair filename sample stations d files width up b ew hw eu hu hn w =
      let path = pair_directory stations d ++ filename in
      let hist = path ++ codes ".hist" in
      let meta = path ++ codes ".meta" in
      let rows = centres (qualified_bins d.hist) in
      let written = write_pair out filename sample stations d files in
      let there : find hist written ≡ some (hist_text (as_printers out) rows) =
        find-assign meta hist _ _
        ∙ rw (text_eq-append path (codes ".meta") (codes ".hist"))
            (find-assign hist hist _ files ∙ (rw (text_eq_refl hist) refl))
        ∙ ap some (bin_lines-centres out (qualified_bins d.hist)) in
      let beside : find meta written ≡ some (metadata out sample d) =
        find-assign meta meta _ _ ∙ (rw (text_eq_refl meta) refl) in
      rw
        (
          there,
          beside,
          fill_hist-readings std (getlines b'\n' (hist_text (as_printers out) rows)) b,
          readings_of-hist_text std (as_printers out) rounded agree rows w,
        )
        (fill_meta-metadata sample d width up (record b { entries = bump_all rows b.entries }) ew hw
          eu hu hn)
