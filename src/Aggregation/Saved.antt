-- ===== src/Aggregation/Saved.antt =====
-- What is read back from the two files that `save` writes.
use mathlib.Core.List.{append_assoc}
use muondetector_cluster.Prelude.{
  ℕ, ◌+◌, ◌%◌, ◌^◌, ◌<◌, ◌≤◌, ◌≡◌, refl, ap, ◌∙◌, Bool, true, false, not, ◌&&◌, [], ◌∷◌, ◌++◌, ◌==◌,
  arith, All, if-cases, All-append, Text, some,
}
use muondetector_cluster.Prelude.Int.{ℤ, pos_part, neg_part}
use muondetector_cluster.Prelude.Floats.{Double}
use muondetector_cluster.Prelude.Texts.{codes, text_eq, text_eq_refl}
use muondetector_cluster.Prelude.TextMap.{find, find-assign}
use muondetector_cluster.Message.Lines.{
  getlines, cut, cut-delimiter, is_space, tokens, IsToken, tokens-step, tokens-last,
}
use muondetector_cluster.Source.Run.{done, Numbers}
use muondetector_cluster.Aggregation.{
  Entries, Files, Aggregator, Printers, hist_text, meta_text, meta_line, save, fill_meta,
  meta_fields, fill_file, eq_ℤ,
}
use muondetector_cluster.Aggregation.Entries.{count_at, IsSorted}
use muondetector_cluster.Aggregation.Reading.{
  count_at-bump_all, total-count_at, bump_all, readings_of, fill_hist-readings,
}

abbrev pub IsInt32 : ℤ → Type 0
IsInt32 z = (pos_part z < 2 ^ 31) × (neg_part z ≤ 2 ^ 31)

-- What `std::to_string` writes of an integer, the conversion functions read back, and it has no
-- white space; of a `double` they read a rounded one.
pub record Agree (std : Numbers) (print : Printers) (rounded : Double → Double) : Type 0 where
  pub stoi_signed : (z : ℤ) → IsInt32 z → std.stoi (print.signed z) ≡ done z
  pub stoul_unsigned : (n : ℕ) → n < 2 ^ 32 → std.stoul 10 (print.unsigned n) ≡ done n
  pub stod_fixed : (d : Double) → std.stod (print.fixed d) ≡ done (rounded d)
  pub signed_token : (z : ℤ) → IsToken (print.signed z)
  pub unsigned_token : (n : ℕ) → IsToken (print.unsigned n)
  pub fixed_token : (d : Double) → IsToken (print.fixed d)

-- The entries are of their types.
abbrev pub IsWritable : Entries → Type 0
IsWritable = All (λ (b, c). IsInt32 b × (c < 2 ^ 32))

not_newline : (s : Text) → All (λ c. is_space c ≡ false) s → All (λ c. (c == b'\n') ≡ false) s
not_newline [] h = tt
not_newline (c ∷ s) h = (ground (arith, h.0), not_newline s h.1)

abbrev pub all_plain : Text → Bool
all_plain [] = true
all_plain (c ∷ s) = not (is_space c) && all_plain s

plain-All : (s : Text) → all_plain s ≡ true → All (λ c. is_space c ≡ false) s
plain-All [] e = tt
plain-All (c ∷ s) e = (ground (arith, e), plain-All s (ground (arith, e)))

-- A literal's fields are found by computing.
pub IsToken-of : (c : ℕ) (s : Text) → all_plain (c ∷ s) ≡ true → IsToken (c ∷ s)
IsToken-of c s e = ((λ n. absurd (ground (arith, n))), plain-All (c ∷ s) e)

-- Two fields, or three, with a blank between them.
abbrev pub two : Text → Text → Text
two a b = a ++ b' ' ∷ b

-- A line of such fields, up to its end.
two-plain :
    (a b : Text)
    → All (λ c. (c == b'\n') ≡ false) a
    → All (λ c. (c == b'\n') ≡ false) b
    → All (λ c. (c == b'\n') ≡ false) (two a b)
two-plain a b h k = All-append _ a (b' ' ∷ b) h (refl, k)

pub lines-two :
    (a b rest : Text)
    → IsToken a
    → IsToken b
    → getlines b'\n' (two a b ++ b'\n' ∷ rest) ≡ two a b ∷ getlines b'\n' rest
lines-two a b rest h k =
    cut-delimiter (λ c. c == b'\n') (two a b) rest b'\n'
      (two-plain a b (not_newline a h.1) (not_newline b k.1)) refl

lines-three :
    (a b c rest : Text)
    → IsToken a
    → IsToken b
    → IsToken c
    → getlines b'\n' (meta_line a b c rest) ≡ two (two a b) c ∷ getlines b'\n' rest
lines-three a b c rest h k l =
    cut-delimiter (λ c. c == b'\n') (two (two a b) c) rest b'\n'
      (two-plain (two a b) c (two-plain a b (not_newline a h.1) (not_newline b k.1))
        (not_newline c l.1))
      refl

pub tokens-two : (a b : Text) → IsToken a → IsToken b → tokens (two a b) ≡ a ∷ b ∷ []
tokens-two a b h k = tokens-step a b b' ' h refl ∙ ap (λ l. a ∷ l) (tokens-last b k)

tokens-three :
    (a b c : Text) → IsToken a → IsToken b → IsToken c → tokens (two (two a b) c) ≡ a ∷ b ∷ c ∷ []
tokens-three a b c h k l =
    ap tokens (append_assoc a (b' ' ∷ b) (b' ' ∷ c))
    ∙ tokens-step a (two b c) b' ' h refl
    ∙ ap (λ l. a ∷ l) (tokens-two b c k l)

pub text_eq-append : (s t u : Text) → text_eq (s ++ t) (s ++ u) ≡ text_eq t u
text_eq-append [] t u = refl
text_eq-append (c ∷ s) t u = ground (arith, text_eq-append s t u)

count_at-bound : (bin : ℤ) (rows : Entries) → IsWritable rows → count_at bin rows < 2 ^ 32
count_at-bound bin [] w = omega arith
count_at-bound bin ((b, c) ∷ rows) w =
    if-cases (λ n. n < 2 ^ 32) (eq_ℤ b bin) _ _ (λ here. w.0.1)
      (λ there. count_at-bound bin rows w.1)

module _ (std : Numbers) (print : Printers) (rounded : Double → Double)
    (agree : Agree std print rounded) where
  pub readings_of-hist_text :
      (rows : Entries)
      → IsWritable rows
      → readings_of std (getlines b'\n' (hist_text print rows)) ≡ done rows
  unfolding hist_text readings_of cut
  readings_of-hist_text [] w = refl
  readings_of-hist_text ((b, c) ∷ rows) w =
      let tb = agree.signed_token b in
      let tc = agree.unsigned_token c in
      rw
        (
          lines-two (print.signed b) (print.unsigned c) (hist_text print rows) tb tc,
          tokens-two (print.signed b) (print.unsigned c) tb tc,
          agree.stoi_signed b w.0.0,
          agree.stoul_unsigned c w.0.1,
          readings_of-hist_text rows w.1,
        )
        refl

  -- A line of a meta file, and the lines behind it.
  pub fill_meta-line :
      (a b c rest : Text) (g g' : Aggregator)
      → IsToken a
      → IsToken b
      → IsToken c
      → meta_fields std (a ∷ b ∷ c ∷ []) g ≡ done g'
      → fill_meta std (getlines b'\n' (meta_line a b c rest)) g
        ≡ fill_meta std (getlines b'\n' rest) g'
  unfolding fill_meta
  fill_meta-line a b c rest g g' h k l e =
      rw (lines-three a b c rest h k l, tokens-three a b c h k l, e) refl

  -- The sums of a meta file's lines.
  abbrev add_meta : Aggregator → Aggregator → Aggregator
  add_meta a b = record b {
    bin_width = a.bin_width;
    distance = rounded a.distance;
    n = (b.n + a.n) % 2 ^ 32;
    uptime = (b.uptime + a.uptime) % 2 ^ 32;
    sample_time = (b.sample_time + a.sample_time) % 2 ^ 32;
  }

  -- The numbers are of their types.
  abbrev pub IsInRange : Aggregator → Type 0
  IsInRange a =
      (a.bin_width < 2 ^ 32) × (a.n < 2 ^ 32) × (a.uptime < 2 ^ 32) × (a.sample_time < 2 ^ 32)

  fill_meta-meta_text :
      (a b : Aggregator)
      → IsInRange a
      → fill_meta std (getlines b'\n' (meta_text print a)) b ≡ done (add_meta a b)
  unfolding meta_text meta_fields fill_meta cut
  fill_meta-meta_text a b h =
      let u = agree.unsigned_token in
      let b1 = record b { bin_width = a.bin_width } in
      let b2 = record b1 { distance = rounded a.distance } in
      let b3 = record b2 { n = (b.n + a.n) % 2 ^ 32 } in
      let b4 = record b3 { uptime = (b.uptime + a.uptime) % 2 ^ 32 } in
      fill_meta-line (codes "bin_width") _ (codes "ns") _ b b1 (IsToken-of _ _ refl) (u a.bin_width)
        (IsToken-of _ _ refl)
        (rw (agree.stoul_unsigned a.bin_width h.0)
          (ap (λ v. done (record b { bin_width = v })) (omega (arith, h.0))))
      ∙ fill_meta-line (codes "distance") _ (codes "m") _ b1 b2 (IsToken-of _ _ refl)
          (agree.fixed_token a.distance) (IsToken-of _ _ refl)
          (rw (agree.stod_fixed a.distance) refl)
      ∙ fill_meta-line (codes "total") _ (codes "1") _ b2 b3 (IsToken-of _ _ refl) (u a.n)
          (IsToken-of _ _ refl) (rw (agree.stoul_unsigned a.n h.1) refl)
      ∙ fill_meta-line (codes "uptime") _ (codes "min") _ b3 b4 (IsToken-of _ _ refl) (u a.uptime)
          (IsToken-of _ _ refl) (rw (agree.stoul_unsigned a.uptime h.2) refl)
      ∙ fill_meta-line (codes "sample_time") _ (codes "min") [] b4 (add_meta a b)
          (IsToken-of _ _ refl) (u a.sample_time) (IsToken-of _ _ refl)
          (rw (agree.stoul_unsigned a.sample_time h.3) refl)

  -- What the two files add, whatever other files there are.
  fill_file-saved :
      (name : Text) (files : Files) (a b : Aggregator)
      → IsWritable a.entries
      → IsInRange a
      → fill_file std (save print name a files) name b
        ≡ done (add_meta a (record b { entries = bump_all a.entries b.entries }))
  unfolding fill_file save cut
  fill_file-saved name files a b w h =
      let hist = name ++ codes ".hist" in
      let meta = name ++ codes ".meta" in
      let there : find hist (save print name a files) ≡ some (hist_text print a.entries) =
        find-assign meta hist _ _
        ∙ rw (text_eq-append name (codes ".meta") (codes ".hist"))
            (find-assign hist hist _ files ∙ (rw (text_eq_refl hist) refl)) in
      let beside : find meta (save print name a files) ≡ some (meta_text print a) =
        find-assign meta meta _ _ ∙ (rw (text_eq_refl meta) refl) in
      rw
        (
          there,
          beside,
          fill_hist-readings std (getlines b'\n' (hist_text print a.entries)) b,
          readings_of-hist_text a.entries w,
        )
        (fill_meta-meta_text a (record b { entries = bump_all a.entries b.entries }) h)

  -- Where the conversions read back what they write, filling from the files that `save` wrote of an
  -- aggregator adds its counts, bin by bin, its total, its uptime and its sample time, modulo 2^32,
  -- and takes its width and its distance, as the conversions round it. The entries of both are
  -- sorted and all numbers are of their types.
  pub fill_file-save :
      (name : Text) (files : Files) (a b : Aggregator)
      → IsWritable a.entries
      → IsInRange a
      → IsSorted a.entries
      → IsSorted b.entries
      → IsWritable b.entries
      → (r : Aggregator) × (fill_file std (save print name a files) name b ≡ done r)
        × ((bin : ℤ)
            → count_at bin r.entries ≡ (count_at bin b.entries + count_at bin a.entries) % 2 ^ 32)
        × (r.n ≡ (b.n + a.n) % 2 ^ 32)
        × (r.uptime ≡ (b.uptime + a.uptime) % 2 ^ 32)
        × (r.sample_time ≡ (b.sample_time + a.sample_time) % 2 ^ 32)
        × (r.bin_width ≡ a.bin_width)
        × (r.distance ≡ rounded a.distance)
  fill_file-save name files a b w h s t v = (
    add_meta a (record b { entries = bump_all a.entries b.entries }),
    fill_file-saved name files a b w h,
    λ bin.
        count_at-bump_all bin a.entries b.entries t (count_at-bound bin b.entries v)
        ∙ ap (λ c. (count_at bin b.entries + c) % 2 ^ 32) (total-count_at bin a.entries s),
    refl,
    refl,
    refl,
    refl,
    refl,
  )
