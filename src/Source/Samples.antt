-- ===== src/Source/Samples.antt =====
-- Numbers that are written in strokes, and the conversions that read them, for witnesses.
use muondetector_cluster.Prelude.{
  ℕ, ◌-◌, ◌≡◌, ap, [], ◌∷◌, ◌==◌, if◌then◌else◌, arith, Text, length, replicate, length-replicate,
  some,
}
use muondetector_cluster.Prelude.Int.{ℤ, pos, negsuc}
use muondetector_cluster.Source.Run.{Run, done, invalid, Numbers}

-- n + 1 of them, or a sign and n of them for -(n + 1).
abbrev pub strokes : ℕ → Text
strokes n = b'1' ∷ replicate n b'1'

abbrev pub signed_strokes : ℤ → Text
signed_strokes (pos n) = strokes n
signed_strokes (negsuc n) = b'-' ∷ replicate n b'1'

abbrev pub count_strokes : Text → Run ℤ
count_strokes [] = invalid
count_strokes (c ∷ s) = if c == b'-' then done (negsuc (length s)) else done (pos (length s))

abbrev pub stroke_numbers : Numbers
stroke_numbers = record {
  stod = λ s. done (length s - 1);
  stold = λ s. done (length s - 1);
  to_ns = λ x. some (pos x);
  stoul = λ base s. done (length s - 1);
  stoll = count_strokes;
  stoi = count_strokes;
  hash = length;
}

pub counted : (n : ℕ) → length (strokes n) - 1 ≡ n
counted n = omega (arith, length-replicate {A = ℕ} n b'1')

pub counted_signed : (z : ℤ) → count_strokes (signed_strokes z) ≡ done z
counted_signed (pos n) = ap (λ k. done (pos k)) (length-replicate {A = ℕ} n b'1')
counted_signed (negsuc n) = ap (λ k. done (negsuc k)) (length-replicate {A = ℕ} n b'1')
