-- ===== src/Aggregation/Samples.antt =====
-- Conversions of numbers that are written as strokes, for witnesses.
use muondetector_cluster.Prelude.{ℕ, zero, suc, ◌≡◌, refl, ap, false, ◌∷◌, arith, All, replicate}
use muondetector_cluster.Prelude.Int.{ℤ, pos, negsuc}
use muondetector_cluster.Message.Lines.{IsToken, is_space}
use muondetector_cluster.Source.Run.{done}
use muondetector_cluster.Source.Samples.{
  strokes, signed_strokes, stroke_numbers, counted, counted_signed,
}
use muondetector_cluster.Aggregation.{Printers}
use muondetector_cluster.Aggregation.Saved.{Agree}

abbrev pub stroke_printers : Printers
stroke_printers = record {
  signed = signed_strokes;
  unsigned = strokes;
  fixed = strokes;
  zero_double = 0;
}

plain_strokes : (n : ℕ) → All (λ c. is_space c ≡ false) (replicate n b'1')
plain_strokes zero = tt
plain_strokes (suc n) = (refl, plain_strokes n)

IsToken-strokes : (c n : ℕ) → is_space c ≡ false → IsToken (c ∷ replicate n b'1')
IsToken-strokes c n e = ((λ h. absurd (ground (arith, h))), (e, plain_strokes n))

signed_strokes-IsToken : (z : ℤ) → IsToken (signed_strokes z)
signed_strokes-IsToken (pos n) = IsToken-strokes b'1' n refl
signed_strokes-IsToken (negsuc n) = IsToken-strokes b'-' n refl

pub strokes-Agree : Agree stroke_numbers stroke_printers (λ d. d)
strokes-Agree = record {
  stoi_signed = λ z h. counted_signed z;
  stoul_unsigned = λ n h. ap done (counted n);
  stod_fixed = λ d. ap done (counted d);
  signed_token = signed_strokes-IsToken;
  unsigned_token = λ n. IsToken-strokes b'1' n refl;
  fixed_token = λ d. IsToken-strokes b'1' d refl;
}
