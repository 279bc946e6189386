-- ===== src/Prelude/Floats.antt =====
-- `double`: a value is its bit pattern. The program's floating-point arithmetic is the
-- processor's, so its operations are a parameter of whatever computes with them.
use muondetector_cluster.Prelude.{ℕ, Bool}
use muondetector_cluster.Prelude.Int.{ℤ}

abbrev pub Double : Type 0
Double = ℕ

pub record Floats : Type 0 where
  pub add : Double → Double → Double
  pub sub : Double → Double → Double
  pub mul : Double → Double → Double
  pub div : Double → Double → Double
  pub sqrt : Double → Double
  pub lt : Double → Double → Bool
  -- `static_cast` between `double` and the integer types
  pub of_ℕ : ℕ → Double
  pub of_ℤ : ℤ → Double
  pub to_ℤ : Double → ℤ
  -- `static_cast<float>`, as the `double` that it is again
  pub to_float : Double → Double
