-- ===== src/Prelude/Samples.antt =====
-- Arithmetic on natural numbers as an instance of `Floats`, for the tests.
use muondetector_cluster.Prelude.{◌+◌, ◌-◌, ◌*◌, ◌/◌, ltb}
use muondetector_cluster.Prelude.Int.{pos, pos_part}
use muondetector_cluster.Prelude.Floats.{Floats}

abbrev pub whole : Floats
whole = record {
  add = λ a b. a + b;
  sub = λ a b. a - b;
  mul = λ a b. a * b;
  div = λ a b. a / b;
  sqrt = λ a. a;
  lt = ltb;
  of_ℕ = λ n. n;
  of_ℤ = pos_part;
  to_ℤ = pos;
  to_float = λ a. a;
}
