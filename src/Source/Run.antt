-- ===== src/Source/Run.antt =====
-- What a call may do besides returning: throw `std::invalid_argument`, throw another exception
-- (`std::out_of_range` of a number that is too large), or what is undefined: read outside a
-- container, or convert a number to an integer type that does not hold it (`fault`); and the
-- conversions of the standard library, which are parameters.
pub mod Yields
use muondetector_cluster.Prelude.{ℕ, Option, none, some, Text}
use muondetector_cluster.Prelude.Int.{ℤ}
use muondetector_cluster.Prelude.Floats.{Double}
use muondetector_cluster.Message.{MessageParser, field_at}

pub data Run {ℓ} (A : Type ℓ) : Type ℓ where
  done : A → Run A
  invalid : Run A
  overflow : Run A
  fault : Run A

infixl 5 ◌>>=◌
abbrev pub ◌>>=◌ {ℓ κ} : {A : Type ℓ} {B : Type κ} → Run A → (A → Run B) → Run B
done a >>= f = f a
invalid >>= f = invalid
overflow >>= f = overflow
fault >>= f = fault

-- `operator[]` of a message
unfoldable pub field : MessageParser → ℕ → Run Text
unfolding field_at
field m i = elim (field_at m i) [ none ↦ fault | some f ↦ done f ]

-- `std::stod`, `std::stold`, `std::stoul` with its base, `std::stoll`, `std::stoi`; `to_ns` is the
-- integral part of a `long double` times 1e9, if that is a number; `hash` is
-- `std::hash<std::string>`.
pub record Numbers : Type 0 where
  pub stod : Text → Run Double
  pub stold : Text → Run Double
  pub to_ns : Double → Option ℤ
  pub stoul : ℕ → Text → Run ℕ
  pub stoll : Text → Run ℤ
  pub stoi : Text → Run ℤ
  pub hash : Text → ℕ
