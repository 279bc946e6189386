-- ===== src/Matrix/Position.antt =====
-- Where `upper_matrix::position` puts a pair: a bijection between the pairs below n and the slots
-- of the vector.
use muondetector_cluster.Prelude.{
  ℕ, zero, suc, ◌+◌, ◌*◌, ◌^◌, ◌≤◌, ◌<◌, ◌≡◌, ◌≢◌, refl, max, min, arith, ap,
}
use native.Mathlib.Decide.{dec_lt}
use muondetector_cluster.Matrix.{position}

-- The number of pairs below `n`.
unfoldable pub triangle : ℕ → ℕ
triangle zero = 0
triangle (suc n) = triangle n + n

pub triangle-suc : (n : ℕ) → triangle (suc n) ≡ triangle n + n
unfolding triangle
triangle-suc n = refl

triangle-square : (n : ℕ) → n + 2 * triangle n ≡ n * n
unfolding triangle
triangle-square zero = refl
triangle-square (suc n) = grind (arith, triangle-square n)

-- The number of columns for which `position` does not overflow.
abbrev pub columns_limit : ℕ
columns_limit = 2 ^ 32

square-lt : (n : ℕ) → n < columns_limit → n * n < 2 ^ 64
square-lt n h = grind arith

pub position-eq-triangle :
    (x y : ℕ) → max x y < columns_limit → position x y ≡ triangle (max x y) + min x y
unfolding position
position-eq-triangle x y h = ground (arith, square-lt (max x y) h, triangle-square (max x y))

pub triangle_mono : (a b : ℕ) → a ≤ b → triangle a ≤ triangle b
unfolding triangle
triangle_mono zero zero h = omega arith
triangle_mono (suc a) zero h = absurd (omega arith)
triangle_mono a (suc b) h = elim (dec_lt a (suc b)) [
  | yes p ↦ omega (arith, triangle_mono a b (omega arith))
  | no p ↦ omega (arith, ap triangle (same p), triangle-suc b)
]
  where
    same : ¬ (a < suc b) → a ≡ suc b
    same p = omega arith

slot-lt : (x y n : ℕ) → y < x → x < n → triangle x + y < triangle n
slot-lt x y n h k = omega (arith, triangle_mono (suc x) n k, triangle-suc x)

slot-injective :
    (x y x' y' : ℕ) → y < x → y' < x' → triangle x + y ≡ triangle x' + y' → (x ≡ x') × (y ≡ y')
slot-injective x y x' y' h h' e = elim (dec_lt x x') [
  | yes p ↦ absurd (omega (arith, slot-lt x y x' h p))
  | no p ↦ elim (dec_lt x' x) [
    | yes q ↦ absurd (omega (arith, slot-lt x' y' x h' q))
    | no q ↦ let same : x ≡ x' = omega arith in (same, omega (arith, ap triangle same))
  ]
]

-- Below 2^32 columns the slot of every pair of different indices lies inside the vector, and the
-- order of the two does not matter.
pub position-lt :
    (x y n : ℕ)
    → n < columns_limit
    → x ≢ y
    → x < n
    → y < n
    → (position x y < triangle n) × (position x y ≡ position y x)
position-lt x y n h ne p q = omega (
  arith,
  position-eq-triangle x y (omega arith),
  position-eq-triangle y x (omega arith),
  slot-lt (max x y) (min x y) n (omega arith) (omega arith),
  swapped,
)
  where
    swapped : triangle (max x y) ≡ triangle (max y x)
    swapped = ap triangle (omega arith)

-- Below 2^32 columns two pairs of different indices with the same slot are the same pair.
pub position-injective :
    (x y x' y' n : ℕ)
    → n < columns_limit
    → x ≢ y
    → x' ≢ y'
    → x < n
    → y < n
    → x' < n
    → y' < n
    → position x y ≡ position x' y'
    → (max x y ≡ max x' y') × (min x y ≡ min x' y')
position-injective x y x' y' n h ne ne' p q p' q' e =
    slot-injective (max x y) (min x y) (max x' y') (min x' y') (omega arith) (omega arith) (
      omega
        (arith, position-eq-triangle x y (omega arith), position-eq-triangle x' y' (omega arith)))
