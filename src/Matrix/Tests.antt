-- ===== src/Matrix/Tests.antt =====
-- Witnesses and tests for the triangular matrix.
use muondetector_cluster.Prelude.{ℕ, ◌≡◌, ◌≢◌, ◌<◌, refl, [], ◌∷◌, some, arith}
use muondetector_cluster.Matrix.{UpperMatrix, position, remove_index}
use muondetector_cluster.Matrix.Position.{triangle}
use muondetector_cluster.Matrix.Access.{IsValid, IsPair}

-- The element of the pair (x, y) with y < x is 10 * x + y.
abbrev four : UpperMatrix ℕ
four = record { columns = 4; elements = 10 ∷ 20 ∷ 21 ∷ 30 ∷ 31 ∷ 32 ∷ [] }

four-IsValid : IsValid four
unfolding triangle
four-IsValid = record { sized = refl; small = omega arith }

pair : (x y : ℕ) → x ≢ y → x < 4 → y < 4 → IsPair four x y
pair x y ne lx ly = record { apart = ne; first_in = lx; second_in = ly }

-- Without the index 1 the elements should be 20, 30 and 32; instead of 32, that of (3, 2), the one
-- of (3, 1) is left, a pair of the index that was removed.
removed_keeps_stale :
    remove_index 0 1 four ≡ some (record { columns = 3; elements = 20 ∷ 30 ∷ 31 ∷ [] })
unfolding remove_index position
removed_keeps_stale = refl
