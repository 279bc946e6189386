-- ===== src/Prelude/Erase.antt =====
-- `std::vector::erase` at an index.
use Prim.Native.Nat.{ℕ, zero, suc, ◌+◌, ◌<◌, ◌≤◌}
use mathlib.Core.Path.{◌≡◌, refl}
use mathlib.Core.List.{List, [], ◌∷◌}
use native.Mathlib.Omega.{arith}
use muondetector_cluster.Prelude.Lists.{length, get_elem?, All}

module _ {ℓ} {A : Type ℓ} where
  -- An index out of range erases nothing; the callers show that theirs is in range.
  abbrev pub erase_idx : List A → ℕ → List A
  erase_idx [] at = []
  erase_idx (y ∷ ys) zero = ys
  erase_idx (y ∷ ys) (suc at) = y ∷ erase_idx ys at

module _ {ℓ} {A : Type ℓ} where
  pub length-erase_idx :
      (ys : List A) (at : ℕ) → at < length ys → length (erase_idx ys at) + 1 ≡ length ys
  length-erase_idx [] at below = absurd (omega arith)
  length-erase_idx (y ∷ ys) zero below = omega arith
  length-erase_idx (y ∷ ys) (suc at) below = omega (arith, length-erase_idx ys at (omega arith))

  pub get_elem?-erase_idx_below :
      (ys : List A) (at j : ℕ) → j < at → get_elem? (erase_idx ys at) j ≡ get_elem? ys j
  get_elem?-erase_idx_below [] at j below = refl
  get_elem?-erase_idx_below (y ∷ ys) zero j below = absurd (omega arith)
  get_elem?-erase_idx_below (y ∷ ys) (suc at) zero below = refl
  get_elem?-erase_idx_below (y ∷ ys) (suc at) (suc j) below =
      get_elem?-erase_idx_below ys at j (omega arith)

  -- What stood behind the erased element moves up by one.
  pub get_elem?-erase_idx_above :
      (ys : List A) (at j : ℕ) → at ≤ j → get_elem? (erase_idx ys at) j ≡ get_elem? ys (suc j)
  get_elem?-erase_idx_above [] at j above = refl
  get_elem?-erase_idx_above (y ∷ ys) zero j above = refl
  get_elem?-erase_idx_above (y ∷ ys) (suc at) zero above = absurd (omega arith)
  get_elem?-erase_idx_above (y ∷ ys) (suc at) (suc j) above =
      get_elem?-erase_idx_above ys at j (omega arith)

module _ {ℓ κ} {A : Type ℓ} (P : A → Type κ) where
  pub All-erase_idx : (ys : List A) (at : ℕ) → All P ys → All P (erase_idx ys at)
  All-erase_idx [] at every = every
  All-erase_idx (y ∷ ys) zero every = every.1
  All-erase_idx (y ∷ ys) (suc at) every = (every.0, All-erase_idx ys at every.1)
