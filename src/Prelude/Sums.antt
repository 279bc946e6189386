-- ===== src/Prelude/Sums.antt =====
-- Sums over a list of what each entry weighs, and how an update of the list changes them.
use muondetector_cluster.Prelude.{
  ℕ, zero, suc, ◌+◌, ◌≡◌, Bool, List, [], ◌∷◌, ◌++◌, some, arith, if◌then◌else◌, get_elem?, set,
  erase_idx,
}

module _ {ℓ} {A : Type ℓ} where
  abbrev pub sum_by : (A → ℕ) → List A → ℕ
  sum_by w [] = 0
  sum_by w (x ∷ xs) = w x + sum_by w xs

  -- How many entries pass the test.
  abbrev pub tally : (A → Bool) → List A → ℕ
  tally p [] = 0
  tally p (x ∷ xs) = (if p x then 1 else 0) + tally p xs

module _ {ℓ} {A : Type ℓ} where
  pub tally-append : (p : A → Bool) (xs ys : List A) → tally p (xs ++ ys) ≡ tally p xs + tally p ys
  tally-append p [] ys = omega arith
  tally-append p (x ∷ xs) ys = omega (arith, tally-append p xs ys)

module _ {ℓ} {A : Type ℓ} (w : A → ℕ) where
  pub sum_by-append : (xs ys : List A) → sum_by w (xs ++ ys) ≡ sum_by w xs + sum_by w ys
  sum_by-append [] ys = omega arith
  sum_by-append (x ∷ xs) ys = omega (arith, sum_by-append xs ys)

  pub sum_by-set :
      (xs : List A) (i : ℕ) (old new : A)
      → get_elem? xs i ≡ some old
      → sum_by w (set xs i new) + w old ≡ sum_by w xs + w new
  sum_by-set [] i old new h = absurd (ground arith)
  sum_by-set (x ∷ xs) zero old new h = ground arith
  sum_by-set (x ∷ xs) (suc i) old new h = omega (arith, sum_by-set xs i old new h)

  pub sum_by-erase_idx :
      (xs : List A) (i : ℕ) (old : A)
      → get_elem? xs i ≡ some old
      → sum_by w (erase_idx xs i) + w old ≡ sum_by w xs
  sum_by-erase_idx [] i old h = absurd (ground arith)
  sum_by-erase_idx (x ∷ xs) zero old h = ground arith
  sum_by-erase_idx (x ∷ xs) (suc i) old h = omega (arith, sum_by-erase_idx xs i old h)
