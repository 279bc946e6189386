-- ===== src/Prelude/Rings.antt =====
-- Suffixes of lists, and the write that a ring buffer makes.
use muondetector_cluster.Prelude.{
  ℕ, zero, suc, ◌-◌, ◌≤◌, ◌<◌, ◌≡◌, refl, ap, List, [], ◌∷◌, ◌++◌, arith, length, length-append,
  set, take,
}

module _ {ℓ} {A : Type ℓ} where
  abbrev pub drop : ℕ → List A → List A
  drop zero xs = xs
  drop (suc n) [] = []
  drop (suc n) (x ∷ xs) = drop n xs

  abbrev pub tail : List A → List A
  tail [] = []
  tail (x ∷ xs) = xs

  -- The last `n` entries, or all if there are fewer.
  abbrev pub take_last : ℕ → List A → List A
  take_last n xs = drop (length xs - n) xs

module _ {ℓ} {A : Type ℓ} where
  pub take-set :
      (xs : List A) (i : ℕ) (v : A)
      → i < length xs
      → take (suc i) (set xs i v) ≡ take i xs ++ v ∷ []
  take-set [] i v h = absurd (omega arith)
  take-set (x ∷ xs) zero v h = refl
  take-set (x ∷ xs) (suc i) v h = ap (◌∷◌ x) (take-set xs i v (omega arith))

  pub drop-set : (xs : List A) (i : ℕ) (v : A) → drop (suc i) (set xs i v) ≡ drop (suc i) xs
  drop-set [] i v = refl
  drop-set (x ∷ xs) zero v = refl
  drop-set (x ∷ xs) (suc i) v = drop-set xs i v

  pub tail-drop-append :
      (xs ys : List A) (i : ℕ) → i < length xs → tail (drop i xs ++ ys) ≡ drop (suc i) xs ++ ys
  tail-drop-append [] ys i h = absurd (omega arith)
  tail-drop-append (x ∷ xs) ys zero h = refl
  tail-drop-append (x ∷ xs) ys (suc i) h = tail-drop-append xs ys i (omega arith)

  pub drop_all : (xs : List A) (i : ℕ) → length xs ≤ i → drop i xs ≡ []
  drop_all [] zero h = refl
  drop_all [] (suc i) h = refl
  drop_all (x ∷ xs) zero h = absurd (omega arith)
  drop_all (x ∷ xs) (suc i) h = drop_all xs i (omega arith)

  pub take_all : (xs : List A) (i : ℕ) → length xs ≤ i → take i xs ≡ xs
  take_all [] zero h = refl
  take_all [] (suc i) h = refl
  take_all (x ∷ xs) zero h = absurd (omega arith)
  take_all (x ∷ xs) (suc i) h = ap (◌∷◌ x) (take_all xs i (omega arith))

  pub length-drop-append-take : (xs : List A) (i : ℕ) → length (drop i xs ++ take i xs) ≡ length xs
  length-drop-append-take xs zero = omega (arith, length-append xs [])
  length-drop-append-take [] (suc i) = refl
  length-drop-append-take (x ∷ xs) (suc i) = omega (
    arith,
    length-append (drop i xs) (x ∷ take i xs),
    length-append (drop i xs) (take i xs),
    length-drop-append-take xs i,
  )

  pub length-take_le : (xs : List A) (i : ℕ) → i ≤ length xs → length (take i xs) ≡ i
  length-take_le xs zero h = refl
  length-take_le [] (suc i) h = absurd (omega arith)
  length-take_le (x ∷ xs) (suc i) h = ap suc (length-take_le xs i (omega arith))

  -- An entry that is followed by `n` others is not among the last `n`.
  pub take_last-cons :
      (n : ℕ) (x : A) (xs : List A) → n ≤ length xs → take_last n (x ∷ xs) ≡ take_last n xs
  take_last-cons n x xs h = ap (λ m. drop m (x ∷ xs)) step
    where
      step : suc (length xs) - n ≡ suc (length xs - n)
      step = omega arith

  pub take_last-short : (n : ℕ) (xs : List A) → length xs ≤ n → take_last n xs ≡ xs
  take_last-short n xs h = ap (λ m. drop m xs) none
    where
      none : length xs - n ≡ 0
      none = omega arith
