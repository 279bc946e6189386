-- ===== src/Matrix/Iterate.antt =====
-- `iterate`: the callback runs once on the element of each pair with the index.
use native.Mathlib.Decide.{ℕ_discrete}
use muondetector_cluster.Prelude.{
  ℕ, zero, suc, ◌+◌, ◌≤◌, ◌<◌, ◌≡◌, ◌≢◌, refl, sym, ◌∙◌, ap, arith, some, Bool-cases, ◌==◌, inl,
  inr,
}
use muondetector_cluster.Matrix.{UpperMatrix, position, at, write_at, iterate_from, iterate}
use muondetector_cluster.Matrix.Position.{position-injective}
use muondetector_cluster.Matrix.Access.{
  IsValid, IsPair, at-some, write_at-IsValid, at-write_at_same, at-write_at_ne,
}

some-eq {ℓ} : {A : Type ℓ} {a b : A} → some a ≡ some b → a ≡ b
some-eq h = cc h

module _ {ℓ} {A : Type ℓ} (index : ℕ) (f : A → A) where
  -- From `m` to `m'` the elements of the pairs of the index and `i` or more went through `f`, and
  -- no other slot changed.
  record Ran (i : ℕ) (m m' : UpperMatrix A) : Type ℓ where
    same_columns : m'.columns ≡ m.columns
    valid : IsValid m'
    mapped :
        (y : ℕ) (a : A)
        → index ≢ y
        → i ≤ y
        → y < m.columns
        → at index y m ≡ some a
        → at index y m' ≡ some (f a)
    untouched :
        (x y : ℕ)
        → ((z : ℕ) → index ≢ z → i ≤ z → z < m.columns → position index z ≢ position x y)
        → at x y m' ≡ at x y m

  Ran-none : (i : ℕ) (m : UpperMatrix A) → IsValid m → m.columns ≤ i → Ran i m m
  Ran-none i m v h = record {
    same_columns = refl;
    valid = v;
    mapped = λ y a ne le lt e. absurd (omega arith);
    untouched = λ x y ne. refl;
  }

  Ran-skip : (i : ℕ) (m m' : UpperMatrix A) → i ≡ index → Ran (i + 1) m m' → Ran i m m'
  Ran-skip i m m' e r = record {
    same_columns = r.same_columns;
    valid = r.valid;
    mapped = λ y a ne le lt h. r.mapped y a ne (omega arith) lt h;
    untouched = λ x y ne. r.untouched x y (λ z nz le lt. ne z nz (omega arith) lt);
  }

  module _ (i : ℕ) (m m' : UpperMatrix A) (v : A) (valid : IsValid m)
      (pair : IsPair m index i) where
    apart : (z : ℕ) → index ≢ z → i + 1 ≤ z → z < m.columns → position index i ≢ position index z
    apart z nz le lt e = absurd (
        omega (
          arith,
          position-injective index i index z m.columns valid.small pair.apart nz pair.first_in
              pair.second_in pair.first_in lt e,
        ))

    Ran-step : at index i m ≡ some v → Ran (i + 1) (write_at index i (f v) m) m' → Ran i m m'
    unfolding write_at
    Ran-step e r = record {
      same_columns = r.same_columns;
      valid = r.valid;
      mapped = λ y a ne le lt h. here y a ne le lt h (ℕ_discrete i y);
      untouched = λ x y ne.
          r.untouched x y (λ z nz le lt. ne z nz (omega arith) lt)
          ∙ at-write_at_ne index i x y (f v) m (ne i pair.apart (omega arith) pair.second_in);
    }
      where
        here :
            (y : ℕ) (a : A)
            → index ≢ y
            → i ≤ y
            → y < m.columns
            → at index y m ≡ some a
            → Dec (i ≡ y)
            → at index y m' ≡ some (f a)
        here y a ne le lt h (yes q) =
            ap (λ k. at index k m') (sym q)
            ∙ r.untouched index i (λ z nz le lt back. apart z nz le lt (sym back))
            ∙ at-write_at_same index i index i (f v) m valid pair refl
            ∙ ap (λ w. some (f w)) (some-eq (sym e ∙ ap (λ k. at index k m) q ∙ h))
        here y a ne le lt h (no nq) =
            r.mapped y a ne (omega arith) lt
              (at-write_at_ne index i index y (f v) m (apart y ne (omega arith) lt) ∙ h)

  iterate_from-Ran :
      (n i : ℕ) (m : UpperMatrix A)
      → i + n ≡ m.columns
      → index < m.columns
      → IsValid m
      → (m' : UpperMatrix A) × (iterate_from n i index f m ≡ some m') × Ran i m m'
  unfolding iterate_from
  iterate_from-Ran zero i m e lt v = (m, refl, Ran-none i m v (omega arith))
  iterate_from-Ran (suc n) i m e lt v = elim (Bool-cases (i == index)) [
    | inl skip ↦
        let (m', q, r) = iterate_from-Ran n (i + 1) m (omega arith) lt v in
        (m', rw (iterate_from, skip) q, Ran-skip i m m' (ground arith) r)
    | inr visit ↦
        let pair : IsPair m index i = record {
          apart = ground arith;
          first_in = lt;
          second_in = omega arith;
        } in
        let (a, here) = at-some m index i v pair in
        let (m', q, r) =
          iterate_from-Ran n (i + 1) (write_at index i (f a) m) (unfold write_at in omega arith)
            (unfold write_at in lt) (write_at-IsValid index i (f a) m v) in
        (m', rw (iterate_from, visit, here) q, Ran-step i m m' a v pair here r)
  ]

  -- For an index below the number of columns `iterate` does not throw; it applies the callback once
  -- to the element of every pair with the index, changes no element of any other pair, and keeps
  -- the matrix valid.
  pub iterate_lem :
      (m : UpperMatrix A)
      → IsValid m
      → index < m.columns
      → (m' : UpperMatrix A) × (iterate index f m ≡ some m')
        × IsValid m'
        × ((y : ℕ) (a : A) → IsPair m index y → at index y m ≡ some a → at index y m' ≡ some (f a))
        × ((x y : ℕ) → IsPair m x y → index ≢ x → index ≢ y → at x y m' ≡ at x y m)
  unfolding iterate
  iterate_lem m v lt =
      let (m', q, r) = iterate_from-Ran m.columns 0 m (omega arith) lt v in
      (
        m',
        q,
        r.valid,
        (λ y a p h. r.mapped y a p.apart (omega arith) p.second_in h),
        (λ x y p nx ny. r.untouched x y (λ z nz le below e. elsewhere x y p nx ny z nz below e)),
      )
    where
      elsewhere :
          (x y : ℕ)
          → IsPair m x y
          → index ≢ x
          → index ≢ y
          → (z : ℕ) → index ≢ z
          → z < m.columns
          → position index z ≡ position x y
          → ⊥
      elsewhere x y p nx ny z nz below e = omega (
        arith,
        position-injective index z x y m.columns v.small nz p.apart lt below p.first_in p.second_in
            e,
      )
