-- ===== src/Matrix/Access.antt =====
-- Reading and writing elements, and adding a column.
use muondetector_cluster.Prelude.{
  ℕ, zero, suc, ◌+◌, ◌≤◌, ◌<◌, ◌≡◌, ◌≢◌, refl, sym, ap, max, min, arith, List, [], ◌∷◌, some, ◌⊎◌,
  inl, inr, length, length-set, get_elem?, get_elem?-set_self, get_elem?-set_ne, get_elem?-of_lt,
  add_64,
}
use native.Mathlib.Decide.{ℕ_discrete}
use muondetector_cluster.Matrix.{UpperMatrix, position, resize, at, write_at, emplace, increase}
use muondetector_cluster.Matrix.Position.{
  triangle, triangle-suc, columns_limit, position-eq-triangle, position-lt, position-injective,
}

pub length-resize {ℓ} : {A : Type ℓ} (n : ℕ) (d : A) (xs : List A) → length (resize n d xs) ≡ n
unfolding resize
length-resize zero d xs = refl
length-resize (suc n) d [] = ap suc (length-resize n d [])
length-resize (suc n) d (x ∷ xs) = ap suc (length-resize n d xs)

pub get_elem?-resize {ℓ} :
    {A : Type ℓ} (n i : ℕ) (d : A) (xs : List A)
    → i < n
    → i < length xs
    → get_elem? (resize n d xs) i ≡ get_elem? xs i
unfolding resize
get_elem?-resize zero i d xs h k = absurd (omega arith)
get_elem?-resize (suc n) i d [] h k = absurd (omega arith)
get_elem?-resize (suc n) zero d (x ∷ xs) h k = refl
get_elem?-resize (suc n) (suc i) d (x ∷ xs) h k =
    get_elem?-resize n i d xs (omega arith) (omega arith)

pub get_elem?-resize_new {ℓ} :
    {A : Type ℓ} (n i : ℕ) (d : A) (xs : List A)
    → i < n
    → length xs ≤ i
    → get_elem? (resize n d xs) i ≡ some d
unfolding resize
get_elem?-resize_new zero i d xs h k = absurd (omega arith)
get_elem?-resize_new (suc n) zero d [] h k = refl
get_elem?-resize_new (suc n) (suc i) d [] h k =
    get_elem?-resize_new n i d [] (omega arith) (omega arith)
get_elem?-resize_new (suc n) zero d (x ∷ xs) h k = absurd (omega arith)
get_elem?-resize_new (suc n) (suc i) d (x ∷ xs) h k =
    get_elem?-resize_new n i d xs (omega arith) (omega arith)

new_size : (c : ℕ) → c + 1 < columns_limit → position (add_64 c 1) 0 ≡ triangle c + c
new_size c h =
    rw wrapped
      (omega (arith, position-eq-triangle (suc c) 0 (omega arith), ap triangle top, triangle-suc c))
  where
    wrapped : add_64 c 1 ≡ suc c
    wrapped = omega arith

    top : max (suc c) 0 ≡ suc c
    top = omega arith

module _ {ℓ} {A : Type ℓ} where
  -- The vector has one element for each pair of indices below the number of columns.
  pub record IsValid (m : UpperMatrix A) : Type 0 where
    pub sized : length m.elements ≡ triangle m.columns
    pub small : m.columns < columns_limit

  -- A pair of different indices below the number of columns.
  pub record IsPair (m : UpperMatrix A) (x y : ℕ) : Type 0 where
    pub apart : x ≢ y
    pub first_in : x < m.columns
    pub second_in : y < m.columns

  pub in_range :
      (m : UpperMatrix A) (x y : ℕ) → IsValid m → IsPair m x y → position x y < length m.elements
  in_range m x y v p =
      omega (arith, position-lt x y m.columns v.small p.apart p.first_in p.second_in, v.sized)

  -- `at` does not throw on a pair of different indices below the number of columns.
  pub at-some :
      (m : UpperMatrix A) (x y : ℕ) → IsValid m → IsPair m x y → (a : A) × (at x y m ≡ some a)
  unfolding at
  at-some m x y v p = get_elem?-of_lt m.elements (position x y) (in_range m x y v p)

  pub write_at-IsValid :
      (x y : ℕ) (a : A) (m : UpperMatrix A) → IsValid m → IsValid (write_at x y a m)
  unfolding write_at
  write_at-IsValid x y a m v = record {
    sized = omega (arith, length-set m.elements (position x y) a, v.sized);
    small = v.small;
  }

  pub at-write_at_same :
      (x y x' y' : ℕ) (a : A) (m : UpperMatrix A)
      → IsValid m
      → IsPair m x y
      → position x' y' ≡ position x y
      → at x' y' (write_at x y a m) ≡ some a
  unfolding at write_at
  at-write_at_same x y x' y' a m v p e =
      rw e (get_elem?-set_self m.elements (position x y) a (in_range m x y v p))

  pub at-write_at_ne :
      (x y x' y' : ℕ) (a : A) (m : UpperMatrix A)
      → position x y ≢ position x' y'
      → at x' y' (write_at x y a m) ≡ at x' y' m
  unfolding at write_at
  at-write_at_ne x y x' y' a m ne =
      get_elem?-set_ne m.elements {i = position x y} {j = position x' y'} a ne

  pub emplace-write_at :
      (x y : ℕ) (a : A) (m : UpperMatrix A)
      → IsValid m
      → IsPair m x y
      → emplace x y a m ≡ write_at x y a m
  unfolding emplace write_at
  emplace-write_at x y a m v p = ground (arith, in_range m x y v p)

  -- What `emplace` puts at a pair is what `at` finds there, with the indices in either order; at
  -- every other pair `at` finds what it found before; and the vector keeps its size.
  pub emplace_lem :
      (x y x' y' : ℕ) (a : A) (m : UpperMatrix A)
      → IsValid m
      → IsPair m x y
      → IsPair m x' y'
      → (at x y (emplace x y a m) ≡ some a)
        × (at y x (emplace x y a m) ≡ some a)
        × (((max x y ≡ max x' y') × (min x y ≡ min x' y'))
            ⊎ (at x' y' (emplace x y a m) ≡ at x' y' m))
        × IsValid (emplace x y a m)
  emplace_lem x y x' y' a m v p p' = rw (emplace-write_at x y a m v p) (
    at-write_at_same x y x y a m v p refl,
    at-write_at_same x y y x a m v p
        (sym (position-lt x y m.columns v.small p.apart p.first_in p.second_in).1),
    other (ℕ_discrete (position x y) (position x' y')),
    write_at-IsValid x y a m v,
  )
    where
      other :
          Dec (position x y ≡ position x' y')
          → ((max x y ≡ max x' y') × (min x y ≡ min x' y'))
            ⊎ (at x' y' (write_at x y a m) ≡ at x' y' m)
      other (yes e) = inl (
          position-injective x y x' y' m.columns v.small p.apart p'.apart p.first_in p.second_in
            p'.first_in p'.second_in e)
      other (no ne) = inr (at-write_at_ne x y x' y' a m ne)

  -- Below 2^32 columns `increase` adds one column and returns its index, keeps the element of every
  -- pair there was, and gives every pair with the new index the value `T {}`.
  pub increase_lem :
      (d : A) (m : UpperMatrix A)
      → IsValid m
      → m.columns + 1 < columns_limit
      → IsValid (increase d m).1
        × ((increase d m).0 ≡ m.columns)
        × ((increase d m).1.columns ≡ m.columns + 1)
        × ((x y : ℕ) → IsPair m x y → at x y (increase d m).1 ≡ at x y m)
        × ((y : ℕ) → y < m.columns → at m.columns y (increase d m).1 ≡ some d)
  unfolding increase at
  increase_lem d m v h = (
    record {
      sized = omega (
        arith,
        length-resize (position (add_64 c 1) 0) d m.elements,
        new_size c h,
        ap triangle wrapped,
        triangle-suc c,
      );
      small = omega arith;
    },
    omega arith,
    omega arith,
    (λ x y p. kept x y p),
    (λ y lt. added y lt),
  )
    where
      open m use {columns as c}

      wrapped : add_64 c 1 ≡ suc c
      wrapped = omega arith

      kept :
          (x y : ℕ)
          → IsPair m x y
          → get_elem? (resize (position (add_64 c 1) 0) d m.elements) (position x y)
            ≡ get_elem? m.elements (position x y)
      kept x y p =
          get_elem?-resize (position (add_64 c 1) 0) (position x y) d m.elements
            (omega (arith, new_size c h, in_range m x y v p, v.sized)) (in_range m x y v p)

      added :
          (y : ℕ)
          → y < c
          → get_elem? (resize (position (add_64 c 1) 0) d m.elements) (position c y) ≡ some d
      added y lt =
          let slot = position-eq-triangle c y (omega (arith, v.small)) in
          get_elem?-resize_new (position (add_64 c 1) 0) (position c y) d m.elements
            (omega (arith, new_size c h, slot, ap triangle (larger y lt)))
            (omega (arith, slot, ap triangle (larger y lt), v.sized))
        where
          larger : (y : ℕ) → y < c → max c y ≡ c
          larger y lt = omega arith
