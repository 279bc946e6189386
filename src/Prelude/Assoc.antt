-- ===== src/Prelude/Assoc.antt =====
-- `std::map` with numbers for keys: the entries in the order of their keys.
use muondetector_cluster.Prelude.{
  ℕ, ◌<◌, ◌+◌, ◌≡◌, refl, List, [], ◌∷◌, Option, none, some, arith, ltb, ◌==◌, if◌then◌else◌,
  length, suc,
}

abbrev pub Map {ℓ} : Type ℓ → Type ℓ
Map V = List (ℕ × V)

module _ {ℓ} {V : Type ℓ} where
  -- `find`
  unfoldable pub lookup : ℕ → Map V → Option V
  lookup key [] = none
  lookup key ((q, x) ∷ rows) = if q == key then some x else lookup key rows

  -- `m[k] = v`
  unfoldable pub insert : ℕ → V → Map V → Map V
  insert key x [] = (key, x) ∷ []
  insert key x ((q, y) ∷ rows) =
      let rest = insert key x rows in
      if q == key
      then (key, x) ∷ rows
      else if ltb key q
      then (key, x) ∷ (q, y) ∷ rows
      else (q, y) ∷ rest

  unfoldable pub erase : ℕ → Map V → Map V
  erase key [] = []
  erase key ((q, x) ∷ rows) = if q == key then rows else (q, x) ∷ erase key rows

  -- The keys rise along the list and are all at least `n`.
  abbrev pub IsSortedFrom : ℕ → Map V → Type 0
  IsSortedFrom n [] = Unit
  IsSortedFrom n ((q, x) ∷ rows) = (n < suc q) × IsSortedFrom (suc q) rows

module _ {ℓ} {V : Type ℓ} where
  pub lookup-insert :
      (key q : ℕ) (x : V) (rows : Map V)
      → lookup q (insert key x rows) ≡ (if key == q then some x else lookup q rows)
  unfolding lookup insert
  lookup-insert key q x [] = refl
  lookup-insert key q x ((r, y) ∷ rows) = ground (arith, lookup-insert key q x rows)

  pub IsSortedFrom-mono :
      (a b : ℕ) (rows : Map V) → a < suc b → IsSortedFrom b rows → IsSortedFrom a rows
  IsSortedFrom-mono a b [] h s = tt
  IsSortedFrom-mono a b ((q, x) ∷ rows) h s = (omega arith, s.1)

  pub lookup_below :
      (key n : ℕ) (rows : Map V) → key < n → IsSortedFrom n rows → lookup key rows ≡ none
  unfolding lookup
  lookup_below key n [] h s = refl
  lookup_below key n ((q, x) ∷ rows) h s = ground (arith, lookup_below key (suc q) rows)

  pub insert-IsSortedFrom :
      (n key : ℕ) (x : V) (rows : Map V)
      → n < suc key
      → IsSortedFrom n rows
      → IsSortedFrom n (insert key x rows)
  unfolding insert
  insert-IsSortedFrom n key x [] h s = (h, tt)
  insert-IsSortedFrom n key x ((q, y) ∷ rows) h s =
      ground (arith, insert-IsSortedFrom (suc q) key x rows)

  pub erase-IsSortedFrom :
      (n key : ℕ) (rows : Map V) → IsSortedFrom n rows → IsSortedFrom n (erase key rows)
  unfolding erase
  erase-IsSortedFrom n key [] s = tt
  erase-IsSortedFrom n key ((q, y) ∷ rows) s =
      ground (arith, erase-IsSortedFrom (suc q) key rows s.1, IsSortedFrom-mono n (suc q) rows)

  pub lookup-erase :
      (key q n : ℕ) (rows : Map V)
      → IsSortedFrom n rows
      → lookup q (erase key rows) ≡ (if key == q then none else lookup q rows)
  unfolding lookup erase
  lookup-erase key q n [] s = ground arith
  lookup-erase key q n ((r, y) ∷ rows) s =
      ground (arith, lookup-erase key q (suc r) rows s.1, lookup_below r (suc r) rows)

  pub length-insert_new :
      (key : ℕ) (x : V) (rows : Map V)
      → lookup key rows ≡ none
      → length (insert key x rows) ≡ length rows + 1
  unfolding lookup insert
  length-insert_new key x [] h = omega arith
  length-insert_new key x ((q, y) ∷ rows) h = ground (arith, length-insert_new key x rows)
