-- ===== src/Matrix.antt =====
-- `upper_matrix` (include/analysis/uppermatrix.h): one element for each unordered pair of indices,
-- in a vector. The assertions of `position` are left out, as in a release build, but for those that
-- `try_increase` meets. `none` is the exception of `vector::at`.
pub mod Position
pub mod Access
pub mod Iterate
mod Tests
use muondetector_cluster.Prelude.{
  ℕ, zero, suc, ◌+◌, ◌-◌, ◌*◌, ◌/◌, ◌%◌, ◌^◌, max, min, Bool, true, false, List, [], ◌∷◌, Option,
  some, none, ◌>>=◌, if◌then◌else◌, ◌==◌, ◌&&◌, not, ltb, leb, get_elem?, set, add_64,
}

pub record UpperMatrix {ℓ} (A : Type ℓ) : Type ℓ where
  pub columns : ℕ
  pub elements : List A

-- `std::size_t` arithmetic, modulo 2^64.
unfoldable pub position : ℕ → ℕ → ℕ
position x y =
    let x_c = max x y in
    let y_c = min x y in add_64 ((x_c * x_c % 2 ^ 64 + 2 ^ 64 - x_c) % 2 ^ 64 / 2) y_c

-- The assertions of `position`, in a matrix of so many columns.
unfoldable pub asserted : ℕ → ℕ → ℕ → Bool
asserted columns x y = not (x == y) && ltb x columns && ltb y columns

module _ {ℓ} {A : Type ℓ} where
  -- `vector::resize`, which fills up with `T {}`
  unfoldable pub resize : ℕ → A → List A → List A
  resize zero d xs = []
  resize (suc n) d [] = d ∷ resize n d []
  resize (suc n) d (x ∷ xs) = x ∷ resize n d xs

  -- For an element type that is not made from a number, so that the braces of the constructor give
  -- the size of the vector and not its one element.
  unfoldable pub create : ℕ → A → UpperMatrix A
  create n d = record { columns = n; elements = resize (position n 0) d [] }

  unfoldable pub at : ℕ → ℕ → UpperMatrix A → Option A
  at x y m = get_elem? m.elements (position x y)

  -- The write through the reference that `at` returns.
  unfoldable pub write_at : ℕ → ℕ → A → UpperMatrix A → UpperMatrix A
  write_at x y v m = record m { elements = set m.elements (position x y) v }

  unfoldable pub emplace : ℕ → ℕ → A → UpperMatrix A → UpperMatrix A
  emplace x y item m = elim m.elements [
    | [] ↦ m
    | e ∷ es ↦ record m { elements = set m.elements (position x y) item }
  ]

  -- The result is the index of the new column.
  unfoldable pub increase : A → UpperMatrix A → ℕ × UpperMatrix A
  unfolding resize
  increase d m =
      let columns = add_64 m.columns 1 in
      (
        columns - 1,
        record { columns = columns; elements = resize (position columns 0) d m.elements },
      )

  -- `increase` in a build with or without assertions; `none` is the end of the program by one.
  unfoldable pub try_increase : Bool → A → UpperMatrix A → Option (ℕ × UpperMatrix A)
  unfolding increase asserted
  try_increase assertions d m =
      let columns = add_64 m.columns 1 in
      if assertions && not (asserted columns columns 0) then none else some (increase d m)

  -- The body of both loops of `swap_last`: two elements change places.
  unfoldable pub swap : ℕ → ℕ → ℕ → ℕ → UpperMatrix A → Option (UpperMatrix A)
  unfolding at write_at
  swap x1 y1 x2 y2 m = do
    temp ← at x1 y1 m
    other ← at x2 y2 m
    some (write_at x2 y2 temp (write_at x1 y1 other m))

  -- The first loop, over `y` from `i` on, with `n` rounds left.
  unfoldable pub swap_rows : ℕ → ℕ → ℕ → UpperMatrix A → Option (UpperMatrix A)
  unfolding swap
  swap_rows zero i first m = some m
  swap_rows (suc n) i first m = do
    m' ← swap first i (m.columns - 1) i m
    swap_rows n (i + 1) first m'

  -- The second loop, over `x` from `i` on, with `n` rounds left.
  unfoldable pub swap_columns : ℕ → ℕ → ℕ → UpperMatrix A → Option (UpperMatrix A)
  unfolding swap
  swap_columns zero i first m = some m
  swap_columns (suc n) i first m = do
    m' ← swap i first (m.columns - 1) (i - 1) m
    swap_columns n (i + 1) first m'

  -- `m_columns - 1` wraps only at 0, where no index is below it either way.
  unfoldable pub swap_last : ℕ → UpperMatrix A → Option (UpperMatrix A)
  unfolding swap_rows swap_columns
  swap_last first m = if leb ((m.columns + 2 ^ 64 - 1) % 2 ^ 64) first then some m else do
    m' ← swap_rows first 0 first m
    swap_columns (m.columns - (first + 1)) (first + 1) first m'

  -- `m_columns--` and the resize after it.
  unfoldable pub shrink : A → UpperMatrix A → UpperMatrix A
  unfolding resize
  shrink d m = record {
    columns = m.columns - 1;
    elements = resize (position (m.columns - 1) 0) d m.elements;
  }

  unfoldable pub remove_index : A → ℕ → UpperMatrix A → Option (UpperMatrix A)
  unfolding swap_last shrink
  remove_index d index m =
      if leb m.columns index
      then some m
      else if index == m.columns - 1
      then some (shrink d m)
      else do
        m' ← swap_last index m
        let m'' = shrink d m'
        if index == m''.columns - 1 then some m'' else swap_last index m''

  unfoldable pub reset : UpperMatrix A → UpperMatrix A
  reset m = record { columns = 0; elements = [] }

  -- The loop of `iterate` over `y` from `i` on, with `n` rounds left; `f` is the callback's effect
  -- on the element.
  unfoldable pub iterate_from : ℕ → ℕ → ℕ → (A → A) → UpperMatrix A → Option (UpperMatrix A)
  unfolding at write_at
  iterate_from zero i index f m = some m
  iterate_from (suc n) i index f m = elim (i == index) [
    | true ↦ iterate_from n (i + 1) index f m
    | false ↦ elim (at index i m) [
      | none ↦ none
      | some v ↦ iterate_from n (i + 1) index f (write_at index i (f v) m)
    ]
  ]

  unfoldable pub iterate : ℕ → (A → A) → UpperMatrix A → Option (UpperMatrix A)
  unfolding iterate_from
  iterate index f m = iterate_from m.columns 0 index f m
