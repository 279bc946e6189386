-- ===== src/Series/Window.antt =====
-- The ring buffer of `data_series` holds the last N values, in order.
use muondetector_cluster.Prelude.{
  ℕ, suc, ◌+◌, ◌%◌, ◌≤◌, ◌<◌, ◌≡◌, refl, sym, ◌∙◌, ap, true, List, [], ◌∷◌, ◌++◌, arith,
  if◌then◌else◌, length, length-append, length-set, get_or, get_or-set_ne, set, take, subst,
  length-replicate, ◌⊎◌, inl, inr, Bool-cases,
}
use mathlib.Core.List.{append-nil, append_assoc}
use native.Mathlib.Numerals.{add-one}
use native.Mathlib.Nat.{mod-eq_of_lt}
use muondetector_cluster.Prelude.Floats.{Double}
use muondetector_cluster.Prelude.Rings.{
  drop, tail, take_last, take-set, drop-set, tail-drop-append, drop_all, take_all,
  length-drop-append-take, length-take_le, take_last-cons, take_last-short,
}
use muondetector_cluster.Series.{Series, init, add, entries, current}

-- The values in the buffer, oldest first.
abbrev pub contents : Series → List Double
contents s =
    if s.full then drop s.index s.buffer ++ take s.index s.buffer else take s.index s.buffer

module _ (size : ℕ) where
  pub record IsValid (s : Series) : Type 0 where
    pub sized : length s.buffer ≡ size
    pub index_in : s.index < size

  pub init-IsValid : (z : Double) → 0 < size → IsValid (init size z)
  unfolding init
  init-IsValid z h = record { sized = length-replicate size z; index_in = h }

  next_cases :
      (s : Series)
      → IsValid s
      → ((s.index + 1 < size) × ((s.index + 1) % size ≡ s.index + 1))
        ⊎ ((s.index + 1 ≡ size) × ((s.index + 1) % size ≡ 0))
  next_cases s v = grind (arith, mod-eq_of_lt)

  pub add-IsValid : (value : Double) (s : Series) → IsValid s → IsValid (add size value s)
  unfolding add
  add-IsValid value s v = record {
    sized = omega (arith, length-set s.buffer s.index value, v.sized);
    index_in = ground (arith, next_cases s v);
  }

  pub length-contents : (s : Series) → IsValid s → length (contents s) ≡ entries size s
  unfolding entries
  length-contents s v = ground (
    arith,
    length-drop-append-take s.buffer s.index,
    length-take_le s.buffer s.index,
    v.sized,
    v.index_in,
  )

  pub entries-le : (s : Series) → IsValid s → entries size s ≤ size
  unfolding entries
  entries-le s v = ground (arith, v.index_in)

  -- A value goes to the end, and pushes out the oldest if the buffer is full.
  contents-add :
      (value : Double) (s : Series)
      → IsValid s
      → contents (add size value s)
        ≡ (if s.full then tail (contents s) else contents s) ++ value ∷ []
  unfolding add
  contents-add value s v =
      let i = s.index in
      let b = s.buffer in
      let written = take-set b i value (omega (arith, v.sized, v.index_in)) in
      let shifted = tail-drop-append b (take i b) i (omega (arith, v.sized, v.index_in)) in
      elim (next_cases s v) [
        | inl (lt, e) ↦
            rw (e, add-one)
              (ground (
                arith,
                written,
                shifted,
                drop-set b i value,
                append_assoc (drop (suc i) b) (take i b) (value ∷ []),
              ))
        | inr (eq, e) ↦ rw e (
            ground (
              arith,
              written,
              shifted,
              append-nil (set b i value),
              take_all (set b i value) (suc i) (omega (arith, length-set b i value, v.sized)),
              drop_all b (suc i) (omega (arith, v.sized)),
            ))
      ]

  full-length : (s : Series) → IsValid s → s.full ≡ true → length (contents s) ≡ size
  unfolding entries
  full-length s v h = ground (arith, length-contents s v)

  pushed_out :
      (c xs : List Double) (x : Double)
      → length c ≡ size
      → 0 < size
      → take_last size ((tail c ++ x ∷ []) ++ xs) ≡ take_last size (c ++ x ∷ xs)
  pushed_out [] xs x h pos = absurd (omega arith)
  pushed_out (y ∷ c) xs x h pos =
      ap (take_last size) (append_assoc c (x ∷ []) xs)
      ∙ sym (take_last-cons size y (c ++ x ∷ xs) (omega (arith, length-append c (x ∷ xs))))

  -- Adding a list of values, in order.
  abbrev pub add_all : List Double → Series → Series
  add_all [] s = s
  add_all (x ∷ xs) s = add_all xs (add size x s)

  -- After any values have been added the series holds exactly the last N of those that it held and
  -- those added, in order.
  pub contents-add_all :
      (xs : List Double) (s : Series)
      → IsValid s
      → contents (add_all xs s) ≡ take_last size (contents s ++ xs)
  contents-add_all [] s v =
      rw (append-nil (contents s)) (
        sym
          (take_last-short size (contents s) (omega (arith, length-contents s v, entries-le s v))))
  contents-add_all (x ∷ xs) s v =
      contents-add_all xs (add size x s) (add-IsValid x s v)
      ∙ ap (λ c. take_last size (c ++ xs)) (contents-add x s v)
      ∙ elim (Bool-cases s.full) [
        | inl full ↦ rw full (
            subst (λ c. take_last size ((tail c ++ x ∷ []) ++ xs) ≡ take_last size (c ++ x ∷ xs))
              (open_full full)
              (pushed_out (contents s) xs x (full-length s v full) (omega (arith, v.index_in))))
        | inr room ↦ rw (room, append_assoc (take s.index s.buffer) (x ∷ []) xs) refl
      ]
    where
      open_full : s.full ≡ true → contents s ≡ drop s.index s.buffer ++ take s.index s.buffer
      open_full full = rw full refl

  -- Directly after a value has been added `current` reads the slot that the next value will be
  -- written to, whatever the value was, if N is at least 2.
  pub current-add :
      (value d : Double) (s : Series)
      → IsValid s
      → 1 < size
      → current size (add size value s) d ≡ get_or s.buffer ((s.index + 1) % size) d
  unfolding add current
  current-add value d s v h =
      get_or-set_ne s.buffer {i = s.index} {j = (s.index + 1) % size} value d
        (ground (arith, next_cases s v, v.index_in))
