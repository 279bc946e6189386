-- ===== src/Aggregation/Entries.antt =====
-- The map of entries: its keys rise, and a sum is found where it was added.
use muondetector_cluster.Prelude.{
  ℕ, ◌+◌, ◌%◌, ◌^◌, ◌≡◌, refl, true, [], ◌∷◌, if◌then◌else◌, arith, Bool-cases, inl, inr, if-cases,
}
use muondetector_cluster.Prelude.Int.{ℤ, ltb_ℤ, ◌<ℤ◌}
use muondetector_cluster.Aggregation.{Entries, bump, eq_ℤ}

-- `0` for a bin without an entry.
abbrev pub count_at : ℤ → Entries → ℕ
count_at bin [] = 0
count_at bin ((b, c) ∷ rows) = if eq_ℤ b bin then c else count_at bin rows

abbrev pub IsAbove : ℤ → Entries → Type 0
IsAbove k [] = Unit
IsAbove k ((b, c) ∷ rows) = (k <ℤ b) × IsAbove b rows

abbrev pub IsSorted : Entries → Type 0
IsSorted [] = Unit
IsSorted ((b, c) ∷ rows) = IsAbove b rows

IsAbove-mono : (k b : ℤ) (rows : Entries) → k <ℤ b → IsAbove b rows → IsAbove k rows
IsAbove-mono k b [] h s = tt
IsAbove-mono k b ((q, c) ∷ rows) h s = (omega (arith, h, s.0), s.1)

pub IsAbove-IsSorted : (k : ℤ) (rows : Entries) → IsAbove k rows → IsSorted rows
IsAbove-IsSorted k [] s = tt
IsAbove-IsSorted k ((q, c) ∷ rows) s = s.1

pub count_at-above :
    (k b : ℤ) (rows : Entries) → eq_ℤ k b ≡ true → IsAbove k rows → count_at b rows ≡ 0
count_at-above k b [] e s = refl
count_at-above k b ((q, c) ∷ rows) e s =
    let beyond = IsAbove-mono k q rows s.0 s.1 in
    ground (arith, count_at-above k b rows e beyond, s.0, e)

bump-IsAbove :
    (k bin : ℤ) (count : ℕ) (rows : Entries)
    → k <ℤ bin
    → IsAbove k rows
    → IsAbove k (bump bin count rows)
unfolding bump
bump-IsAbove k bin count [] h s = (h, tt)
bump-IsAbove k bin count ((b, c) ∷ rows) h s =
    if-cases (IsAbove k) (eq_ℤ b bin) _ _ (λ same. s)
      (λ other.
        if-cases (IsAbove k) (ltb_ℤ bin b) _ _ (λ before. (h, (ground (arith, before), s.1)))
          (λ behind. (s.0, bump-IsAbove b bin count rows (ground (arith, other, behind)) s.1)))

pub bump-IsSorted :
    (bin : ℤ) (count : ℕ) (rows : Entries) → IsSorted rows → IsSorted (bump bin count rows)
unfolding bump
bump-IsSorted bin count [] s = tt
bump-IsSorted bin count ((b, c) ∷ rows) s =
    if-cases IsSorted (eq_ℤ b bin) _ _ (λ same. s)
      (λ other.
        if-cases IsSorted (ltb_ℤ bin b) _ _ (λ before. (ground (arith, before), s))
          (λ behind. bump-IsAbove b bin count rows (ground (arith, other, behind)) s))

before_lem :
    (bin b : ℤ) (count : ℕ) (q : ℤ) (c : ℕ) (rows : Entries)
    → ltb_ℤ bin q ≡ true
    → IsAbove q rows
    → count_at b ((bin, count % 2 ^ 32) ∷ (q, c) ∷ rows) ≡ (
        if eq_ℤ bin b
        then (count_at b ((q, c) ∷ rows) + count) % 2 ^ 32
        else count_at b ((q, c) ∷ rows))
before_lem bin b count q c rows before s =
    let smaller : bin <ℤ q = ground (arith, before) in
    elim (Bool-cases (eq_ℤ bin b)) [
      | inl same ↦
          let none_there = count_at-above bin b ((q, c) ∷ rows) same (smaller, s) in
          rw (same, none_there) (omega arith)
      | inr other ↦ rw other refl
    ]

pub count_at-bump :
    (bin b : ℤ) (count : ℕ) (rows : Entries)
    → IsSorted rows
    → count_at b (bump bin count rows)
      ≡ (if eq_ℤ bin b then (count_at b rows + count) % 2 ^ 32 else count_at b rows)
unfolding bump
count_at-bump bin b count [] s = ground arith
count_at-bump bin b count ((q, c) ∷ rows) s =
    let later = count_at-bump bin b count rows (IsAbove-IsSorted q rows s) in
    elim (Bool-cases (eq_ℤ q bin)) [
      | inl same ↦ rw same (ground (arith, same))
      | inr other ↦ rw other (elim (Bool-cases (ltb_ℤ bin q)) [
        | inl before ↦ rw before (before_lem bin b count q c rows before s)
        | inr behind ↦ rw behind (ground (arith, later, other))
      ])
    ]
