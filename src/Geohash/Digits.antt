-- ===== src/Geohash/Digits.antt =====
-- The loop ends, with the digits that were asked for.
use muondetector_cluster.Prelude.{
  ℕ, zero, suc, ◌+◌, ◌*◌, ◌^◌, ◌<◌, ◌≤◌, min, ◌≡◌, refl, subst, ap, ◌∙◌, Bool, true, false, [], ◌∷◌,
  ◌++◌, some, Text, if◌then◌else◌, ltb, ◌==◌, length, get_or, get_elem?, get_elem?-of_lt,
  get_elem?-eq-get_or, length-append, All, All-append, arith, Bool-cases, inl, inr, if-cases,
}
use native.Mathlib.Nat.{pow-suc}
use muondetector_cluster.Prelude.Floats.{Double, Floats}
use muondetector_cluster.Geohash.{
  base32, Cursor, emit, bisect, middle, refine, whole_world, is_outside, from_coordinates,
}

-- A digit of the map: one of its 32 characters, which are neither a blank nor a slash.
abbrev pub IsDigit : ℕ → Type 0
IsDigit c = (i : ℕ) × (i < 32) × (get_elem? base32 i ≡ some c)

-- The index stays below the power of the bits that it has.
record IsPlaced (c : Cursor) : Type 0 where
  bit_lt : c.bit < 5
  idx_lt : c.idx < 2 ^ c.bit
  digits : All IsDigit c.geohash

-- The rounds that were made.
abbrev rounds : Cursor → ℕ
rounds c = 5 * length c.geohash + c.bit

IsDigit-at : (i : ℕ) → i < 32 → IsDigit (get_or base32 i 0)
unfolding base32
IsDigit-at i h =
    let (c, q) = get_elem?-of_lt base32 i h in
    (i, h, ground (arith, q, get_elem?-eq-get_or base32 i 0 h))

abbrev Advances : Cursor → Cursor → Type 0
Advances c c' = IsPlaced c' × (rounds c' ≡ rounds c + 1)

-- A round's end: a bit more, or a digit more.
emit-Advances :
    (c : Cursor) → c.bit < 5 → c.idx < 2 ^ (c.bit + 1) → All IsDigit c.geohash → Advances c (emit c)
unfolding emit
emit-Advances c b i d =
    let next = get_or base32 c.idx 0 in
    if-cases (Advances c) (c.bit + 1 == 5)
      (record c { bit = 0; idx = 0; geohash = c.geohash ++ next ∷ [] })
      (record c { bit = c.bit + 1 })
      (λ full.
        let four : c.bit ≡ 4 = ground (arith, full) in
        let below : c.idx < 32 = subst (λ k. c.idx < 2 ^ (k + 1)) four i in
        (
          record {
            bit_lt = omega arith;
            idx_lt = omega arith;
            digits = All-append IsDigit c.geohash (next ∷ []) d (IsDigit-at c.idx below, tt);
          },
          omega (arith, length-append c.geohash (next ∷ []), four),
        ))
      (λ more. (record { bit_lt = ground (arith, more, b); idx_lt = i; digits = d }, omega arith))

double_lt : (a k : ℕ) → a < 2 ^ k → a * 2 + 1 < 2 ^ (k + 1)
double_lt a k h =
    let one : k + 1 ≡ suc k = omega arith in
    let twice : 2 ^ (k + 1) ≡ 2 ^ k * 2 = ap (λ j. 2 ^ j) one ∙ pow-suc 2 k in
    omega (arith, h, twice)

capped : (precision : ℕ) → (if ltb 12 precision then 12 else precision) ≡ min 12 precision
capped precision = ground arith

module _ (fl : Floats) (ge : Double → Double → Bool) where
  round-Advances :
      (lon lat : Double) (c : Cursor) → IsPlaced c → Advances c (emit (bisect fl ge lon lat c))
  unfolding bisect
  round-Advances lon lat c p =
      let P : Cursor → Type 0 = λ c'. Advances c (emit c') in
      let up = double_lt c.idx c.bit p.idx_lt in
      if-cases P c.even_bit _ _
        (λ e.
          if-cases P (ge lon (middle fl ge c.lon_min c.lon_max)) _ _
            (λ b.
              emit-Advances
                (record c {
                  even_bit = false;
                  idx = c.idx * 2 + 1;
                  lon_min = middle fl ge c.lon_min c.lon_max;
                })
                p.bit_lt up p.digits)
            (λ b.
              emit-Advances
                (record c {
                  even_bit = false;
                  idx = c.idx * 2;
                  lon_max = middle fl ge c.lon_min c.lon_max;
                })
                p.bit_lt (omega (arith, up)) p.digits))
        (λ e.
          if-cases P (ge lat (middle fl ge c.lat_min c.lat_max)) _ _
            (λ b.
              emit-Advances
                (record c {
                  even_bit = true;
                  idx = c.idx * 2 + 1;
                  lat_min = middle fl ge c.lat_min c.lat_max;
                })
                p.bit_lt up p.digits)
            (λ b.
              emit-Advances
                (record c {
                  even_bit = true;
                  idx = c.idx * 2;
                  lat_max = middle fl ge c.lat_min c.lat_max;
                })
                p.bit_lt (omega (arith, up)) p.digits))

  -- Enough fuel for the rounds that are left gives the digits.
  refine_lem :
      (fuel : ℕ) (lon lat : Double) (precision : ℕ) (c : Cursor)
      → IsPlaced c
      → rounds c ≤ 5 * precision
      → 5 * precision < rounds c + fuel
      → (t : Text) × (refine fl ge fuel lon lat precision c ≡ some t)
        × (length t ≡ precision)
        × All IsDigit t
  unfolding refine
  refine_lem zero lon lat precision c p made enough = absurd (omega (arith, made, enough))
  refine_lem (suc fuel) lon lat precision c p made enough =
      let next = emit (bisect fl ge lon lat c) in
      let (placed, one_more) = round-Advances lon lat c p in
      elim (Bool-cases (ltb (length c.geohash) precision)) [
        | inl short ↦
            let fewer : length c.geohash < precision = ground (arith, short) in
            let (t, made, long, digits) =
              refine_lem fuel lon lat precision next placed
                (omega (arith, one_more, p.bit_lt, fewer)) (omega (arith, one_more, enough)) in
            (t, ground (arith, short, made), long, digits)
        | inr full ↦ (c.geohash, ground (arith, full), ground (arith, full, made), p.digits)
      ]

  -- The text for a place on the earth has as many digits as were asked for, twelve at most, and
  -- that for any other place none; each is a character of the map of 32. The loop ends.
  pub from_coordinates_lem :
      (lon lat : Double) (precision : ℕ)
      → (t : Text) × (from_coordinates fl ge lon lat precision ≡ some t)
        × (length t ≡ (if is_outside fl ge lon lat then 0 else min 12 precision))
        × All IsDigit t
  unfolding from_coordinates
  from_coordinates_lem lon lat precision = elim (Bool-cases (is_outside fl ge lon lat)) [
    | inl out ↦ ([], rw out refl, rw out refl, tt)
    | inr on_earth ↦
        let (t, made, long, digits) =
          refine_lem 61 lon lat (min 12 precision) (whole_world fl ge)
            (record { bit_lt = omega arith; idx_lt = omega arith; digits = tt }) (omega arith)
            (omega arith) in
        (t, rw (on_earth, capped precision) made, rw on_earth long, digits)
  ]
