-- ===== src/Histogram/Bounds.antt =====
-- When `add` stays inside the array of bins, and what it counts.
use native.Mathlib.Nat.{div-add-mod, mod-lt}
use muondetector_cluster.Prelude.{
  ℕ, suc, ◌+◌, ◌*◌, ◌/◌, ◌%◌, ◌^◌, ◌≤◌, ◌<◌, ◌≡◌, sym, ◌∙◌, ap, false, ◌||◌, some, none, arith,
  length, get_elem?, set, ◌⊎◌, inl, inr, length-replicate, get_elem?-of_lt, get_elem?-ge,
}
use muondetector_cluster.Prelude.Int.{
  ℤ, pos, ◌-ℤ◌, -ℤ_parts, quot_ℤ, pos_part, neg_part, ltb_ℤ, leb_ℤ, ◌≤ℤ◌, ◌<ℤ◌,
}
use muondetector_cluster.Histogram.{Histogram, between, bin_index, increment, add}

div-lt : (a w n : ℕ) → 0 < w → a < n * w → a / w < n
div-lt a w n p h = grind (arith, div-add-mod)

div-ge : (a w n : ℕ) → 0 < w → n * w ≤ a → n ≤ a / w
div-ge a w n p h = grind (arith, div-add-mod, mod-lt)

div-mul-le : (a w : ℕ) → 0 < w → (a / w * w ≤ a) × (a < suc (a / w) * w)
div-mul-le a w p = grind (arith, div-add-mod, mod-lt)

div-mul : (n w : ℕ) → 0 < n → n * w / n ≡ w
div-mul n w p = grind (arith, div-add-mod, mod-lt)

module _ (size : ℕ) where
  -- The bins have a positive width and together make up the interval.
  pub record IsValid (h : Histogram) : Type 0 where
    pub sized : length h.bins ≡ size
    pub positive : 0 < pos_part h.width
    pub covers : pos_part (h.upper -ℤ h.lower) ≡ size * pos_part h.width

  -- A value is in the half-open interval.
  abbrev pub IsInside : ℤ → Histogram → Type 0
  IsInside value h = (h.lower ≤ℤ value) × (value <ℤ h.upper)

  offset-lt :
      (value : ℤ) (h : Histogram)
      → IsInside value h
      → pos_part (value -ℤ h.lower) < pos_part (h.upper -ℤ h.lower)
  offset-lt value h i =
      omega (arith, -ℤ_parts value h.lower, -ℤ_parts h.upper h.lower, i.0, i.1, signs)
    where
      signs : neg_part (value -ℤ h.lower) ≡ 0
      signs = unfold ◌-ℤ◌ in ground (arith, i.0)

  index-lt : (value : ℤ) (h : Histogram) → IsValid h → IsInside value h → bin_index value h < size
  unfolding bin_index
  index-lt value h v i =
      div-lt (pos_part (value -ℤ h.lower)) (pos_part h.width) size v.positive
        (omega (arith, offset-lt value h i, v.covers))

  inside_test :
      (value : ℤ) (h : Histogram)
      → IsInside value h
      → (ltb_ℤ value h.lower || leb_ℤ h.upper value) ≡ false
  inside_test value h i = ground (arith, i.0, i.1)

  -- A value inside the interval of a histogram whose bins make it up is counted without a fault, in
  -- the one bin [lower + i * width, lower + (i + 1) * width) that holds it, on 32 bits; nothing
  -- else changes.
  pub add_inside :
      (value : ℤ) (h : Histogram)
      → IsValid h
      → IsInside value h
      → (c : ℕ) × (get_elem? h.bins (bin_index value h) ≡ some c)
        × (add value h
            ≡ some (record h { bins = set h.bins (bin_index value h) ((c + 1) % 2 ^ 32) }))
        × (bin_index value h * pos_part h.width ≤ pos_part (value -ℤ h.lower))
        × (pos_part (value -ℤ h.lower) < suc (bin_index value h) * pos_part h.width)
  add_inside value h v i =
      let (c, q) =
        get_elem?-of_lt h.bins (bin_index value h) (omega (arith, index-lt value h v i, v.sized)) in
      let bounds = div-mul-le (pos_part (value -ℤ h.lower)) (pos_part h.width) v.positive in
      (c, q, counted c q, unfold bin_index in bounds.0, unfold bin_index in bounds.1)
    where
      counted :
          (c : ℕ)
          → get_elem? h.bins (bin_index value h) ≡ some c
          → add value h
            ≡ some (record h { bins = set h.bins (bin_index value h) ((c + 1) % 2 ^ 32) })
      counted c q = unfold add in rw (inside_test value h i) (ground (arith, q, v.positive))

  -- A value below `lower` or not below `upper` is not counted.
  pub add_outside :
      (value : ℤ) (h : Histogram) → (value <ℤ h.lower) ⊎ (h.upper ≤ℤ value) → add value h ≡ some h
  unfolding add
  add_outside value h (inl below) = ground arith
  add_outside value h (inr above) = ground arith

  -- If the bins do not reach up to `upper`, a value inside the interval that lies behind the last
  -- bin is written outside the array.
  pub add_behind_bins :
      (value : ℤ) (h : Histogram)
      → length h.bins ≡ size
      → 0 < pos_part h.width
      → IsInside value h
      → size * pos_part h.width ≤ pos_part (value -ℤ h.lower)
      → add value h ≡ none
  unfolding add increment
  add_behind_bins value h sized positive i behind =
      rw (inside_test value h i)
        (ground (arith, positive, get_elem?-ge h.bins (bin_index value h), reach))
    where
      reach : length h.bins ≤ bin_index value h
      reach =
          unfold bin_index in
          omega (
            arith,
            sized,
            div-ge (pos_part (value -ℤ h.lower)) (pos_part h.width) size positive behind,
          )

  -- A histogram between two bounds whose distance is a multiple of N has bins that make up the
  -- interval, and the width is that distance over N.
  pub between-IsValid :
      (lower upper : ℤ) (w : ℕ)
      → 0 < size
      → 0 < w
      → upper -ℤ lower ≡ pos (size * w)
      → IsValid (between size lower upper) × ((between size lower upper).width ≡ pos w)
  unfolding between
  between-IsValid lower upper w p q e = (
    record {
      sized = length-replicate size 0;
      positive = omega (arith, ap pos_part wide);
      covers = ap pos_part e ∙ ap (λ k. size * pos_part k) (sym wide);
    },
    wide,
  )
    where
      zero_div : 0 / size ≡ 0
      zero_div = omega arith

      wide : quot_ℤ (upper -ℤ lower) size ≡ pos w
      wide = unfold quot_ℤ in rw (e, zero_div, div-mul size w p) (ground arith)
