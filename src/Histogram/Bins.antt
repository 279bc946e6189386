-- ===== src/Histogram/Bins.antt =====
-- The integral, the list of bins with their bounds, and clearing.
use muondetector_cluster.Prelude.{
  ℕ, zero, suc, ◌+◌, ◌*◌, ◌%◌, ◌^◌, ◌<◌, ◌≡◌, refl, ◌∙◌, ap, List, [], ◌∷◌, Option, some, arith,
  length, get_elem?, set, add_64, map, All, All-get_elem?,
}
use muondetector_cluster.Prelude.Int.{ℤ, pos, ◌+ℤ◌, int_laws}
use muondetector_cluster.Prelude.Sums.{sum_by, sum_by-set}
use muondetector_cluster.Histogram.{
  Histogram, Bin, bin_index, add, qualified_from, qualified_bins, integral_from, integral, clear,
}
use muondetector_cluster.Histogram.Bounds.{IsValid, IsInside, add_inside}

-- The sum of the bins, as a number.
abbrev pub total : List ℕ → ℕ
total = sum_by λ n. n

integral_from-total :
    (t : ℕ) (ns : List ℕ) → t < 2 ^ 64 → integral_from t ns ≡ (t + total ns) % 2 ^ 64
unfolding integral_from
integral_from-total t [] h = omega arith
integral_from-total t (n ∷ ns) h = omega (arith, integral_from-total (add_64 t n) ns (omega arith))

-- The integral is the sum of the bins, modulo 2^64.
pub integral_lem : (h : Histogram) → integral h ≡ total h.bins % 2 ^ 64
unfolding integral
integral_lem h = omega (arith, integral_from-total 0 h.bins (omega arith))

-- Counting a value inside the interval raises the integral by one, while the bin of the value is
-- below 2^32 - 1 and the integral does not wrap.
pub integral-add :
    (size : ℕ) (value : ℤ) (h : Histogram)
    → IsValid size h
    → IsInside size value h
    → All (λ c. c + 1 < 2 ^ 32) h.bins
    → total h.bins + 1 < 2 ^ 64
    → (h' : Histogram) × (add value h ≡ some h') × (integral h' ≡ integral h + 1)
integral-add size value h v i small room =
    let (c, q, e, below, above) = add_inside size value h v i in
    let bins = set h.bins (bin_index value h) ((c + 1) % 2 ^ 32) in
    (
      record h { bins = bins },
      e,
      omega (
        arith,
        integral_lem h,
        integral_lem (record h { bins = bins }),
        sum_by-set (λ n. n) h.bins (bin_index value h) c ((c + 1) % 2 ^ 32) q,
        All-get_elem? (λ n. n + 1 < 2 ^ 32) h.bins (bin_index value h) c small q,
      ),
    )

total-clear : (ns : List ℕ) → total (map (λ n. 0) ns) ≡ 0
total-clear [] = refl
total-clear (n ∷ ns) = omega (arith, total-clear ns)

length-clear : (ns : List ℕ) → length (map {B = ℕ} (λ n. 0) ns) ≡ length ns
length-clear [] = refl
length-clear (n ∷ ns) = ap suc (length-clear ns)

-- Clearing leaves the bounds and the number of bins, and the integral is 0.
pub integral-clear :
    (h : Histogram)
    → (integral (clear h) ≡ 0)
      × (length (clear h).bins ≡ length h.bins)
      × ((clear h).width ≡ h.width)
      × ((clear h).lower ≡ h.lower)
      × ((clear h).upper ≡ h.upper)
unfolding clear
integral-clear h = (
  integral_lem (record h { bins = map (λ n. 0) h.bins }) ∙ rw (total-clear h.bins) refl,
  length-clear h.bins,
  refl,
  refl,
  refl,
)

bin_eq :
    (a b a' b' : ℤ) (c : ℕ)
    → a ≡ a'
    → b ≡ b'
    → ◌≡◌ {A = Option Bin}
        (some (record { lower = a; upper = b; count = c }))
        (some (record { lower = a'; upper = b'; count = c }))
bin_eq a b a' b' c p q = rw (p, q) refl

get_elem?-qualified_from :
    (k c w : ℕ) (last : ℤ) (bs : List ℕ)
    → get_elem? bs k ≡ some c
    → get_elem? (qualified_from (pos w) last bs) k
      ≡ some (record { lower = last +ℤ pos (k * w); upper = last +ℤ pos (suc k * w); count = c })
unfolding qualified_from
get_elem?-qualified_from k c w last [] q = cc q
get_elem?-qualified_from zero c w last (b ∷ bs) q =
    ap (λ n. some (record { lower = last; upper = last +ℤ pos w; count = n })) (ground arith)
    ∙ bin_eq last (last +ℤ pos w) _ _ c (omega int_laws) (ap (λ m. last +ℤ pos m) (omega arith))
get_elem?-qualified_from (suc k) c w last (b ∷ bs) q =
    get_elem?-qualified_from k c w (last +ℤ pos w) bs q ∙ bin_eq _ _ _ _ c (shift k) (shift (suc k))
  where
    shift : (n : ℕ) → last +ℤ pos w +ℤ pos (n * w) ≡ last +ℤ pos (suc n * w)
    shift n = omega int_laws

-- The bins tile the interval: bin `k` runs from `lower + k * width` to `lower + (k + 1) * width`,
-- for a width that is a positive number or 0, and shows the count of its counter.
pub qualified_bins_lem :
    (k c w : ℕ) (h : Histogram)
    → h.width ≡ pos w
    → get_elem? h.bins k ≡ some c
    → get_elem? (qualified_bins h) k
      ≡ some
          (record { lower = h.lower +ℤ pos (k * w); upper = h.lower +ℤ pos (suc k * w); count = c })
unfolding qualified_bins
qualified_bins_lem k c w h e q = rw e (get_elem?-qualified_from k c w h.lower h.bins q)
