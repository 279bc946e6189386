-- ===== src/Series/Cache.antt =====
-- The cached statistics of `data_series` are never stale.
use muondetector_cluster.Prelude.{
  ◌≡◌, refl, Bool, true, false, arith, if◌then◌else◌, ℕ, if-cases, Bool-cases, inl, inr, subst, sym,
}
use muondetector_cluster.Prelude.Floats.{Double, Floats}
use muondetector_cluster.Series.{
  Series, squares, add, values, count, private_mean, private_variance, mean, variance, stddev,
  entries,
}

module _ (size : ℕ) (sample : Bool) (fl : Floats) where
  -- The variance of the values in the buffer around their mean, with no cache.
  abbrev pub plain_variance : Series → Double
  plain_variance s =
      fl.mul
        (fl.div (fl.of_ℕ 1)
          (if sample then fl.sub (count size fl s) (fl.of_ℕ 1) else count size fl s))
        (squares fl (private_mean size fl s) (fl.of_ℕ 0) (values size s))

  -- A cached value whose flag is clear is the statistic of the values in the buffer.
  pub record IsFresh (s : Series) : Type 0 where
    pub mean_fresh : s.mean_dirty ≡ false → s.mean_value ≡ private_mean size fl s
    pub variance_fresh : s.var_dirty ≡ false → s.variance_value ≡ plain_variance s
    pub stddev_fresh : s.stddev_dirty ≡ false → s.stddev_value ≡ fl.sqrt (plain_variance s)

  -- After a value has been added no cache is trusted.
  pub add-IsFresh : (value : Double) (s : Series) → IsFresh (add size value s)
  unfolding add
  add-IsFresh value s = record {
    mean_fresh = λ h. cc h;
    variance_fresh = λ h. cc h;
    stddev_fresh = λ h. cc h;
  }

  mean_lem :
      (s : Series)
      → (s.mean_dirty ≡ false → s.mean_value ≡ private_mean size fl s)
      → mean size fl s ≡ (
        private_mean size fl s,
        record s { mean_dirty = false; mean_value = private_mean size fl s },
      )
  unfolding mean
  mean_lem s f =
      if-cases
        (λ r. r ≡ (
          private_mean size fl s,
          record s { mean_dirty = false; mean_value = private_mean size fl s },
        ))
        s.mean_dirty
        (
          private_mean size fl s,
          record s { mean_dirty = false; mean_value = private_mean size fl s },
        )
        (s.mean_value, s) (λ h. refl) (λ h. ground (arith, f h))

  -- The statistics do not read the flags or the caches.
  private_variance_lem :
      (s : Series)
      → (s.mean_dirty ≡ false → s.mean_value ≡ private_mean size fl s)
      → private_variance size sample fl s
        ≡ (plain_variance s, record s { mean_dirty = false; mean_value = private_mean size fl s })
  unfolding private_variance
  private_variance_lem s f = rw (mean_lem s f) refl

  abbrev settled_variance : Series → Series
  settled_variance s = record s {
    mean_dirty = false;
    mean_value = private_mean size fl s;
    var_dirty = false;
    variance_value = plain_variance s;
  }

  variance_of_dirty :
      (s : Series)
      → (s.mean_dirty ≡ false → s.mean_value ≡ private_mean size fl s)
      → s.var_dirty ≡ true
      → variance size sample fl s ≡ (plain_variance s, settled_variance s)
  unfolding variance private_mean values count entries
  variance_of_dirty s f dirty =
      rw (dirty, private_variance_lem (record s { var_dirty = false }) f) refl

  -- A query's value and the series after it: the value is the statistic, and the caches are fresh.
  abbrev Answers : Double → Double × Series → Type 0
  Answers v r = (r.0 ≡ v) × IsFresh r.1

  mean-fresh : (s : Series) → IsFresh s → Answers (private_mean size fl s) (mean size fl s)
  unfolding private_mean values count entries
  mean-fresh s f = rw (mean_lem s f.mean_fresh) (
    refl,
    record {
      mean_fresh = λ h. refl;
      variance_fresh = f.variance_fresh;
      stddev_fresh = f.stddev_fresh;
    },
  )

  settled_variance-IsFresh : (s : Series) → IsFresh s → IsFresh (settled_variance s)
  unfolding private_mean values count entries
  settled_variance-IsFresh s f = record {
    mean_fresh = λ h. refl;
    variance_fresh = λ h. refl;
    stddev_fresh = f.stddev_fresh;
  }

  variance-fresh : (s : Series) → IsFresh s → Answers (plain_variance s) (variance size sample fl s)
  variance-fresh s f = elim (Bool-cases s.var_dirty) [
    | inl dirty ↦ rw (variance_of_dirty s f.mean_fresh dirty) (refl, settled_variance-IsFresh s f)
    | inr clean ↦
        subst (Answers (plain_variance s)) (sym (cached clean)) (f.variance_fresh clean, f)
  ]
    where
      cached : s.var_dirty ≡ false → variance size sample fl s ≡ (s.variance_value, s)
      cached clean = unfold variance in ground arith

  -- The standard deviation's own flag is clear after the first half of `stddev`, before its value
  -- is written, and the value then written is the root of the variance.
  stddev_of_dirty :
      (s : Series)
      → IsFresh s
      → s.stddev_dirty ≡ true
      → Answers (fl.sqrt (plain_variance s)) (stddev size sample fl s)
  unfolding stddev private_mean values count entries
  stddev_of_dirty s f dirty = elim (Bool-cases s.var_dirty) [
    | inl stale ↦
        rw (dirty, variance_of_dirty (record s { stddev_dirty = false }) f.mean_fresh stale)
          (
            refl,
            record { mean_fresh = λ h. refl; variance_fresh = λ h. refl; stddev_fresh = λ h. refl },
          )
    | inr clean ↦
        rw (dirty, cached clean, f.variance_fresh clean)
          (
            refl,
            record {
              mean_fresh = f.mean_fresh;
              variance_fresh = λ h. refl;
              stddev_fresh = λ h. refl;
            },
          )
  ]
    where
      cached :
          s.var_dirty ≡ false
          → variance size sample fl (record s { stddev_dirty = false })
            ≡ (s.variance_value, record s { stddev_dirty = false })
      cached clean = unfold variance in ground arith

  stddev-fresh :
      (s : Series) → IsFresh s → Answers (fl.sqrt (plain_variance s)) (stddev size sample fl s)
  stddev-fresh s f = elim (Bool-cases s.stddev_dirty) [
    | inl dirty ↦ stddev_of_dirty s f dirty
    | inr clean ↦
        subst (Answers (fl.sqrt (plain_variance s))) (sym (cached clean)) (f.stddev_fresh clean, f)
  ]
    where
      cached : s.stddev_dirty ≡ false → stddev size sample fl s ≡ (s.stddev_value, s)
      cached clean = unfold stddev in ground arith

  -- While the caches are fresh, as they are after any value has been added, the three queries give
  -- the mean, the variance and the standard deviation of the values in the buffer, and leave the
  -- caches fresh.
  pub queries-IsFresh :
      (s : Series)
      → IsFresh s
      → ((mean size fl s).0 ≡ private_mean size fl s)
        × ((variance size sample fl s).0 ≡ plain_variance s)
        × ((stddev size sample fl s).0 ≡ fl.sqrt (plain_variance s))
        × IsFresh (mean size fl s).1
        × IsFresh (variance size sample fl s).1
        × IsFresh (stddev size sample fl s).1
  queries-IsFresh s f = (
    (mean-fresh s f).0,
    (variance-fresh s f).0,
    (stddev-fresh s f).0,
    (mean-fresh s f).1,
    (variance-fresh s f).1,
    (stddev-fresh s f).1,
  )
