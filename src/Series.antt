-- ===== src/Series.antt =====
-- `data_series<double, N, Sample>` (include/analysis/dataseries.h) with the caches of
-- include/analysis/cachedvalue.h: a ring buffer of the last N values and three cached statistics.
pub mod Window
pub mod Cache
mod Tests
use muondetector_cluster.Prelude.{
  ℕ, zero, suc, ◌+◌, ◌%◌, Bool, true, false, List, [], ◌∷◌, Option, some, none, if◌then◌else◌, ◌==◌,
  get_or, set, take, replicate,
}
use muondetector_cluster.Prelude.Floats.{Double, Floats}

-- A `cached_value` is its value here; its marker reads and clears the flag beside it.
pub record Series : Type 0 where
  pub buffer : List Double
  pub index : ℕ
  pub full : Bool
  pub mean_dirty : Bool
  pub var_dirty : Bool
  pub stddev_dirty : Bool
  pub mean_value : Double
  pub stddev_value : Double
  pub variance_value : Double

-- `std::accumulate` from `acc`
unfoldable pub accumulate : Floats → Double → List Double → Double
accumulate fl acc [] = acc
accumulate fl acc (x ∷ xs) = accumulate fl (fl.add acc x) xs

-- `std::inner_product` of the values with themselves, around `m`
unfoldable pub squares : Floats → Double → Double → List Double → Double
squares fl m acc [] = acc
squares fl m acc (x ∷ xs) = squares fl m (fl.add acc (fl.mul (fl.sub x m) (fl.sub x m))) xs

-- `std::max` of two doubles
unfoldable pub max_double : Floats → Double → Double → Double
max_double fl a b = if fl.lt a b then b else a

module _ (size : ℕ) where
  -- A series before its first value; `zero_value` is `T {}`.
  unfoldable pub init : Double → Series
  init zero_value = record {
    buffer = replicate size zero_value;
    index = 0;
    full = false;
    mean_dirty = false;
    var_dirty = false;
    stddev_dirty = false;
    mean_value = zero_value;
    stddev_value = zero_value;
    variance_value = zero_value;
  }

  unfoldable pub add : Double → Series → Series
  add value s =
      let next = (s.index + 1) % size in
      record s {
        buffer = set s.buffer s.index value;
        mean_dirty = true;
        stddev_dirty = true;
        var_dirty = true;
        index = next;
        full = (if next == 0 then true else s.full);
      }

  unfoldable pub entries : Series → ℕ
  entries s = if s.full then size else s.index

  -- The range from `begin` to `end` that the statistics read.
  unfoldable pub values : Series → List Double
  unfolding entries
  values s = take (entries s) s.buffer

  -- A read outside the array is undefined; the index is below N.
  unfoldable pub current : Series → Double → Double
  current s d = get_or s.buffer s.index d

  unfoldable pub count : Floats → Series → Double
  unfolding max_double
  count fl s = if s.full then fl.of_ℕ size else max_double fl (fl.of_ℕ s.index) (fl.of_ℕ 1)

  unfoldable pub private_mean : Floats → Series → Double
  private_mean fl s = fl.div (accumulate fl (fl.of_ℕ 0) (values s)) (count fl s)

  -- `mean`: the cache's `get`. The flag is cleared before the value is computed.
  unfoldable pub mean : Floats → Series → Double × Series
  mean fl s =
      if s.mean_dirty
      then (private_mean fl s, record s { mean_dirty = false; mean_value = private_mean fl s })
      else (s.mean_value, s)

  module _ (sample : Bool) where
    -- `private_variance`, which reads the mean through its cache.
    unfoldable pub private_variance : Floats → Series → Double × Series
    private_variance fl s =
        let n = count fl s in
        let denominator = (if sample then fl.sub n (fl.of_ℕ 1) else n) in
        let (m, s') = mean fl s in
        (fl.mul (fl.div (fl.of_ℕ 1) denominator) (squares fl m (fl.of_ℕ 0) (values s)), s')

    unfoldable pub variance : Floats → Series → Double × Series
    variance fl s =
        if s.var_dirty
        then (let (v, s') = private_variance fl (record s { var_dirty = false }) in
            (v, record s' { variance_value = v }))
        else (s.variance_value, s)

    unfoldable pub stddev : Floats → Series → Double × Series
    stddev fl s =
        if s.stddev_dirty
        then (let (v, s') = variance fl (record s { stddev_dirty = false }) in
            (fl.sqrt v, record s' { stddev_value = fl.sqrt v }))
        else (s.stddev_value, s)
