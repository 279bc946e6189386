-- ===== src/Geohash.antt =====
-- include/utility/geohash.h. The arithmetic of `double` is a parameter, `ge` its test `>=`.
pub mod Digits
mod Tests
use muondetector_cluster.Prelude.{
  ℕ, zero, suc, ◌+◌, ◌*◌, min, Bool, true, false, ◌||◌, not, List, [], ◌∷◌, ◌++◌, Option, none,
  some, Text, if◌then◌else◌, ltb, ◌==◌, length, get_or,
}
use muondetector_cluster.Prelude.Int.{ℤ, pos, negsuc}
use muondetector_cluster.Prelude.Floats.{Double, Floats}
use muondetector_cluster.Prelude.Texts.{codes}

unfoldable pub base32 : Text
base32 = codes "0123456789bcdefghjkmnpqrstuvwxyz"

-- The variables of the loop.
pub record Cursor : Type 0 where
  pub idx : ℕ
  pub bit : ℕ
  pub even_bit : Bool
  pub geohash : Text
  pub lat_min : Double
  pub lat_max : Double
  pub lon_min : Double
  pub lon_max : Double

-- The end of a round: every fifth bit gives a character.
unfoldable pub emit : Cursor → Cursor
emit c =
    if c.bit + 1 == 5
    then record c { bit = 0; idx = 0; geohash = c.geohash ++ get_or base32 c.idx 0 ∷ [] }
    else record c { bit = c.bit + 1 }

module _ (fl : Floats) (ge : Double → Double → Bool) where
  -- The middle of two bounds.
  abbrev pub middle : Double → Double → Double
  middle a b = fl.div (fl.add a b) (fl.of_ℕ 2)

  -- The bisection of a round.
  unfoldable pub bisect : Double → Double → Cursor → Cursor
  bisect lon lat c =
      let lon_mid = middle c.lon_min c.lon_max in
      let lat_mid = middle c.lat_min c.lat_max in
      if c.even_bit
      then (if ge lon lon_mid
          then record c { even_bit = false; idx = c.idx * 2 + 1; lon_min = lon_mid }
          else record c { even_bit = false; idx = c.idx * 2; lon_max = lon_mid })
      else (if ge lat lat_mid
          then record c { even_bit = true; idx = c.idx * 2 + 1; lat_min = lat_mid }
          else record c { even_bit = true; idx = c.idx * 2; lat_max = lat_mid })

  -- The loop, with fuel.
  unfoldable pub refine : ℕ → Double → Double → ℕ → Cursor → Option Text
  unfolding emit bisect
  refine zero lon lat precision c = none
  refine (suc fuel) lon lat precision c =
      let rest = refine fuel lon lat precision (emit (bisect lon lat c)) in
      if ltb (length c.geohash) precision then rest else some c.geohash

  abbrev pub whole_world : Cursor
  whole_world = record {
    idx = 0;
    bit = 0;
    even_bit = true;
    geohash = [];
    lat_min = fl.of_ℤ (negsuc 89);
    lat_max = fl.of_ℤ (pos 90);
    lon_min = fl.of_ℤ (negsuc 179);
    lon_max = fl.of_ℤ (pos 180);
  }

  -- The tests in front of the loop.
  abbrev pub is_outside : Double → Double → Bool
  is_outside lon lat =
      fl.lt lon whole_world.lon_min
      || fl.lt whole_world.lon_max lon
      || (fl.lt lat whole_world.lat_min || fl.lt whole_world.lat_max lat)

  -- Twelve characters of five rounds, and the last test.
  unfoldable pub from_coordinates : Double → Double → ℕ → Option Text
  unfolding refine
  from_coordinates lon lat precision =
      let at_most = (if ltb 12 precision then 12 else precision) in
      if is_outside lon lat then some [] else refine 61 lon lat at_most whole_world
