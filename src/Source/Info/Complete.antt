-- ===== src/Source/Info/Complete.antt =====
-- When a position is complete: each item is waited for until it has come.
use muondetector_cluster.Prelude.{
  ℕ, ◌/◌, ◌%◌, ◌<◌, ◌≡◌, ◌↔◌, refl, Bool, false, ◌&&◌, not, some, arith, Text, if◌then◌else◌, ◌==◌,
  sym, ap, ◌∙◌,
}
use muondetector_cluster.Prelude.Int.{ℤ, ◌-ℤ◌, ltb_ℤ}
use muondetector_cluster.Prelude.Floats.{Double}
use muondetector_cluster.Prelude.Texts.{codes}
use muondetector_cluster.Event.{Location, user_hash}
use muondetector_cluster.Station.{DetectorInfo}
use muondetector_cluster.Message.{MessageParser, field_at}
use muondetector_cluster.Source.Run.{done, field, Numbers}
use muondetector_cluster.Source.Collector.{ItemCollector, ResultCode, clear_bit, epoch}
use muondetector_cluster.Source.Info.{
  Item, height, horizontal_accuracy, latitude, longitude, vertical_accuracy, dilution, mask,
  item_name, item_of, place, add_info,
}

-- Whether an item is still waited for.
abbrev pub pending : Item → ℕ → Bool
pending i status = status / mask i % 2 == 1

abbrev pub same_item : Item → Item → Bool
same_item i j = mask i == mask j

pending-clear_bit :
    (i j : Item) (status : ℕ)
    → pending j (clear_bit (mask i) status) ≡ (pending j status && not (same_item i j))
unfolding clear_bit
pending-clear_bit height j status = ground arith
pending-clear_bit horizontal_accuracy j status = ground arith
pending-clear_bit latitude j status = ground arith
pending-clear_bit longitude j status = ground arith
pending-clear_bit vertical_accuracy j status = ground arith
pending-clear_bit dilution j status = ground arith

clear_bit-lt : (i : Item) (status : ℕ) → status < 64 → clear_bit (mask i) status < 64
unfolding clear_bit
clear_bit-lt i status h = ground arith

-- Six bits are all clear exactly if the number is 0.
none_pending : (status : ℕ) → status < 64 → ((i : Item) → pending i status ≡ false) → status ≡ 0
none_pending status h p = ground (
  arith,
  p height,
  p horizontal_accuracy,
  p latitude,
  p longitude,
  p vertical_accuracy,
  p dilution,
)

pub item_of-item_name : (i : Item) → item_of (item_name i) ≡ some i
unfolding item_of
item_of-item_name height = refl
item_of-item_name horizontal_accuracy = refl
item_of-item_name latitude = refl
item_of-item_name longitude = refl
item_of-item_name vertical_accuracy = refl
item_of-item_name dilution = refl

-- What a detector calls each item, and which number of a location it is.
abbrev pub called : Item → Text
called height = codes "geoHeightMSL"
called horizontal_accuracy = codes "geoHorAccuracy"
called latitude = codes "geoLatitude"
called longitude = codes "geoLongitude"
called vertical_accuracy = codes "geoVertAccuracy"
called dilution = codes "positionDOP"

abbrev pub measure : Item → Location → Double
measure height l = l.h
measure horizontal_accuracy l = l.h_acc
measure latitude l = l.lat
measure longitude l = l.lon
measure vertical_accuracy l = l.v_acc
measure dilution l = l.dop

item_name-called : (i : Item) → item_name i ≡ called i
item_name-called height = refl
item_name-called horizontal_accuracy = refl
item_name-called latitude = refl
item_name-called longitude = refl
item_name-called vertical_accuracy = refl
item_name-called dilution = refl

-- Storing an item changes the one number of a location and nothing else.
measure-place :
    (i j : Item) (x : Double) (l : Location)
    → measure j (place i x l) ≡ (if same_item i j then x else measure j l)
measure-place height j x l = ground arith
measure-place horizontal_accuracy j x l = ground arith
measure-place latitude j x l = ground arith
measure-place longitude j x l = ground arith
measure-place vertical_accuracy j x l = ground arith
measure-place dilution j x l = ground arith

length-place :
    (i : Item) (x : Double) (l : Location)
    → ((place i x l).max_geohash_length ≡ l.max_geohash_length)
      × ((place i x l).geohash ≡ l.geohash)
length-place height x l = (refl, refl)
length-place horizontal_accuracy x l = (refl, refl)
length-place latitude x l = (refl, refl)
length-place longitude x l = (refl, refl)
length-place vertical_accuracy x l = (refl, refl)
length-place dilution x l = (refl, refl)

module _ (std : Numbers) (configured : ℕ) where
  -- The location with an item in its place, and the configured geohash length if there is none.
  abbrev pub placed : Item → Double → Location → Location
  placed i x l = record (place i x l) {
    max_geohash_length =
        (if (place i x l).max_geohash_length == 0
          then configured
          else (place i x l).max_geohash_length);
  }

  abbrev pub filled : Item → Double → ItemCollector DetectorInfo → ItemCollector DetectorInfo
  filled i x c = record c {
    item = record {
      location = placed i x c.item.location;
      hash = user_hash std.hash c.user_info;
      userinfo = c.user_info;
    };
    status = clear_bit (mask i) c.status;
  }

  abbrev pub verdict : ℕ → ResultCode
  verdict status = if status == 0 then ResultCode.finished else ResultCode.aggregating

  pub add_info-filled :
      (now : ℤ) (m : MessageParser) (c : ItemCollector DetectorInfo) (i : Item) (text : Text)
      (x : Double)
      → ltb_ℤ epoch (now -ℤ c.first_message) ≡ false
      → field_at m 1 ≡ some (item_name i)
      → field_at m 2 ≡ some text
      → std.stod text ≡ done x
      → add_info std configured now m c ≡ done (verdict (clear_bit (mask i) c.status), filled i x c)
  unfolding add_info field
  add_info-filled now m c i text x early q r e = ground (arith, item_of-item_name i, early, q, r, e)

  verdict_lem :
      (status : ℕ)
      → status < 64
      → (verdict status ≡ ResultCode.finished) ↔ ((j : Item) → pending j status ≡ false)
  verdict_lem status h = ((λ e j. ground (arith, e)), (λ p. rw (none_pending status h p) refl))

  measure-placed :
      (i j : Item) (x : Double) (l : Location) → measure j (placed i x l) ≡ measure j (place i x l)
  measure-placed i height x l = refl
  measure-placed i horizontal_accuracy x l = refl
  measure-placed i latitude x l = refl
  measure-placed i longitude x l = refl
  measure-placed i vertical_accuracy x l = refl
  measure-placed i dilution x l = refl

  -- A message in time with the name of an item and a readable value gives the number of the
  -- location by that name the value and leaves the five others and the geohash as they are; the
  -- user is the collector's; a maximum length of 0 for the geohash becomes the configured one; the
  -- item is not waited for any more, the others are as before; and the position is finished exactly
  -- if nothing is waited for. The status has six bits.
  pub add_info_lem :
      (now : ℤ) (m : MessageParser) (c : ItemCollector DetectorInfo) (i : Item) (text : Text)
      (x : Double)
      → ltb_ℤ epoch (now -ℤ c.first_message) ≡ false
      → field_at m 1 ≡ some (called i)
      → field_at m 2 ≡ some text
      → std.stod text ≡ done x
      → c.status < 64
      → (code : ResultCode) × (c' : ItemCollector DetectorInfo) × (add_info std configured now m c
          ≡ done (code, c'))
        × (c'.status < 64)
        × ((j : Item) → pending j c'.status ≡ (pending j c.status && not (same_item i j)))
        × ((code ≡ ResultCode.finished) ↔ ((j : Item) → pending j c'.status ≡ false))
        × ((j : Item)
            → measure j c'.item.location ≡ (if same_item i j then x else measure j c.item.location))
        × (c'.item.location.max_geohash_length ≡ (
            if c.item.location.max_geohash_length == 0
            then configured
            else c.item.location.max_geohash_length))
        × (c'.item.location.geohash ≡ c.item.location.geohash)
        × (c'.item.userinfo ≡ c.user_info)
        × (c'.item.hash ≡ user_hash std.hash c.user_info)
  add_info_lem now m c i text x early q r e h =
      let l = c.item.location in
      let (long, hash) = length-place i x l in
      (
        verdict (clear_bit (mask i) c.status),
        filled i x c,
        add_info-filled now m c i text x early (q ∙ ap (λ t. some t) (sym (item_name-called i))) r
            e,
        clear_bit-lt i c.status h,
        (λ j. pending-clear_bit i j c.status),
        verdict_lem (clear_bit (mask i) c.status) (clear_bit-lt i c.status h),
        (λ j. measure-placed i j x l ∙ measure-place i j x l),
        rw long refl,
        hash,
        refl,
        refl,
      )
