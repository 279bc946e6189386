-- ===== src/Source/Info.antt =====
-- `source::mqtt<detector_info_t<location_t>>::item_collector` (include/source/mqtt.h).
pub mod Complete
pub mod Short
use muondetector_cluster.Prelude.{
  ℕ, ◌%◌, ◌+◌, ◌-◌, Bool, true, false, List, [], ◌∷◌, Option, some, none, Text, if◌then◌else◌, ◌==◌,
}
use muondetector_cluster.Prelude.Int.{ℤ, pos_part, neg_part, ◌-ℤ◌, ltb_ℤ}
use muondetector_cluster.Prelude.Floats.{Double}
use muondetector_cluster.Prelude.Texts.{codes, text_eq}
use muondetector_cluster.Event.{Location, UserInfo, user_hash}
use muondetector_cluster.Station.{DetectorInfo}
use muondetector_cluster.Message.{MessageParser}
use muondetector_cluster.Source.Run.{Run, done, invalid, overflow, fault, ◌>>=◌, field, Numbers}
use muondetector_cluster.Source.Collector.{ItemCollector, ResultCode, clear_bit, epoch}

-- The six items that a position needs.
pub data Item : Type 0 where
  height horizontal_accuracy latitude longitude vertical_accuracy dilution : Item

-- The bit of `status` that stands for an item.
abbrev pub mask : Item → ℕ
mask height = 1
mask horizontal_accuracy = 2
mask latitude = 4
mask longitude = 8
mask vertical_accuracy = 16
mask dilution = 32

abbrev pub item_name : Item → Text
item_name height = codes "geoHeightMSL"
item_name horizontal_accuracy = codes "geoHorAccuracy"
item_name latitude = codes "geoLatitude"
item_name longitude = codes "geoLongitude"
item_name vertical_accuracy = codes "geoVertAccuracy"
item_name dilution = codes "positionDOP"

abbrev pub geohash_name : Text
geohash_name = codes "maxGeohashLength"

-- The chain of comparisons with `message[1]`.
unfoldable pub item_of : Text → Option Item
item_of name =
    if text_eq name (item_name height)
    then some height
    else if text_eq name (item_name horizontal_accuracy)
    then some horizontal_accuracy
    else if text_eq name (item_name latitude)
    then some latitude
    else if text_eq name (item_name longitude)
    then some longitude
    else if text_eq name (item_name vertical_accuracy)
    then some vertical_accuracy
    else if text_eq name (item_name dilution)
    then some dilution
    else none

abbrev pub place : Item → Double → Location → Location
place height x l = record l { h = x }
place horizontal_accuracy x l = record l { h_acc = x }
place latitude x l = record l { lat = x }
place longitude x l = record l { lon = x }
place vertical_accuracy x l = record l { v_acc = x }
place dilution x l = record l { dop = x }

-- `static_cast` of an `int` to `std::uint8_t`
abbrev pub to_byte : ℤ → ℕ
to_byte a = (pos_part a + 256 - neg_part a % 256) % 256

module _ (std : Numbers) where
  -- An assignment of the chain: the value is read, stored, and its bit cleared.
  unfoldable pub store :
      Item → MessageParser → ItemCollector DetectorInfo → Run (ItemCollector DetectorInfo)
  store i message c = do
    text ← field message 2
    x ← std.stod text
    done (record c {
      item = record c.item { location = place i x c.item.location };
      status = clear_bit (mask i) c.status;
    })

  unfoldable pub store_length :
      MessageParser → ItemCollector DetectorInfo → Run (ItemCollector DetectorInfo)
  store_length message c = do
    text ← field message 2
    k ← std.stoi text
    done (record c {
      item = record c.item { location = record c.item.location { max_geohash_length = to_byte k } };
    })

  -- The body of the `try`; `none` is its early return of `Aggregating`.
  unfoldable pub take_item :
      MessageParser → ItemCollector DetectorInfo → Run (Option (ItemCollector DetectorInfo))
  unfolding store store_length
  take_item message c = do
    name ← field message 1
    elim (item_of name) [
      | some i ↦ do c' ← store i message c; done (some c')
      | none ↦
          if text_eq name geohash_name
          then (do c' ← store_length message c; done (some c'))
          else done none
    ]

  -- After the `try`: the configured length stands in for a missing one.
  unfoldable pub settle : ℕ → ItemCollector DetectorInfo → ResultCode × ItemCollector DetectorInfo
  settle configured c =
      let l = c.item.location in
      let c' =
        (if l.max_geohash_length == 0
          then record c {
            item = record c.item { location = record l { max_geohash_length = configured } };
          }
          else c) in
      (if c.status == 0 then ResultCode.finished else ResultCode.aggregating, c')

  -- `add` at the time `now`; `configured` is the configuration's `max_geohash_length`.
  unfoldable pub add_info :
      ℕ
      → ℤ
      → MessageParser
      → ItemCollector DetectorInfo
      → Run (ResultCode × ItemCollector DetectorInfo)
  unfolding take_item settle
  add_info configured now message c =
      if ltb_ℤ epoch (now -ℤ c.first_message)
      then done (ResultCode.reset, c)
      else (let c' = record c {
        item = record c.item { hash = user_hash std.hash c.user_info; userinfo = c.user_info };
      } in
          elim (take_item message c') [
            | done none ↦ done (ResultCode.aggregating, c')
            | done (some taken) ↦ done (settle configured taken)
            | invalid ↦ done (ResultCode.error, c')
            | overflow ↦ overflow
            | fault ↦ fault
          ])
