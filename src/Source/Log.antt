-- ===== src/Source/Log.antt =====
-- include/messages/detectorlog.h, src/messages/detectorlog.cpp, and
-- `source::mqtt<detector_log_t>::item_collector` (include/source/mqtt.h).
pub mod Items
use muondetector_cluster.Prelude.{
  ℕ, ◌%◌, ◌+◌, ◌-◌, ◌^◌, Bool, true, false, ◌||◌, List, [], ◌∷◌, ◌++◌, Option, some, none, Text,
  if◌then◌else◌, ltb,
}
use muondetector_cluster.Prelude.Int.{ℤ, pos_part, neg_part, ◌-ℤ◌, ltb_ℤ}
use muondetector_cluster.Prelude.Floats.{Double}
use muondetector_cluster.Prelude.Texts.{codes, text_eq}
use muondetector_cluster.Event.{UserInfo}
use muondetector_cluster.Message.{MessageParser, size, is_empty}
use muondetector_cluster.Source.Run.{Run, done, invalid, overflow, fault, ◌>>=◌, field, Numbers}
use muondetector_cluster.Source.Collector.{ItemCollector, ResultCode, epoch}
use muondetector_cluster.Source.Info.{to_byte}

-- The variant that an item holds.
pub data Value : Type 0 where
  text : Text → Value
  flag : Bool → Value
  integer : ℤ → Value
  real : Double → Value
  natural : ℕ → Value
  byte : ℕ → Value
  short : ℕ → Value
  word : ℕ → Value

pub record LogItem : Type 0 where
  pub name : Text
  pub value : Value
  pub unit : Text

-- `items` is a queue, its front first.
pub record DetectorLog : Type 0 where
  pub userinfo : UserInfo
  pub log_id : Text
  pub items : List LogItem

unfoldable pub emplace_item : DetectorLog → LogItem → DetectorLog
emplace_item log it = record log { items = log.items ++ it ∷ [] }

-- `get`; of an empty queue it is undefined.
unfoldable pub get_item : DetectorLog → Option (LogItem × DetectorLog)
get_item log = elim log.items [ [] ↦ none | it ∷ rest ↦ some (it, record log { items = rest }) ]

-- Whether the text is among the names that it is compared with.
unfoldable pub is_among : List Text → Text → Bool
is_among [] name = false
is_among (x ∷ xs) name = text_eq name x || is_among xs name

-- The names of the first comparison: their values are numbers.
unfoldable pub number_names : List Text
number_names =
    codes "geoHeightMSL"
    ∷ codes "geoHorAccuracy"
    ∷ codes "geoLatitude"
    ∷ codes "geoLongitude"
    ∷ codes "geoVertAccuracy"
    ∷ codes "positionDOP"
    ∷ codes "RXBufUsage"
    ∷ codes "TXBufUsage"
    ∷ codes "adcSamplingTime"
    ∷ codes "antennaPower"
    ∷ codes "antennaStatus"
    ∷ codes "biasDAC"
    ∷ codes "biasSwitch"
    ∷ codes "calib_coeff2"
    ∷ codes "calib_coeff3"
    ∷ codes "calib_rsense"
    ∷ codes "calib_vdiv"
    ∷ codes "clockBias"
    ∷ codes "clockDrift"
    ∷ codes "fixStatus"
    ∷ codes "freqAccuracy"
    ∷ codes "ibias"
    ∷ codes "jammingLevel"
    ∷ codes "maxCNR"
    ∷ codes "maxRXBufUsage"
    ∷ codes "meanGeoHeightMSL"
    ∷ codes "preampAGC"
    ∷ codes "preampNoise"
    ∷ codes "rateAND"
    ∷ codes "rateXOR"
    ∷ codes "sats"
    ∷ codes "systemFreeMem"
    ∷ codes "systemFreeSwap"
    ∷ codes "systemLoadAvg"
    ∷ codes "systemUptime"
    ∷ codes "temperature"
    ∷ codes "thresh1"
    ∷ codes "thresh2"
    ∷ codes "timeAccuracy"
    ∷ codes "timeDOP"
    ∷ codes "ubloxUptime"
    ∷ codes "usedSats"
    ∷ codes "vbias"
    ∷ codes "vsense"
    ∷ []

unfoldable pub text_names : List Text
text_names =
    codes "UBX_HW_Version"
    ∷ codes "UBX_Prot_Version"
    ∷ codes "UBX_SW_Version"
    ∷ codes "geoHash"
    ∷ []

unfoldable pub switch_names : List Text
switch_names =
    codes "gainSwitch"
    ∷ codes "polaritySwitch1"
    ∷ codes "polaritySwitch2"
    ∷ codes "preampSwitch1"
    ∷ codes "preampSwitch2"
    ∷ []

-- `static_cast` of an `int` to `std::uint16_t`
abbrev pub to_short : ℤ → ℕ
to_short a = (pos_part a + 2 ^ 16 - neg_part a % 2 ^ 16) % 2 ^ 16

-- `message[3]`, if there is one.
unfoldable pub unit_of : MessageParser → Run Text
unit_of message = if ltb 3 (size message) then field message 3 else done []

-- The first test of `add`; `none` is its return of `Commit`.
unfoldable pub open_log :
    ℤ → MessageParser → ItemCollector DetectorLog → Run (Option (ItemCollector DetectorLog))
open_log now message c =
    if is_empty c.item.items
    then (do
      id ← field message 0
      done (some (record c { item = record c.item { log_id = id; userinfo = c.user_info } })))
    else if ltb_ℤ epoch (now -ℤ c.first_message)
    then done none
    else done (some c)

module _ (std : Numbers) where
  -- The item that the chain of comparisons makes of the message.
  unfoldable pub read_item : MessageParser → Text → Run LogItem
  unfolding is_among number_names text_names switch_names
  read_item message unit = do
    name ← field message 1
    if is_among number_names name
        then (do
          value ← field message 2
          x ← std.stod value
          done (record { name = name; value = real x; unit = unit }))
        else if is_among text_names name
        then (do
          value ← field message 2
          done (record { name = name; value = text value; unit = [] }))
        else if is_among switch_names name
        then (do
          value ← field message 2
          k ← std.stoi value
          done (record { name = name; value = byte (to_byte k); unit = unit }))
        else if text_eq name (codes "systemNrCPUs")
        then (do
          value ← field message 2
          k ← std.stoi value
          done (record { name = name; value = short (to_short k); unit = unit }))
        else done (record { name = name; value = text message.content; unit = [] })

  -- `add` behind its first test: the item is appended, or the exception is caught.
  unfoldable pub append_item :
      MessageParser → ItemCollector DetectorLog → Run (ResultCode × ItemCollector DetectorLog)
  unfolding unit_of read_item emplace_item
  append_item message c = do
    unit ← unit_of message
    elim (read_item message unit) [
      | done it ↦ done (ResultCode.aggregating, record c { item = emplace_item c.item it })
      | invalid ↦ done (ResultCode.error, c)
      | overflow ↦ overflow
      | fault ↦ fault
    ]

  -- `add` at the time `now`
  unfoldable pub add_log :
      ℤ → MessageParser → ItemCollector DetectorLog → Run (ResultCode × ItemCollector DetectorLog)
  unfolding open_log append_item
  add_log now message c = do
    opened ← open_log now message c
    elim opened [ none ↦ done (ResultCode.commit, c) | some c' ↦ append_item message c' ]
