-- ===== src/Source/Events.antt =====
-- `source::mqtt<event_t>::item_collector` (include/source/mqtt.h).
pub mod Level1
pub mod Single
use muondetector_cluster.Prelude.{
  ℕ, ◌+◌, ◌-◌, ◌%◌, ◌^◌, Bool, true, false, ◌||◌, List, [], ◌∷◌, Option, none, some, Text,
  if◌then◌else◌, ◌==◌, ltb, length, get_or,
}
use muondetector_cluster.Prelude.Int.{ℤ, ◌+ℤ◌, ltb_ℤ, is_int64}
use muondetector_cluster.Prelude.Texts.{codes, text_eq}
use muondetector_cluster.Event.{Event, EventData, Location, UserInfo, user_hash, emplace_data}
use muondetector_cluster.Message.{MessageParser, size}
use muondetector_cluster.Source.Run.{Run, done, invalid, overflow, fault, ◌>>=◌, field, Numbers}
use muondetector_cluster.Source.Collector.{ItemCollector, ResultCode}

-- The members of an `event_t::data_t` that are not set.
abbrev pub no_location : Location
no_location = record {
  lat = 0;
  lon = 0;
  h = 0;
  v_acc = 0;
  h_acc = 0;
  dop = 0;
  geohash = [];
  max_geohash_length = 0;
}

abbrev pub no_user : UserInfo
no_user = record { username = []; station_id = [] }

-- `event_t { data }`
abbrev pub lone_event : EventData → Event
lone_event d = record { head = d; events = [] }

-- A text that starts with a point; `text[0]` of an empty text is the terminating zero.
abbrev pub starts_with_point : Text → Bool
starts_with_point t = get_or t 0 0 == b'.'

-- What is done with a hit of a level-1 coincidence of `n` hits; `status` is a counter of 16 bits.
unfoldable pub collect_l1 : EventData → ℕ → ItemCollector Event → ResultCode × ItemCollector Event
collect_l1 d n c =
    if c.status == 0
    then (
      ResultCode.aggregating,
      record c { item = lone_event d; status = (n + 2 ^ 64 - 1) % 2 ^ 16 },
    )
    else (let left = (c.status + 2 ^ 16 - 1) % 2 ^ 16 in
        (
          if left == 0 then ResultCode.finished else ResultCode.aggregating,
          record c { item = emplace_data c.item d; status = left },
        ))

-- The tests of a detector's message on its first two fields.
unfoldable pub refuses : MessageParser → Run Bool
refuses content = do
  begin ← field content 0
  finish ← field content 1
  done (
      (ltb (length begin) 17 || ltb (length finish) 17)
      || (starts_with_point begin || starts_with_point finish))

-- The end of `add`, for a detector's hit.
unfoldable pub accept_hit : EventData → ItemCollector Event → ResultCode × ItemCollector Event
accept_hit d c =
    if ltb_ℤ d.end d.start
    then (ResultCode.error, c)
    else (ResultCode.finished, record c { item = lone_event d; status = 0 })

-- The cast of a floating-point number to `std::int_fast64_t`, by its integral part: it is undefined
-- for what is no number and for a number out of range.
unfoldable pub to_count : Option ℤ → Run ℤ
to_count none = fault
to_count (some z) = if is_int64 z then done z else fault

module _ (std : Numbers) where
  -- The number in a field of the message.
  abbrev pub number : ℕ → MessageParser → ℕ → Run ℕ
  number base m i = do text ← field m i; std.stoul base text

  abbrev pub long : MessageParser → ℕ → Run ℤ
  long m i = do text ← field m i; std.stoll text

  -- `static_cast<std::int_fast64_t>(std::stold(...) * 1e9)`
  abbrev pub moment : MessageParser → ℕ → Run ℤ
  moment m i = do text ← field m i; x ← std.stold text; to_count (std.to_ns x)

  -- The first `try`: a hit of a level-1 coincidence, and the number of its hits.
  unfoldable pub read_l1 : MessageParser → MessageParser → Run (EventData × ℕ)
  read_l1 topic content = do
    hash ← number 16 content 1
    n ← number 10 content 4
    user ← field topic 2
    station_id ← field topic 3
    time_acc ← number 10 content 3
    ublox_counter ← number 10 content 7
    fix ← number 10 content 10
    utc ← number 10 content 12
    gnss_time_grid ← number 10 content 9
    start ← long content 11
    length_ns ← long content 8
    done (
      record {
        location = no_location;
        userinfo = no_user;
        hash = hash;
        user = user;
        station_id = station_id;
        start = start;
        end = length_ns +ℤ start;
        time_acc = time_acc % 2 ^ 32;
        ublox_counter = ublox_counter % 2 ^ 16;
        fix = fix % 2 ^ 8;
        utc = utc % 2 ^ 8;
        gnss_time_grid = gnss_time_grid % 2 ^ 8;
      },
      n,
    )

  -- The second `try`: a hit of a detector.
  unfoldable pub read_hit : MessageParser → MessageParser → UserInfo → Run EventData
  unfolding to_count
  read_hit topic content u = do
    start ← moment content 0
    end ← moment content 1
    user ← field topic 2
    time_acc ← number 10 content 2
    ublox_counter ← number 10 content 3
    fix ← number 10 content 4
    utc ← number 10 content 6
    gnss_time_grid ← number 10 content 5
    done (record {
      location = no_location;
      userinfo = no_user;
      hash = user_hash std.hash u;
      user = user;
      station_id = u.station_id;
      start = start;
      end = end;
      time_acc = time_acc % 2 ^ 32;
      ublox_counter = ublox_counter % 2 ^ 16;
      fix = fix % 2 ^ 8;
      utc = utc % 2 ^ 8;
      gnss_time_grid = gnss_time_grid % 2 ^ 8;
    })

  -- Every exception becomes `Error`.
  unfoldable pub add_hit :
      MessageParser → MessageParser → ItemCollector Event → Run (ResultCode × ItemCollector Event)
  unfolding refuses read_hit accept_hit
  add_hit topic content c = elim (refuses content) [
    | done true ↦ done (ResultCode.error, c)
    | done false ↦ elim (read_hit topic content c.user_info) [
      | done d ↦ done (accept_hit d c)
      | invalid ↦ done (ResultCode.error, c)
      | overflow ↦ done (ResultCode.error, c)
      | fault ↦ fault
    ]
    | invalid ↦ invalid
    | overflow ↦ overflow
    | fault ↦ fault
  ]

  unfoldable pub add_l1 :
      MessageParser → MessageParser → ItemCollector Event → Run (ResultCode × ItemCollector Event)
  unfolding read_l1 collect_l1
  add_l1 topic content c =
      if ltb (size content) 13 then done (ResultCode.error, c) else elim (read_l1 topic content) [
        | done (d, n) ↦ done (collect_l1 d n c)
        | invalid ↦ done (ResultCode.error, c)
        | overflow ↦ overflow
        | fault ↦ fault
      ]

  -- `add`
  unfoldable pub add_event :
      MessageParser → MessageParser → ItemCollector Event → Run (ResultCode × ItemCollector Event)
  unfolding add_hit add_l1
  add_event topic content c =
      if ltb (size topic) 4 || ltb (size content) 7 then done (ResultCode.error, c) else (do
        kind ← field topic 1
        if text_eq kind (codes "l1data") then add_l1 topic content c else add_hit topic content c)
