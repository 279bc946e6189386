-- ===== src/Source/Tests.antt =====
-- Witnesses and tests for the sources.
use muondetector_cluster.Prelude.{
  zero, suc, ◌%◌, ◌^◌, some, ℕ, ◌<◌, ◌≡◌, refl, List, [], ◌∷◌, arith, Text, length, ◌↔◌, not, ◌&&◌,
  false, if◌then◌else◌, ◌==◌, if-cases,
}
use muondetector_cluster.Prelude.Int.{pos, ◌-ℤ◌}
use muondetector_cluster.Prelude.Texts.{codes}
use muondetector_cluster.Event.{Event, EventData, n, user_hash}
use muondetector_cluster.Event.Samples.{lone, nowhere, nobody}
use muondetector_cluster.Station.{DetectorInfo}
use muondetector_cluster.Message.{MessageParser, field_at}
use muondetector_cluster.Message.Words.{words, pieces}
use muondetector_cluster.Source.Run.{done, invalid, Numbers}
use muondetector_cluster.Source.Run.Yields.{Sound, IfDone, NoFault}
use muondetector_cluster.Source.Collector.{ItemCollector, ResultCode}
use muondetector_cluster.Source.Info.{Item, latitude, add_info}
use muondetector_cluster.Source.Info.Complete.{add_info_lem, pending, same_item, measure}
use muondetector_cluster.Source.Events.Level1.{collect_hits, collect_hits_lem, last_finishes}
use muondetector_cluster.Source.Log.{DetectorLog}
use muondetector_cluster.Source.Buffer.{process_message}
use muondetector_cluster.Source.Buffer.Local.{LocalToOne, process_message-LocalToOne}
use muondetector_cluster.Source.Kinds.{log_kind}
use muondetector_cluster.Source.Events.Single.{Timely}
use muondetector_cluster.Source.Kinds.Stream.{
  Arrival, IsHit, PutsSingles, process_stream, process_stream-PutsSingles,
}

-- A standard library that reads the length of a text, and throws for an empty one.
abbrev sized : Numbers
sized = record {
  stod = λ t. if length t == 0 then invalid else done (length t);
  stold = λ t. if length t == 0 then invalid else done (length t);
  to_ns = λ x. some (pos x);
  stoul = λ base t. done (length t);
  stoll = λ t. done (pos (length t));
  stoi = λ t. done (pos (length t));
  hash = λ t. length t % 2 ^ 64;
}

sized-Sound : Sound sized
sized-Sound = record {
  stod_sound = λ t. if-cases NoFault (length t == 0) invalid (done (length t)) (λ h. tt) (λ h. tt);
  stold_sound = λ t. if-cases NoFault (length t == 0) invalid (done (length t)) (λ h. tt) (λ h. tt);
  stoul_sound = λ base t. tt;
  stoll_sound = λ t. tt;
  stoi_sound = λ t. tt;
  hash_sound = λ t. omega arith;
}

abbrev message : List Text → MessageParser
message fields = record { content = []; iterator = []; delimiter = b' '; fields = fields }

abbrev place_info : DetectorInfo
place_info = record { location = nowhere; hash = 0; userinfo = nobody }

-- A position of which the latitude is missing.
abbrev nearly : ItemCollector DetectorInfo
nearly = record { user_info = nobody; first_message = pos 0; status = 4; item = place_info }

abbrev latitude_message : MessageParser
latitude_message = message (codes "now" ∷ codes "geoLatitude" ∷ codes "50" ∷ [])

add_info_lem_example :
    (code : ResultCode) × (c' : ItemCollector DetectorInfo) × (add_info sized 6
        (pos 9)
        latitude_message
        nearly
      ≡ done (code, c'))
    × (c'.status < 64)
    × ((j : Item) → pending j c'.status ≡ (pending j nearly.status && not (same_item latitude j)))
    × ((code ≡ ResultCode.finished) ↔ ((j : Item) → pending j c'.status ≡ false))
    × ((j : Item)
        → measure j c'.item.location
          ≡ (if same_item latitude j then 2 else measure j nearly.item.location))
    × (c'.item.location.max_geohash_length ≡ (
        if nearly.item.location.max_geohash_length == 0
        then 6
        else nearly.item.location.max_geohash_length))
    × (c'.item.location.geohash ≡ nearly.item.location.geohash)
    × (c'.item.userinfo ≡ nobody)
    × (c'.item.hash ≡ user_hash sized.hash nobody)
unfolding ◌-ℤ◌ field_at
add_info_lem_example =
    add_info_lem sized 6 (pos 9) latitude_message nearly latitude (codes "50") 2 refl refl refl refl
      (omega arith)

abbrev hit_topic : MessageParser
hit_topic = message (codes "muonpi" ∷ codes "data" ∷ codes "kai" ∷ codes "home" ∷ [])

abbrev hit_content : MessageParser
hit_content = message (
    codes "1600000000.123456789"
    ∷ codes "1600000000.1234568"
    ∷ codes "7"
    ∷ codes "1"
    ∷ codes "1"
    ∷ codes "0"
    ∷ codes "1"
    ∷ [])

abbrev waiting : ItemCollector Event
waiting = record { user_info = nobody; first_message = pos 0; status = 0; item = lone 3 100 }

abbrev hit : ℕ → EventData
hit h = (lone h 100).head

collect_hits_lem_example :
    (c' : ItemCollector Event) × (collect_hits 3 (hit 1 ∷ hit 2 ∷ hit 3 ∷ []) waiting
      ≡ (ResultCode.aggregating ∷ last_finishes 1, c'))
    × (c'.status ≡ 0)
    × (c'.item.events ≡ hit 2 ∷ hit 3 ∷ [])
    × (n c'.item ≡ 2)
collect_hits_lem_example =
    collect_hits_lem 1 (hit 1) (hit 2 ∷ hit 3 ∷ []) waiting refl refl (omega arith)

abbrev new_log : ItemCollector DetectorLog
new_log = record {
  user_info = nobody;
  first_message = pos 0;
  status = 2;
  item = record { userinfo = nobody; log_id = []; items = [] };
}

process_message-LocalToOne_example :
    IfDone (LocalToOne []) (
      process_message
        (log_kind sized)
        (pos 9)
        (codes "muonpi/log/kai/home")
        (codes "now sats 9")
        [])
process_message-LocalToOne_example =
    process_message-LocalToOne (log_kind sized) (pos 9) (codes "muonpi/log/kai/home")
      (codes "now sats 9") [] tt

abbrev arrival : Arrival
arrival = record {
  now = pos 9;
  topic = codes "muonpi/data/kai/home";
  content = codes "1600000000.123456789 1600000000.1234568 7 1 1 0 1";
}

arrival-Timely : Timely sized (words b' ' arrival.content)
unfolding words pieces
arrival-Timely zero text h q x e = (pos x, refl, ground (arith, q, e))
arrival-Timely (suc zero) text h q x e = (pos x, refl, ground (arith, q, e))
arrival-Timely (suc (suc i)) text h q x e = absurd (omega arith)

arrival-IsHit : IsHit sized arrival
unfolding words pieces
arrival-IsHit = ((λ kind q. ground (arith, q)), arrival-Timely)

process_stream-PutsSingles_example : PutsSingles (process_stream sized (arrival ∷ arrival ∷ []) [])
process_stream-PutsSingles_example =
    process_stream-PutsSingles sized sized-Sound (arrival ∷ arrival ∷ [])
      (arrival-IsHit, (arrival-IsHit, tt))
