-- ===== src/Publish.antt =====
-- `sink::mqtt` (include/sink/mqtt.h): the messages that the program publishes. How a stream or
-- `std::to_string` writes a number is a parameter, as are the text of the time and of the
-- identifier.
pub mod Hits
pub mod Unplaced
pub mod Attempts
mod Tests
use muondetector_cluster.Prelude.{
  ℕ, suc, Bool, true, false, ◌&&◌, List, [], ◌∷◌, ◌++◌, Option, none, some, Text, if◌then◌else◌,
  ltb, ◌==◌,
}
use muondetector_cluster.Prelude.Int.{ℤ, ◌-ℤ◌}
use muondetector_cluster.Prelude.Assoc.{Map}
use muondetector_cluster.Prelude.Floats.{Double, Floats}
use muondetector_cluster.Prelude.Texts.{codes}
use muondetector_cluster.Event.{Event, EventData, UserInfo, Location, n, data_duration}
use muondetector_cluster.Message.{MessageConstructor, add_field, is_empty}
use muondetector_cluster.Geohash.{from_coordinates}
use muondetector_cluster.State.{ClusterLog}
use muondetector_cluster.Status.{status_string, reason_string}
use muondetector_cluster.Detector.{Trigger, Summary}
use muondetector_cluster.Source.Log.{DetectorLog, LogItem, Value}

-- `signed`, `unsigned` and `hex` are the numbers of `std::to_string` and `int_to_hex`; the rest is
-- what a stream writes.
pub record Printers : Type 0 where
  pub signed : ℤ → Text
  pub unsigned : ℕ → Text
  pub hex : ℕ → Text
  pub real : Double → Text
  pub flag : Bool → Text
  -- `std::uint8_t` is written as a character.
  pub character : ℕ → Text

-- What is passed to the link: a topic below the publisher's, if there is one, and the content.
pub record Publication : Type 0 where
  pub subtopic : Option Text
  pub content : Text

-- `user + "/" + station_id`
abbrev pub below : Text → Text → Text
below user station_id = user ++ b'/' ∷ station_id

-- `construct(time, name) << value`
abbrev pub line : Text → Text → Text → Text
line time name value = time ++ b' ' ∷ name ++ b' ' ∷ value

-- A line under the publisher's own topic.
abbrev pub said : Text → Text → Text → Publication
said time name value = record { subtopic = none; content = line time name value }

-- Publications one after the other, up to the first that the link does not take; those that were
-- tried, and whether all were taken.
unfoldable pub publish_until : (Publication → Bool) → List Publication → List Publication × Bool
publish_until takes [] = ([], true)
publish_until takes (p ∷ ps) =
    let rest = publish_until takes ps in if takes p then (p ∷ rest.0, rest.1) else (p ∷ [], false)

module _ (pr : Printers) where
  -- The calls of `add_field` for a hit.
  unfoldable pub hit_message : Text → Text → Event → EventData → MessageConstructor
  unfolding add_field data_duration
  hit_message uuid geohash e h =
      let start = e.head.start in
      let blank : MessageConstructor = record { message = []; delimiter = b' ' } in
      let m1 = add_field (pr.hex h.hash) (add_field uuid blank) in
      let m2 = add_field (pr.unsigned h.time_acc) (add_field geohash m1) in
      let m3 = add_field (pr.signed (e.head.end -ℤ start)) (add_field (pr.unsigned (n e)) m2) in
      let m4 =
        add_field (pr.unsigned h.ublox_counter) (add_field (pr.signed (h.start -ℤ start)) m3) in
      let m5 =
        add_field (pr.unsigned h.gnss_time_grid) (add_field (pr.signed (data_duration h)) m4) in
      add_field (pr.unsigned h.utc)
        (add_field (pr.signed h.start) (add_field (pr.unsigned h.fix) m5))

  module _ (fl : Floats) (ge : Double → Double → Bool) where
    -- `from_coordinates` of a hit's location; it always returns.
    unfoldable pub location_hash : Location → Text
    location_hash l = elim (from_coordinates fl ge l.lon l.lat l.max_geohash_length) [
      | none ↦ []
      | some t ↦ t
    ]

    -- The loop of `get(event_t)`: each hit is published, whether or not the link takes it.
    unfoldable pub hit_publications : Bool → Text → Event → List EventData → List Publication
    unfolding hit_message location_hash
    hit_publications detailed uuid e [] = []
    hit_publications detailed uuid e (h ∷ hs) =
        record {
          subtopic = if detailed then some (below h.user h.station_id) else none;
          content = (hit_message uuid (location_hash h.location) e h).message;
        }
        ∷ hit_publications detailed uuid e hs

    unfoldable pub publish_event : Bool → Text → Event → List Publication
    unfolding hit_publications
    publish_event detailed uuid e =
        if ltb (n e) 2 then [] else hit_publications detailed uuid e e.events

  -- `get(cluster_log_t)`, the first condition
  unfoldable pub log_publications : Text → ClusterLog → List Publication
  log_publications time log =
      said time (codes "timeout") (pr.signed log.timeout)
      ∷ said time (codes "timebase") (pr.signed log.timebase)
      ∷ said time (codes "uptime") (pr.signed log.uptime)
      ∷ said time (codes "frequency_in") (pr.real log.single_in)
      ∷ said time (codes "frequency_l1_out") (pr.real log.l1_out)
      ∷ said time (codes "buffer_length") (pr.unsigned log.buffer_length)
      ∷ said time (codes "total_detectors") (pr.unsigned log.total_detectors)
      ∷ said time (codes "reliable_detectors") (pr.unsigned log.reliable_detectors)
      ∷ said time (codes "max_coincidences") (pr.unsigned log.maximum_n)
      ∷ said time (codes "cpu_load") (pr.real log.system_cpu_load)
      ∷ said time (codes "process_cpu_load") (pr.real log.process_cpu_load)
      ∷ said time (codes "memory_usage") (pr.real log.memory_usage)
      ∷ said time (codes "incoming") (pr.unsigned log.incoming)
      ∷ []

  -- The loop over `outgoing`.
  unfoldable pub level_publications : Text → Map ℕ → List Publication
  level_publications time [] = []
  level_publications time ((level, count) ∷ rows) =
      let rest = level_publications time rows in
      if level == 1
      then rest
      else record {
        subtopic = none;
        content = line time (codes "outgoing_" ++ pr.unsigned level) (pr.unsigned count);
      }
        ∷ rest

  unfoldable pub publish_cluster_log : (Publication → Bool) → Text → ClusterLog → List Publication
  unfolding publish_until log_publications level_publications
  publish_cluster_log takes time log =
      let (tried, ok) = publish_until takes (log_publications time log) in
      if ok then tried ++ (publish_until takes (level_publications time log.outgoing)).0 else tried

  -- `get(detector_summary_t)`
  unfoldable pub summary_publications : Text → Summary → List Publication
  summary_publications time s =
      let name = s.userinfo.username ++ b' ' ∷ s.userinfo.station_id in
      said time (name ++ codes " eventrate") (pr.real s.mean_eventrate)
      ∷ said time (name ++ codes " eventrate_stddev") (pr.real s.stddev_eventrate)
      ∷ said time (name ++ codes " time_acc") (pr.real s.mean_time_acc)
      ∷ said time (name ++ codes " pulselength") (pr.real s.mean_pulselength)
      ∷ said time (name ++ codes " incoming") (pr.unsigned s.incoming)
      ∷ said time (name ++ codes " ublox_counter_progess") (pr.unsigned s.ublox_counter_progress)
      ∷ said time (name ++ codes " deadtime_factor") (pr.real s.deadtime)
      ∷ []

  unfoldable pub publish_summary : (Publication → Bool) → Text → Summary → List Publication
  unfolding publish_until summary_publications
  publish_summary takes time s = (publish_until takes (summary_publications time s)).0

  -- `get(trigger::detector)`; `time` with its zone.
  unfoldable pub trigger_publication : Text → Trigger → Publication
  trigger_publication time t = record {
    subtopic = some (below t.userinfo.username t.userinfo.station_id);
    content = line time (codes (status_string t.status)) (codes (reason_string t.reason));
  }

  -- The visitor of `get(detector_log_t)`.
  unfoldable pub value_text : Value → Text
  value_text (Value.text t) = t
  value_text (Value.flag b) = pr.flag b
  value_text (Value.integer z) = pr.signed z
  value_text (Value.real x) = pr.real x
  value_text (Value.natural k) = pr.unsigned k
  value_text (Value.byte k) = pr.character k
  value_text (Value.short k) = pr.unsigned k
  value_text (Value.word k) = pr.unsigned k

  unfoldable pub item_publication : Text → UserInfo → LogItem → Publication
  unfolding value_text
  item_publication time user it = record {
    subtopic = some (below user.username user.station_id);
    content =
        line time it.name (value_text it.value)
        ++ (if is_empty it.unit then [] else b' ' ∷ it.unit);
  }

  unfoldable pub item_publications : Text → UserInfo → List LogItem → List Publication
  unfolding item_publication
  item_publications time user [] = []
  item_publications time user (it ∷ items) =
      item_publication time user it ∷ item_publications time user items

  -- `get(detector_log_t)`
  unfoldable pub publish_log : (Publication → Bool) → Text → DetectorLog → List Publication
  unfolding publish_until item_publications
  publish_log takes time log =
      (publish_until takes (item_publications time log.userinfo log.items)).0
