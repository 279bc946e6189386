-- ===== src/Database.antt =====
-- `link::database` (src/link/database.cpp) up to its transmission, and `sink::database`
-- (include/sink/database.h), which writes entries with it. How numbers are written is a parameter,
-- as are the clock, the text of the identifier, and whether a text is taken by the server.
pub mod Lines
mod Tests
use muondetector_cluster.Prelude.{
  ℕ, ◌+◌, Bool, true, false, List, [], ◌∷◌, ◌++◌, Option, none, some, if◌then◌else◌, ltb, ◌==◌,
  Text, add_64,
}
use muondetector_cluster.Prelude.Int.{ℤ, pos, ◌-ℤ◌}
use muondetector_cluster.Prelude.Assoc.{Map}
use muondetector_cluster.Prelude.Texts.{codes}
use muondetector_cluster.Event.{Event, EventData, UserInfo, n, duration, data_duration, site_id}
use muondetector_cluster.State.{ClusterLog}
use muondetector_cluster.Status.{Status, status_string, reason_string}
use muondetector_cluster.Detector.{Trigger, Summary}
use muondetector_cluster.Source.Log.{DetectorLog, LogItem, Value}
use muondetector_cluster.Publish.{Printers}

-- The texts of the two streams.
pub record Entry : Type 0 where
  pub tags : Text
  pub fields : Text

-- `measurement`
unfoldable pub measurement : Text → Entry
measurement name = record { tags = name; fields = [] }

unfoldable pub add_tag : Entry → Text → Text → Entry
add_tag e name value = record e { tags = e.tags ++ (b',' ∷ name ++ b'=' ∷ value) }

-- `m_tags.str()` and what `commit` puts behind it; nothing is sent without a field.
unfoldable pub line_of : (ℤ → Text) → ℤ → Entry → Option Text
line_of signed timestamp e = elim e.fields [
  | [] ↦ none
  | c ∷ fields ↦ some (e.tags ++ (b' ' ∷ fields ++ b' ' ∷ signed timestamp))
]

-- `commit`: what is sent, and the result.
unfoldable pub commit : (ℤ → Text) → (Text → Bool) → ℤ → Entry → Option Text × Bool
unfolding line_of
commit signed takes timestamp e = elim (line_of signed timestamp e) [
  | none ↦ (none, false)
  | some text ↦ (some text, takes text)
]

module _ (pr : Printers) where
  -- What the visitor writes for a field.
  unfoldable pub field_text : Text → Value → Text
  field_text name (Value.text t) = b',' ∷ name ++ codes "=\"" ++ t ++ codes "\""
  field_text name (Value.integer z) = b',' ∷ name ++ b'=' ∷ pr.signed z ++ codes "i"
  field_text name (Value.natural k) = b',' ∷ name ++ b'=' ∷ pr.unsigned k ++ codes "i"
  field_text name (Value.byte k) = b',' ∷ name ++ b'=' ∷ pr.unsigned k ++ codes "i"
  field_text name (Value.short k) = b',' ∷ name ++ b'=' ∷ pr.unsigned k ++ codes "i"
  field_text name (Value.word k) = b',' ∷ name ++ b'=' ∷ pr.unsigned k ++ codes "i"
  field_text name (Value.flag b) = name ++ codes ",=" ++ (if b then codes "t" else codes "f")
  field_text name (Value.real x) = b',' ∷ name ++ b'=' ∷ pr.real x

  unfoldable pub add_field : Entry → Text → Value → Entry
  unfolding field_text
  add_field e name value = record e { fields = e.fields ++ field_text name value }

  abbrev pub add_all : Entry → List (Text × Value) → Entry
  add_all e [] = e
  add_all e ((name, value) ∷ more) = add_all (add_field e name value) more

  abbrev tag_user : Entry → Text → Text → Text → Entry
  tag_user e user detector site =
      add_tag (add_tag (add_tag e (codes "user") user) (codes "detector") detector)
        (codes "site_id") site

  -- The entry of a hit of a coincidence.
  unfoldable pub hit_entry : Text → Event → EventData → Entry
  unfolding measurement add_tag add_field data_duration duration
  hit_entry uuid e h =
      add_all
        (tag_user (measurement (codes "L1Event")) h.user h.station_id (h.user ++ h.station_id))
        ((codes "accuracy", Value.word h.time_acc)
          ∷ (codes "uuid", Value.text uuid)
          ∷ (codes "coinc_level", Value.natural (n e))
          ∷ (codes "counter", Value.short h.ublox_counter)
          ∷ (codes "length", Value.integer (data_duration h))
          ∷ (codes "coinc_time", Value.integer (h.start -ℤ e.head.start))
          ∷ (codes "cluster_coinc_time", Value.integer (duration e))
          ∷ (codes "time_ref", Value.byte h.gnss_time_grid)
          ∷ (codes "valid_fix", Value.byte h.fix)
          ∷ [])

  -- The loop over the hits, which ends at the first that is not taken; what is sent.
  unfoldable pub write_hits : (Text → Bool) → Text → Event → List EventData → List (Option Text)
  unfolding hit_entry commit
  write_hits takes uuid e [] = []
  write_hits takes uuid e (h ∷ hs) =
      let rest = write_hits takes uuid e hs in
      let (sent, ok) = commit pr.signed takes h.start (hit_entry uuid e h) in
      if ok then sent ∷ rest else sent ∷ []

  -- `get(event_t)`
  unfoldable pub write_event : (Text → Bool) → Text → Event → List (Option Text)
  unfolding write_hits
  write_event takes uuid e = if ltb (n e) 2 then [] else write_hits takes uuid e e.events

  -- `get(trigger::detector)`
  unfoldable pub write_trigger : (Text → Bool) → ℤ → Trigger → Option Text
  unfolding measurement add_tag add_field commit site_id
  write_trigger takes now t =
      let e =
        add_all
          (tag_user (measurement (codes "trigger")) t.userinfo.username t.userinfo.station_id
            (site_id t.userinfo))
          ((codes "type", Value.text (codes (status_string t.status)))
            ∷ (codes "reason", Value.text (codes (reason_string t.reason)))
            ∷ []) in
      elim t.status [
        | Status.reliable ↦ (commit pr.signed takes now e).0
        | Status.unreliable ↦ (commit pr.signed takes now e).0
        | _ ↦ none
      ]

  -- `get(detector_summary_t)`
  unfoldable pub write_summary : (Text → Bool) → Text → ℤ → Summary → Option Text × Bool
  unfolding measurement add_tag add_field commit site_id
  write_summary takes station now s = commit pr.signed takes now (
      add_all
        (tag_user (add_tag (measurement (codes "detector_summary")) (codes "cluster_id") station)
          s.userinfo.username s.userinfo.station_id (site_id s.userinfo))
        ((codes "eventrate", Value.real s.mean_eventrate)
          ∷ (codes "eventrate_stddev", Value.real s.stddev_eventrate)
          ∷ (codes "time_acc", Value.real s.mean_time_acc)
          ∷ (codes "pulselength", Value.real s.mean_pulselength)
          ∷ (codes "incoming", Value.natural s.incoming)
          ∷ (codes "ublox_counter_progress", Value.integer (pos s.ublox_counter_progress))
          ∷ (codes "deadtime_factor", Value.real s.deadtime)
          ∷ []))

  abbrev item_fields : List LogItem → List (Text × Value)
  item_fields [] = []
  item_fields (it ∷ items) = (it.name, it.value) ∷ item_fields items

  -- `get(detector_log_t)`
  unfoldable pub write_log : (Text → Bool) → ℤ → DetectorLog → Option Text × Bool
  unfolding measurement add_tag add_field commit site_id
  write_log takes now log = commit pr.signed takes now (
      add_all
        (tag_user (measurement (codes "detector_log")) log.userinfo.username log.userinfo.station_id
          (site_id log.userinfo))
        (item_fields log.items))

  -- The loop over `outgoing`: the entry and the sum.
  unfoldable pub add_levels : Map ℕ → Entry → ℕ → Entry × ℕ
  unfolding add_field
  add_levels [] e total = (e, total)
  add_levels ((level, count) ∷ rows) e total =
      if level == 1
      then add_levels rows e total
      else add_levels rows
          (add_field e (codes "outgoing" ++ pr.unsigned level) (Value.natural count))
          (add_64 total count)

  -- `get(cluster_log_t)`
  unfoldable pub write_cluster_log : (Text → Bool) → Text → ℤ → ClusterLog → Option Text × Bool
  unfolding measurement add_tag add_field commit add_levels
  write_cluster_log takes station now log =
      let e =
        add_all (add_tag (measurement (codes "cluster_summary")) (codes "cluster_id") station) (
          (codes "timeout", Value.integer log.timeout)
          ∷ (codes "timebase", Value.integer log.timebase)
          ∷ (codes "uptime", Value.integer log.uptime)
          ∷ (codes "frequency_in", Value.real log.single_in)
          ∷ (codes "frequency_l1_out", Value.real log.l1_out)
          ∷ (codes "buffer_length", Value.natural log.buffer_length)
          ∷ (codes "total_detectors", Value.natural log.total_detectors)
          ∷ (codes "reliable_detectors", Value.natural log.reliable_detectors)
          ∷ (codes "max_multiplicity", Value.natural log.maximum_n)
          ∷ (codes "cpu_load", Value.real log.system_cpu_load)
          ∷ (codes "process_cpu_load", Value.real log.process_cpu_load)
          ∷ (codes "memory_usage", Value.real log.memory_usage)
          ∷ (codes "incoming", Value.natural log.incoming)
          ∷ []) in
      let (levels, total) = add_levels log.outgoing e 0 in
      commit pr.signed takes now (add_field levels (codes "outgoing") (Value.natural total))
