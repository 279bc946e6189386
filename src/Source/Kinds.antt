-- ===== src/Source/Kinds.antt =====
-- The three instances of `source::mqtt` that collect (include/source/mqtt.h).
pub mod Stream
use muondetector_cluster.Prelude.{ℕ, List, [], ◌∷◌, Text}
use muondetector_cluster.Prelude.Int.{ℤ, pos}
use muondetector_cluster.Event.{Event, EventData}
use muondetector_cluster.Station.{DetectorInfo}
use muondetector_cluster.Source.Run.{Numbers}
use muondetector_cluster.Source.Events.{add_event, lone_event, no_location, no_user}
use muondetector_cluster.Source.Info.{add_info}
use muondetector_cluster.Source.Log.{DetectorLog, add_log}
use muondetector_cluster.Source.Buffer.{Kind, sender_hash, content_hash}

abbrev no_hit : EventData
no_hit = record {
  location = no_location;
  userinfo = no_user;
  hash = 0;
  user = [];
  station_id = [];
  start = pos 0;
  end = pos 0;
  time_acc = 0;
  ublox_counter = 0;
  fix = 0;
  utc = 0;
  gnss_time_grid = 0;
}

module _ (std : Numbers) where
  abbrev pub event_kind : Kind Event
  event_kind = record {
    default_status = 0;
    blank = lone_event no_hit;
    add = λ now topic content c. add_event std topic content c;
    generate_hash = λ topic content. content_hash std.hash content;
  }

  abbrev pub info_kind : ℕ → Kind DetectorInfo
  info_kind configured = record {
    default_status = 63;
    blank = record { location = no_location; hash = 0; userinfo = no_user };
    add = λ now topic content c. add_info std configured now content c;
    generate_hash = λ topic content. sender_hash std.hash topic;
  }

  abbrev pub log_kind : Kind DetectorLog
  log_kind = record {
    default_status = 2;
    blank = record { userinfo = no_user; log_id = []; items = [] };
    add = λ now topic content c. add_log std now content c;
    generate_hash = λ topic content. sender_hash std.hash topic;
  }
