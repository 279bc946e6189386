-- ===== src/Event/Samples.antt =====
-- Concrete events for the tests.
use muondetector_cluster.Prelude.{ℕ, ◌+◌, []}
use muondetector_cluster.Prelude.Int.{pos}
use muondetector_cluster.Event.{Event, EventData, Location, UserInfo}

abbrev pub nowhere : Location
nowhere = record {
  lat = 0;
  lon = 0;
  h = 0;
  v_acc = 0;
  h_acc = 0;
  dop = 0;
  geohash = [];
  max_geohash_length = 0;
}

abbrev pub nobody : UserInfo
nobody = record { username = []; station_id = [] }

-- A hit of station `k` at time `t`, 100 ns long.
abbrev pub hit : ℕ → ℕ → EventData
hit k t = record {
  location = nowhere;
  userinfo = nobody;
  hash = k;
  user = [];
  station_id = [];
  start = pos t;
  end = pos (t + 100);
  time_acc = 10;
  ublox_counter = 0;
  fix = 1;
  utc = 1;
  gnss_time_grid = 0;
}

abbrev pub lone : ℕ → ℕ → Event
lone k t = record { head = hit k t; events = [] }
