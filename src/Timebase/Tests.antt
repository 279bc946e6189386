-- ===== src/Timebase/Tests.antt =====
-- Witnesses for the time base.
use muondetector_cluster.Prelude.{◌≡◌, refl, none, arith}
use muondetector_cluster.Prelude.Int.{pos, ◌-ℤ◌}
use muondetector_cluster.Event.Samples.{lone}
use muondetector_cluster.Filter.{Timebase}
use muondetector_cluster.Timebase.{
  TimebaseSupervisor, observe_event, send_timebase, minimum, min_time, max_time,
}
use muondetector_cluster.Timebase.Spread.{renewed, send_timebase-single}

abbrev base : Timebase
base = record { factor = 2; base = pos 0 }

-- Two events, one second apart.
abbrev two_seen : TimebaseSupervisor
two_seen = record {
  sample_start = pos 0;
  start = pos 5000000000;
  end = pos 6000000000;
  current = minimum;
}

abbrev cleared : TimebaseSupervisor
cleared = record {
  sample_start = pos 9000000000;
  start = max_time;
  end = min_time;
  current = pos 1000000000;
}

-- One event behind the sample of the two.
send_timebase-single_example :
    send_timebase
      (pos 18000000000)
      (pos 19000000000)
      base
      (observe_event (lone 3 15000000000) cleared)
    ≡ none
unfolding ◌-ℤ◌ send_timebase
send_timebase-single_example =
    send_timebase-single (pos 18000000000) (pos 19000000000) base cleared (lone 3 15000000000)
      14999999999
      (renewed (pos 8000000000) (pos 9000000000) base (record base { base = pos 1000000000 })
        two_seen cleared (omega arith) refl)
      refl (omega arith) (omega arith)
