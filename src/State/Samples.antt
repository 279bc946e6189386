-- ===== src/State/Samples.antt =====
-- A supervisor as it is at the start of the program.
use muondetector_cluster.Prelude.{[]}
use muondetector_cluster.Prelude.Int.{pos}
use muondetector_cluster.Series
use muondetector_cluster.Rate.{Rate}
use muondetector_cluster.State.{State, ClusterLog}

abbrev pub no_rate : Rate
unfolding Series.init
no_rate = record { series = Series.init 3 0; current_n = 0; last = pos 0 }

abbrev pub no_log : ClusterLog
no_log = record {
  timeout = pos 0;
  timebase = pos 0;
  uptime = pos 0;
  single_in = 0;
  l1_out = 0;
  incoming = 0;
  outgoing = [];
  buffer_length = 0;
  total_detectors = 0;
  reliable_detectors = 0;
  maximum_n = 0;
  process_cpu_load = 0;
  system_cpu_load = 0;
  memory_usage = 0;
}

abbrev pub fresh : State
fresh = record {
  detectors = [];
  timeout = pos 0;
  timebase = pos 0;
  incoming_rate = no_rate;
  outgoing_rate = no_rate;
  current_data = no_log;
}
