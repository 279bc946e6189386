-- ===== src/Status.antt =====
-- include/messages/detectorstatus.h, with the texts of src/analysis/detectorstation.cpp.
use Prim.Native.String.{String}
use muondetector_cluster.Prelude.{ℕ, Bool, ltb, ◌==◌}

pub data Status : Type 0 where
  invalid deleted created unreliable reliable : Status

pub data Reason : Type 0 where
  miscellaneous time_accuracy time_accuracy_extreme location_precision : Reason
  rate_unstable missed_log_interval : Reason

-- The enumerator's value.
abbrev pub status_value : Status → ℕ
status_value invalid = 0
status_value deleted = 1
status_value created = 2
status_value unreliable = 3
status_value reliable = 4

abbrev pub status_eq : Status → Status → Bool
status_eq s t = status_value s == status_value t

abbrev pub status_lt : Status → Status → Bool
status_lt s t = ltb (status_value s) (status_value t)

unfoldable pub status_string : Status → String
status_string created = "online"
status_string deleted = "offline"
status_string reliable = "reliable"
status_string unreliable = "unreliable"
status_string invalid = "invalid"

unfoldable pub reason_string : Reason → String
reason_string location_precision = "location_precision"
reason_string rate_unstable = "rate_unstable"
reason_string time_accuracy = "time_accuracy"
reason_string time_accuracy_extreme = "time_accuracy_extreme"
reason_string missed_log_interval = "missed_log_interval"
reason_string miscellaneous = "miscellaneous"
