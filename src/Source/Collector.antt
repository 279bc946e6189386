-- ===== src/Source/Collector.antt =====
-- `source::mqtt<T>::item_collector`, without `add`, which differs for each `T`.
use muondetector_cluster.Prelude.{ℕ, ◌-◌, ◌/◌, ◌%◌, Bool, ◌==◌, if◌then◌else◌}
use muondetector_cluster.Prelude.Int.{ℤ, pos}
use muondetector_cluster.Event.{UserInfo}

-- `ResultCode`
pub data ResultCode : Type 0 where
  error aggregating finished abort new_epoch commit reset : ResultCode

unfoldable pub code_value : ResultCode → ℕ
code_value ResultCode.error = 0
code_value ResultCode.aggregating = 1
code_value ResultCode.finished = 2
code_value ResultCode.abort = 4
code_value ResultCode.new_epoch = 8
code_value ResultCode.commit = 10
code_value ResultCode.reset = 12

-- `(code & bit) != 0`, for a power of two
unfoldable pub has : ℕ → ResultCode → Bool
unfolding code_value
has bit code = code_value code / bit % 2 == 1

-- `status &= ~bit`, for a power of two
unfoldable pub clear_bit : ℕ → ℕ → ℕ
clear_bit bit status = if status / bit % 2 == 1 then status - bit else status

pub record ItemCollector (A : Type 0) : Type 0 where
  pub user_info : UserInfo
  pub first_message : ℤ
  pub status : ℕ
  pub item : A

-- Five seconds, in nanoseconds
abbrev pub epoch : ℤ
epoch = pos 5000000000
