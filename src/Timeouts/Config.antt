-- ===== src/Timeouts/Config.antt =====
-- src/timeout_manager.rs: the operation types, their settings and their statistics.
use Prim.Native.String.{String}
use iroh_raft.Common.{ℕ, ◌+◌, ◌*◌, ◌/◌, ◌%◌, ◌==◌, Bool, true, if◌then◌else◌}
use iroh_raft.Common.Bytes.{u32_mod, u64_mod}
use iroh_raft.Timeouts.Numbers.{Floats}

-- Durations are in nanoseconds.
abbrev pub millis : ℕ → ℕ
millis n = n * 1000000

abbrev pub as_millis : ℕ → ℕ
as_millis d = d / 1000000

pub record TimeoutConfig (F64 : Type 0) : Type 0 where
  pub base_timeout : ℕ
  pub max_timeout : ℕ
  pub min_timeout : ℕ
  pub enable_adaptive : Bool
  pub backoff_multiplier : F64
  pub max_retries : ℕ
  pub jitter_factor : F64

pub data OperationType : Type 0 where
  raft_message connection proposal storage config_change health_check network : OperationType

abbrev pub op_number : OperationType → ℕ
op_number raft_message = 0
op_number connection = 1
op_number proposal = 2
op_number storage = 3
op_number config_change = 4
op_number health_check = 5
op_number network = 6

-- `{:?}` of the type.
abbrev pub op_name : OperationType → String
op_name raft_message = "RaftMessage"
op_name connection = "Connection"
op_name proposal = "Proposal"
op_name storage = "Storage"
op_name config_change = "ConfigChange"
op_name health_check = "HealthCheck"
op_name network = "Network"

abbrev pub op_eq : OperationType → OperationType → Bool
op_eq a b = op_number a == op_number b

module _ (floats : Floats) where
  -- The settings of `Default` with the four that the operation types override.
  abbrev pub with_limits : ℕ → ℕ → ℕ → ℕ → TimeoutConfig floats.F64
  with_limits base longest shortest retries = record {
    base_timeout = millis base;
    max_timeout = millis longest;
    min_timeout = millis shortest;
    enable_adaptive = true;
    backoff_multiplier = floats.two;
    max_retries = retries;
    jitter_factor = floats.tenth;
  }

  abbrev pub default_settings : TimeoutConfig floats.F64
  default_settings = with_limits 1000 30000 100 3

  abbrev pub op_config : OperationType → TimeoutConfig floats.F64
  op_config raft_message = with_limits 500 5000 100 2
  op_config connection = with_limits 5000 30000 1000 3
  op_config proposal = with_limits 2000 10000 500 2
  op_config storage = with_limits 1000 15000 200 2
  op_config config_change = with_limits 5000 30000 1000 1
  op_config health_check = with_limits 1000 5000 200 1
  op_config network = with_limits 3000 15000 500 3

pub record TimeoutStats : Type 0 where
  pub total_operations : ℕ
  pub timeout_count : ℕ
  pub success_count : ℕ
  pub total_duration_ms : ℕ
  pub current_timeout_ms : ℕ
  pub adjustment_count : ℕ

abbrev pub no_stats : TimeoutStats
no_stats = record {
  total_operations = 0;
  timeout_count = 0;
  success_count = 0;
  total_duration_ms = 0;
  current_timeout_ms = 0;
  adjustment_count = 0;
}

abbrev pub note_success : TimeoutStats → ℕ → TimeoutStats
note_success s duration = record s {
  total_operations = (s.total_operations + 1) % u64_mod;
  success_count = (s.success_count + 1) % u64_mod;
  total_duration_ms = (s.total_duration_ms + as_millis duration % u64_mod) % u64_mod;
}

abbrev pub note_timeout : TimeoutStats → TimeoutStats
note_timeout s = record s {
  total_operations = (s.total_operations + 1) % u64_mod;
  timeout_count = (s.timeout_count + 1) % u64_mod;
}

abbrev pub note_adjustment : TimeoutStats → ℕ → TimeoutStats
note_adjustment s new_timeout = record s {
  adjustment_count = (s.adjustment_count + 1) % u32_mod;
  current_timeout_ms = as_millis new_timeout % u64_mod;
}

abbrev pub get_avg_duration : TimeoutStats → ℕ
get_avg_duration s =
    if s.success_count == 0 then 0 else millis (s.total_duration_ms / s.success_count)

abbrev pub get_timeout_rate : (floats : Floats) → TimeoutStats → floats.F64
get_timeout_rate floats s =
    if s.total_operations == 0
    then floats.zero_rate
    else floats.ratio s.timeout_count s.total_operations
