-- ===== src/Timeouts.antt =====
-- src/timeout_manager.rs: `TimeoutManager`, which bounds operations in time and adapts the bounds. Times
-- and durations are in nanoseconds and given as arguments; floating point is the parameter `Floats`.
-- A product or sum of durations that exceeds the range of `Duration` panics; this is left out. The maps have
-- an entry for every operation type from `new` on and none is ever removed, so they are functions.
pub mod Numbers
pub mod Config
pub mod Adjusting
pub mod Retrying
pub mod Reference
mod Tests
use Prim.Native.String.{String, ◌++◌}
use iroh_raft.Common.{
  ℕ, zero, suc, ◌+◌, ◌-◌, ◌*◌, ◌/◌, ◌%◌, ltb, ◌==◌, ◌&&◌, min, max, Bool, if◌then◌else◌, List, [],
  ◌∷◌, Option, none, some, Outcome, ok, err,
}
use iroh_raft.Common.Bytes.{u32_mod}
use iroh_raft.Error.{RaftError}
use Numbers.{Floats}
use Config.{
  millis, as_millis, TimeoutConfig, OperationType, op_eq, op_name, op_config, TimeoutStats,
  no_stats, note_success, note_timeout, note_adjustment, get_avg_duration, get_timeout_rate,
}

abbrev pub set_at : {V : Type 0} → (OperationType → V) → OperationType → V → OperationType → V
set_at f op v other = if op_eq op other then v else f other

-- How an operation under a timeout ended; a failure with its display text.
pub data Ending (T : Type 0) : Type 0 where
  returned : T → Ending T
  failed : String → Ending T
  elapsed : Ending T

module _ (floats : Floats) where
  pub record TimeoutManager : Type 0 where
    pub configs : OperationType → TimeoutConfig floats.F64
    pub stats : OperationType → TimeoutStats
    pub last_adjustment : OperationType → ℕ

  -- One attempt: how it ends, how long it takes, the time after it, and the random number drawn for the
  -- delay that follows.
  pub record Attempt (T : Type 0) : Type 0 where
    pub ending : Ending T
    pub duration : ℕ
    pub now : ℕ
    pub random : floats.F64

  unfoldable pub new : ℕ → TimeoutManager
  new now = record {
    configs = op_config floats;
    stats = λ op. no_stats;
    last_adjustment = λ op. now;
  }

  unfoldable pub get_current_timeout : TimeoutManager → OperationType → ℕ
  get_current_timeout m op =
      let current_ms = (m.stats op).current_timeout_ms in
      if current_ms == 0 then (m.configs op).base_timeout else millis current_ms

  unfoldable pub new_timeout : TimeoutConfig floats.F64 → TimeoutStats → ℕ → ℕ
  new_timeout config stats current =
      let rate = get_timeout_rate floats stats in
      let avg_duration = get_avg_duration stats in
      if floats.less floats.tenth rate
      then min (floats.mul_f64 current floats.one_and_half) config.max_timeout
      else (if floats.less rate floats.fiftieth && ltb 0 (as_millis avg_duration)
          then max
              (max (floats.mul_f64 avg_duration floats.three)
                (floats.mul_f64 current floats.four_fifths))
              config.min_timeout
          else current)

  unfoldable pub adjust_timeout_if_needed : TimeoutManager → OperationType → ℕ → TimeoutManager
  unfolding get_current_timeout new_timeout
  adjust_timeout_if_needed m op now =
      let current = get_current_timeout m op in
      let adjusted = new_timeout (m.configs op) (m.stats op) current in
      if ltb (now - m.last_adjustment op) (millis 30000)
      then m
      else (if adjusted == current then m else record m {
        stats = set_at m.stats op (note_adjustment (m.stats op) adjusted);
        last_adjustment = set_at m.last_adjustment op now;
      })

  unfoldable pub adapt : TimeoutManager → OperationType → ℕ → TimeoutManager
  unfolding adjust_timeout_if_needed
  adapt m op now = if (m.configs op).enable_adaptive then adjust_timeout_if_needed m op now else m

  abbrev pub put_stats : TimeoutManager → OperationType → TimeoutStats → TimeoutManager
  put_stats m op s = record m { stats = set_at m.stats op s }

  unfoldable pub execute_with_timeout :
      {T : Type 0}
      → TimeoutManager
      → OperationType
      → Ending T
      → ℕ
      → ℕ
      → TimeoutManager × Outcome RaftError T
  unfolding get_current_timeout adapt
  execute_with_timeout m op (returned result) duration now =
      (adapt (put_stats m op (note_success (m.stats op) duration)) op now, ok result)
  execute_with_timeout m op (failed text) duration now = (
    put_stats m op (note_success (m.stats op) duration),
    err (RaftError.internal ("Operation failed: " ++ text)),
  )
  execute_with_timeout m op elapsed duration now = (
    adapt (put_stats m op (note_timeout (m.stats op))) op now,
    err (RaftError.timeout (op_name op) (get_current_timeout m op)),
  )

  -- The delay after one that has been slept, or after the base timeout.
  abbrev pub next_delay : TimeoutConfig floats.F64 → ℕ → floats.F64 → ℕ
  next_delay config delay random =
      min
        (floats.mul_f64 delay config.backoff_multiplier
          + millis (floats.jitter_ms (as_millis delay) config.jitter_factor random))
        config.max_timeout

  -- What a call of `execute_with_retry` leaves: the manager, the delays that it has slept, in reverse, and its result.
  pub record Finished (T : Type 0) : Type 0 where
    pub manager : TimeoutManager
    pub slept : List ℕ
    pub result : Outcome RaftError T

  -- The loop; `attempts` has the attempts still to come, by their number.
  unfoldable pub retry_loop :
      {T : Type 0}
      → ℕ
      → TimeoutConfig floats.F64
      → OperationType
      → (ℕ → Attempt T)
      → TimeoutManager
      → ℕ
      → ℕ
      → List ℕ
      → Option (Finished T)
  unfolding execute_with_timeout
  retry_loop zero config op attempts m retry_count delay slept = none
  retry_loop (suc fuel) config op attempts m retry_count delay slept =
      let attempt = attempts retry_count in
      let done = execute_with_timeout m op attempt.ending attempt.duration attempt.now in
      let count = (retry_count + 1) % u32_mod in
      let longer = next_delay config delay attempt.random in
      let rest = retry_loop fuel config op attempts done.0 count longer (longer ∷ slept) in
      elim done.1 [
        | ok result ↦ some (record { manager = done.0; slept = slept; result = ok result })
        | err why ↦
            if ltb config.max_retries count
            then some (record { manager = done.0; slept = slept; result = err why })
            else rest
      ]

  unfoldable pub execute_with_retry :
      {T : Type 0} → ℕ → TimeoutManager → OperationType → (ℕ → Attempt T) → Option (Finished T)
  unfolding retry_loop
  execute_with_retry fuel m op attempts =
      let config = m.configs op in retry_loop fuel config op attempts m 0 config.base_timeout []

  unfoldable pub update_config :
      TimeoutManager → OperationType → TimeoutConfig floats.F64 → TimeoutManager
  update_config m op config = record m { configs = set_at m.configs op config }

  pub record TimeoutStatsSnapshot : Type 0 where
    pub counts : TimeoutStats
    pub timeout_rate : floats.F64
    pub avg_duration : ℕ

  abbrev pub get_stats : TimeoutManager → OperationType → TimeoutStatsSnapshot
  get_stats m op = record {
    counts = m.stats op;
    timeout_rate = get_timeout_rate floats (m.stats op);
    avg_duration = get_avg_duration (m.stats op);
  }
