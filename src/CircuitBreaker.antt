-- ===== src/CircuitBreaker.antt =====
-- src/circuit_breaker.rs: `CircuitBreaker`. Time is an argument, in milliseconds since some start, and
-- one call of a method reads the clock once. Here every method runs without interruption, while the protected
-- operations between them may overlap; Locks takes the methods apart, from one lock to the next. Atomic counters wrap at their width. `get_failure_rate`, a
-- floating-point quotient of two counters, is left out.
pub mod Metrics
pub mod Windows
pub mod Soundness
pub mod Transitions
pub mod HalfOpen
pub mod Locks
pub mod Alone
pub mod Races
pub mod Manager
mod Tests
use Prim.Native.String.{String, ◌++◌ as concat}
use iroh_raft.Common.{
  ℕ, ◌+◌, ◌-◌, ◌%◌, Bool, true, false, not, List, [], ◌∷◌, ◌++◌, Option, none, some, length, ltb,
  leb, if◌then◌else◌, Outcome, ok, err,
}
use iroh_raft.Common.Bytes.{u32_mod, u64_mod}
use iroh_raft.Error.{RaftError}

-- `opened` is `Open`, a reserved word here.
pub data CircuitBreakerState : Type 0 where
  closed opened half_open : CircuitBreakerState

pub record CircuitBreakerConfig : Type 0 where
  pub failure_threshold : ℕ
  pub timeout : ℕ
  pub success_threshold : ℕ
  pub half_open_max_requests : ℕ
  pub failure_rate_window : ℕ
  pub minimum_throughput : ℕ

abbrev pub default_config : CircuitBreakerConfig
default_config = record {
  failure_threshold = 5;
  timeout = 60000;
  success_threshold = 3;
  half_open_max_requests = 5;
  failure_rate_window = 20;
  minimum_throughput = 10;
}

pub record CircuitBreakerMetrics : Type 0 where
  pub total_requests : ℕ
  pub total_successes : ℕ
  pub total_failures : ℕ
  pub rejected_requests : ℕ
  pub circuit_opened_count : ℕ
  pub circuit_closed_count : ℕ

-- `fetch_add(1)` on an `AtomicU64` and on an `AtomicU32`.
abbrev pub add_u64 : ℕ → ℕ
add_u64 n = (n + 1) % u64_mod

abbrev pub add_u32 : ℕ → ℕ
add_u32 n = (n + 1) % u32_mod

abbrev pub record_request : CircuitBreakerMetrics → CircuitBreakerMetrics
record_request m = record m { total_requests = add_u64 m.total_requests }

abbrev pub record_success : CircuitBreakerMetrics → CircuitBreakerMetrics
record_success m = record m { total_successes = add_u64 m.total_successes }

abbrev pub record_failure : CircuitBreakerMetrics → CircuitBreakerMetrics
record_failure m = record m { total_failures = add_u64 m.total_failures }

abbrev pub record_rejection : CircuitBreakerMetrics → CircuitBreakerMetrics
record_rejection m = record m { rejected_requests = add_u64 m.rejected_requests }

abbrev pub record_circuit_opened : CircuitBreakerMetrics → CircuitBreakerMetrics
record_circuit_opened m = record m { circuit_opened_count = add_u32 m.circuit_opened_count }

abbrev pub record_circuit_closed : CircuitBreakerMetrics → CircuitBreakerMetrics
record_circuit_closed m = record m { circuit_closed_count = add_u32 m.circuit_closed_count }

-- The front of `recent_failures` is the head of the list.
pub record CircuitBreaker : Type 0 where
  pub state : CircuitBreakerState
  pub config : CircuitBreakerConfig
  pub metrics : CircuitBreakerMetrics
  pub last_failure_time : Option ℕ
  pub half_open_requests : ℕ
  pub half_open_successes : ℕ
  pub recent_failures : List ℕ

unfoldable pub new : CircuitBreakerConfig → CircuitBreaker
new config = record {
  state = closed;
  config = config;
  metrics = record {
    total_requests = 0;
    total_successes = 0;
    total_failures = 0;
    rejected_requests = 0;
    circuit_opened_count = 0;
    circuit_closed_count = 0;
  };
  last_failure_time = none;
  half_open_requests = 0;
  half_open_successes = 0;
  recent_failures = [];
}

-- `if let Some(last_failure) = … { if last_failure.elapsed() > timeout { … } }`
abbrev pub timeout_elapsed : Option ℕ → ℕ → ℕ → Bool
timeout_elapsed none timeout now = false
timeout_elapsed (some last_failure) timeout now = ltb timeout (now - last_failure)

abbrev allow : CircuitBreakerState → CircuitBreaker → ℕ → CircuitBreaker × Bool
allow closed cb now = (cb, true)
allow opened cb now =
    if timeout_elapsed cb.last_failure_time cb.config.timeout now
    then (record cb { state = half_open; half_open_requests = 0; half_open_successes = 0 }, true)
    else (cb, false)
allow half_open cb now =
    if ltb cb.half_open_requests cb.config.half_open_max_requests
    then (record cb { half_open_requests = add_u32 cb.half_open_requests }, true)
    else (cb, false)

unfoldable pub allow_request : CircuitBreaker → ℕ → CircuitBreaker × Bool
allow_request cb now = allow cb.state cb now

-- The `while let` over the front of the queue. An instant before the start of time is before all.
unfoldable pub drop_old : ℕ → List ℕ → List ℕ
drop_old cutoff [] = []
drop_old cutoff (front ∷ rest) =
    let fewer = drop_old cutoff rest in if ltb front cutoff then fewer else front ∷ rest

unfoldable pub clean_old_failures : CircuitBreaker → ℕ → CircuitBreaker
clean_old_failures cb now = record cb {
  recent_failures = drop_old (now - 60000) cb.recent_failures;
}

abbrev succeed : CircuitBreakerState → CircuitBreaker → ℕ → CircuitBreaker
succeed half_open cb now =
    let successes = add_u32 cb.half_open_successes in
    let counted = record cb { half_open_successes = successes } in
    if leb cb.config.success_threshold successes
    then record counted {
      state = closed;
      last_failure_time = none;
      recent_failures = [];
      metrics = record_circuit_closed cb.metrics;
    }
    else counted
succeed _ cb now = clean_old_failures cb now

unfoldable pub on_success : CircuitBreaker → ℕ → CircuitBreaker
on_success cb now = succeed cb.state cb now

-- `*self.state.write().await = Open; self.metrics.record_circuit_opened();`
abbrev pub trip : CircuitBreaker → CircuitBreaker
trip cb = record cb { state = opened; metrics = record_circuit_opened cb.metrics }

abbrev fail : CircuitBreakerState → CircuitBreaker → CircuitBreaker
fail closed cb = if leb cb.config.failure_threshold (length cb.recent_failures) then trip cb else cb
fail half_open cb = trip cb
fail opened cb = cb

-- `*self.last_failure_time.write().await = Some(now);`
abbrev pub note_failure : ℕ → CircuitBreaker → CircuitBreaker
note_failure now cb = record cb { last_failure_time = some now }

-- `self.recent_failures.write().await.push_back(now);`
abbrev pub push_failure : ℕ → CircuitBreaker → CircuitBreaker
push_failure now cb = record cb { recent_failures = cb.recent_failures ++ (now ∷ []) }

-- The state is read after the cleaning.
unfoldable pub on_failure : CircuitBreaker → ℕ → CircuitBreaker
on_failure cb now =
    let cleaned = clean_old_failures (push_failure now (note_failure now cb)) now in
    fail cleaned.state cleaned

unfoldable pub force_open : CircuitBreaker → ℕ → CircuitBreaker
force_open cb now = record (trip cb) { last_failure_time = some now }

unfoldable pub force_close : CircuitBreaker → CircuitBreaker
force_close cb = record cb {
  state = closed;
  last_failure_time = none;
  recent_failures = [];
  metrics = record_circuit_closed cb.metrics;
}

-- The first part of `call`, up to the protected operation: `false` is the early return.
unfoldable pub admit : CircuitBreaker → ℕ → CircuitBreaker × Bool
admit cb now =
    let (asked, allowed) = allow_request cb now in
    if allowed
    then (record asked { metrics = record_request asked.metrics }, true)
    else (record asked { metrics = record_rejection asked.metrics }, false)

-- The rest of `call`, when the protected operation has answered.
unfoldable pub finish {ℓ} :
    {T : Type ℓ} → CircuitBreaker → ℕ → Outcome String T → CircuitBreaker × Outcome RaftError T
finish cb now (ok result) =
    let after = on_success cb now in
    (record after { metrics = record_success after.metrics }, ok result)
finish cb now (err e) =
    let after = on_failure cb now in
    (
      record after { metrics = record_failure after.metrics },
      err (RaftError.internal (concat "Circuit breaker protected operation failed: " e)),
    )

-- `call`, of an operation that answers `answer` at the time `later`.
unfoldable pub call {ℓ} :
    {T : Type ℓ} → CircuitBreaker → ℕ → ℕ → Outcome String T → CircuitBreaker × Outcome RaftError T
call cb now later answer =
    let (admitted, allowed) = admit cb now in
    if allowed
    then finish admitted later answer
    else (admitted, err (RaftError.circuit_breaker_open "Circuit breaker is open"))
