-- ===== src/CircuitBreaker/Locks.antt =====
-- The methods of src/circuit_breaker.rs as the tasks run them: a task gives up each lock before it takes the next one, so
-- that another task may run between any two of its accesses to the breaker.
use iroh_raft.Common.{
  ℕ, suc, Bool, true, false, List, [], ◌∷◌, none, length, ltb, leb, if◌then◌else◌,
}
use iroh_raft.CircuitBreaker.{
  CircuitBreakerState, closed, opened, half_open, CircuitBreaker, add_u32, timeout_elapsed,
  note_failure, push_failure, clean_old_failures, record_circuit_closed, record_circuit_opened,
}

-- What a task has still to do: the next access of `allow_request`, `on_success` or `on_failure`, with the local
-- variables that the rest of the method needs. `answered` has the answer of `allow_request`.
pub data Task : Type 0 where
  asking reading_last_failure half_opening resetting_requests resetting_successes : Task
  loading_requests adding_request : Task
  answered : Bool → Task
  succeeding adding_success closing forgetting_time forgetting_failures counting_closed : Task
  cleaning_after_success : Task
  failing : Task
  noting pushing : ℕ → Task
  cleaning_after_failure reading_after_failure counting_failures opening counting_opened : Task
  ended : Task

-- The match on the state that `allow_request`, `on_success` and `on_failure` have read.
abbrev asked : CircuitBreakerState → Task
asked closed = answered true
asked opened = reading_last_failure
asked half_open = loading_requests

abbrev pub succeeded : CircuitBreakerState → Task
succeeded half_open = adding_success
succeeded _ = cleaning_after_success

abbrev pub failed : CircuitBreakerState → Task
failed closed = counting_failures
failed half_open = opening
failed opened = ended

-- One access to the breaker, at the time `now`.
unfoldable pub access : ℕ → CircuitBreaker → Task → CircuitBreaker × Task
unfolding clean_old_failures
access now cb asking = (cb, asked cb.state)
access now cb reading_last_failure = (
  cb,
  if timeout_elapsed cb.last_failure_time cb.config.timeout now
      then half_opening
      else answered false,
)
access now cb half_opening = (record cb { state = half_open }, resetting_requests)
access now cb resetting_requests = (record cb { half_open_requests = 0 }, resetting_successes)
access now cb resetting_successes = (record cb { half_open_successes = 0 }, answered true)
access now cb loading_requests = (
  cb,
  if ltb cb.half_open_requests cb.config.half_open_max_requests
      then adding_request
      else answered false,
)
access now cb adding_request =
    (record cb { half_open_requests = add_u32 cb.half_open_requests }, answered true)
access now cb (answered allowed) = (cb, answered allowed)
access now cb succeeding = (cb, succeeded cb.state)
access now cb adding_success =
    let successes = add_u32 cb.half_open_successes in
    (
      record cb { half_open_successes = successes },
      if leb cb.config.success_threshold successes then closing else ended,
    )
access now cb closing = (record cb { state = closed }, forgetting_time)
access now cb forgetting_time = (record cb { last_failure_time = none }, forgetting_failures)
access now cb forgetting_failures = (record cb { recent_failures = [] }, counting_closed)
access now cb counting_closed = (record cb { metrics = record_circuit_closed cb.metrics }, ended)
access now cb cleaning_after_success = (clean_old_failures cb now, ended)
access now cb failing = (cb, noting now)
access now cb (noting t) = (note_failure t cb, pushing t)
access now cb (pushing t) = (push_failure t cb, cleaning_after_failure)
access now cb cleaning_after_failure = (clean_old_failures cb now, reading_after_failure)
access now cb reading_after_failure = (cb, failed cb.state)
access now cb counting_failures =
    (cb, if leb cb.config.failure_threshold (length cb.recent_failures) then opening else ended)
access now cb opening = (record cb { state = opened }, counting_opened)
access now cb counting_opened = (record cb { metrics = record_circuit_opened cb.metrics }, ended)
access now cb ended = (cb, ended)

-- Accesses of two tasks in the given order, where `true` is a turn of the first one; the turn number i is at the
-- time `clock i`.
unfoldable pub interleave :
    (ℕ → ℕ) → ℕ → List Bool → CircuitBreaker → Task → Task → CircuitBreaker × Task × Task
unfolding access
interleave clock i [] cb one two = (cb, one, two)
interleave clock i (true ∷ turns) cb one two =
    let (cb', one') = access (clock i) cb one in interleave clock (suc i) turns cb' one' two
interleave clock i (false ∷ turns) cb one two =
    let (cb', two') = access (clock i) cb two in interleave clock (suc i) turns cb' one two'
