-- ===== src/CircuitBreaker/Tests.antt =====
-- Runs of the breaker: each applies a result at a concrete history.
use Prim.Native.String.{String}
use iroh_raft.Common.{
  ℕ, ◌+◌, ◌%◌, ◌<◌, ◌≤◌, ◌≡◌, refl, true, List, [], ◌∷◌, ◌++◌, none, some, min, arith, length, All,
  leb, if◌then◌else◌, Outcome, ok, err,
}
use iroh_raft.Common.Bytes.{u64_mod}
use iroh_raft.Error.{RaftError}
use iroh_raft.CircuitBreaker.{
  CircuitBreaker, CircuitBreakerConfig, closed, opened, half_open, new, allow_request, on_failure,
  clean_old_failures, drop_old, admit, finish, call, record_rejection, force_open, timeout_elapsed,
  add_u32,
}
use iroh_raft.CircuitBreaker.Windows.{
  Reached, started, admitted, finished, forced_open, keep_recent,
}
use iroh_raft.CircuitBreaker.Transitions.{finish_opens, open_until_timeout}
use iroh_raft.CircuitBreaker.HalfOpen.{calls, succeeding_calls, calls_recover}
use iroh_raft.CircuitBreaker.Locks.{Task, failing, succeeding, ended, interleave}
use iroh_raft.CircuitBreaker.Races.{late_opening, interleave-late_opening}
use iroh_raft.CircuitBreaker.Metrics.{quiet, let_through, answered, counters_account}

abbrev small_config : CircuitBreakerConfig
small_config = record {
  failure_threshold = 2;
  timeout = 1000;
  success_threshold = 3;
  half_open_max_requests = 1;
  failure_rate_window = 20;
  minimum_throughput = 10;
}

abbrev failure : Outcome String (Unit {0})
failure = err "unreachable"

abbrev one_failed : CircuitBreaker
one_failed = (finish (admit (new small_config) 5).0 8 failure).0

abbrev one_failed_history : Reached (Unit {0}) small_config 8 one_failed
one_failed_history =
    finished 5 8 (admit (new small_config) 5).0 failure
      (admitted 5 5 (new small_config) (started 5) (omega arith)) (omega arith)

one_failed_closed : one_failed.state ≡ closed
unfolding new admit allow_request finish on_failure clean_old_failures drop_old
one_failed_closed = refl

finish_opens_example : (finish {T = Unit {0}} one_failed 9 (err "again")).0.state ≡ (
    if leb 2 (length (keep_recent 0 (one_failed.recent_failures ++ (9 ∷ []))))
    then opened
    else closed)
finish_opens_example =
    finish_opens 8 9 one_failed "again" (omega arith) one_failed_history (omega arith)
      one_failed_closed

abbrev forced : CircuitBreaker
forced = force_open (new small_config) 7

forced_opened : forced.state ≡ opened
unfolding new force_open
forced_opened = refl

open_until_timeout_example :
    (t : ℕ) × (forced.last_failure_time ≡ some t)
    × (t ≤ 7)
    × ((at later : ℕ) (answer : Outcome String (Unit {0}))
        → at ≤ t + 1000
        → call forced at later answer ≡ (
          record forced { metrics = record_rejection forced.metrics },
          err (RaftError.circuit_breaker_open "Circuit breaker is open"),
        ))
    × ((at : ℕ)
        → t + 1000 < at
        → ((admit forced at).1 ≡ true)
          × ((admit forced at).0.state ≡ half_open)
          × ((admit forced at).0.half_open_requests ≡ 0)
          × ((admit forced at).0.half_open_successes ≡ 0))
open_until_timeout_example =
    open_until_timeout 7 forced (omega arith)
      (forced_open 7 7 (new small_config) (started 7) (omega arith)) forced_opened

-- The forced breaker takes calls again from 1008 on; it wants three successes, and takes one request and one more.
abbrev recovering : List (ℕ × ℕ × Unit {0})
recovering = (2000, 2001, tt) ∷ (2002, 2003, tt) ∷ (2004, 2005, tt) ∷ []

forced_elapsed : timeout_elapsed forced.last_failure_time forced.config.timeout 2000 ≡ true
unfolding new force_open
forced_elapsed = refl

calls_recover_example :
    (calls forced (succeeding_calls recovering)).0.state
    ≡ (if leb 3 (1 + min 2 1) then closed else half_open)
unfolding new force_open
calls_recover_example =
    calls_recover forced 2000 2001 tt ((2002, 2003, tt) ∷ (2004, 2005, tt) ∷ []) (omega arith)
      (omega arith) forced_opened forced_elapsed

-- A breaker that one success closes, after a request that has made it half open.
abbrev probed : CircuitBreaker
probed = (admit (force_open (new (record small_config { success_threshold = 1 })) 7) 2000).0

probed_half_open : probed.state ≡ half_open
unfolding new force_open admit allow_request
probed_half_open = refl

probed_enough : probed.config.success_threshold ≤ add_u32 probed.half_open_successes
unfolding new force_open admit allow_request
probed_enough = omega arith

abbrev stuck : CircuitBreaker × Task × Task
stuck = interleave (λ i. 2001 + i) 0 late_opening probed failing succeeding

interleave-late_opening_example :
    (stuck.1 ≡ ended)
    × (stuck.2 ≡ ended)
    × (stuck.0.state ≡ opened)
    × (stuck.0.last_failure_time ≡ none)
    × ((calls stuck.0 ((9000000, 9000001, ok (tt {0})) ∷ [])).0.state ≡ opened)
    × All
        (λ (given : Outcome RaftError (Unit {0})).
          given ≡ err (RaftError.circuit_breaker_open "Circuit breaker is open"))
        (calls stuck.0 ((9000000, 9000001, ok tt) ∷ [])).1
interleave-late_opening_example =
    interleave-late_opening probed (λ i. 2001 + i) ((9000000, 9000001, ok tt) ∷ []) probed_half_open
      probed_enough

first_let_through : (admit (new small_config) 5).1 ≡ true
unfolding new admit allow_request
first_let_through = refl

counters_account_example :
    (one_failed.metrics.total_requests
      ≡ (one_failed.metrics.total_successes + one_failed.metrics.total_failures + 0) % u64_mod)
    × ((one_failed.metrics.total_requests + one_failed.metrics.rejected_requests) % u64_mod
        ≡ 1 % u64_mod)
counters_account_example = counters_account 1 0 one_failed (
    answered 1 0 8 (admit (new small_config) 5).0 failure
      (let_through 0 0 5 (new small_config) quiet first_let_through))
