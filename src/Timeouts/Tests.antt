-- ===== src/Timeouts/Tests.antt =====
-- The timeouts of messages on concrete runs.
use iroh_raft.Common.{ℕ, zero, suc, arith, ◌≤◌, ◌≡◌, some}
use iroh_raft.Timeouts.Reference.{fractions}
use iroh_raft.Timeouts.Config.{millis, op_config, raft_message}
use iroh_raft.Timeouts.{
  TimeoutManager, Ending, returned, elapsed, Attempt, Finished, new, get_current_timeout,
  new_timeout, execute_with_timeout, execute_with_retry,
}
use iroh_raft.Timeouts.Adjusting.{Executed, fresh, ran, timeout_at_least}
use iroh_raft.Timeouts.Retrying.{Retried, execute_with_retry-Retried}

-- An attempt that times out, and two that return a number.
abbrev attempts : ℕ → Attempt fractions ℕ
attempts zero = record {
  ending = elapsed;
  duration = millis 500;
  now = millis 500;
  random = (1, 2);
}
attempts (suc n) = record {
  ending = returned 7;
  duration = millis 20;
  now = millis 1600;
  random = (0, 1);
}

execute_with_retry-Retried_example :
    (last : ℕ) × (f : Finished fractions ℕ) × (execute_with_retry fractions 3
        (new fractions 0)
        raft_message
        attempts
      ≡ some f)
    × Retried fractions ((new fractions 0).configs raft_message) attempts 0 0 last f
execute_with_retry-Retried_example =
    execute_with_retry-Retried fractions 3 (new fractions 0) raft_message attempts
      (unfold new in omega arith) (unfold new in omega arith)

abbrev too_long : Ending ℕ
too_long = elapsed

-- After an operation of 31 seconds the timeout of messages is adjusted.
abbrev slow_run : TimeoutManager fractions
slow_run =
    (execute_with_timeout fractions (new fractions 0) raft_message too_long (millis 500)
      (millis 31000)).0

slow_run-Executed : Executed fractions slow_run
unfolding new get_current_timeout new_timeout
slow_run-Executed = ran raft_message too_long (millis 500) (millis 31000) (omega arith) (fresh 0)

timeout_at_least_example :
    (op_config fractions raft_message).min_timeout
    ≤ get_current_timeout fractions slow_run raft_message
timeout_at_least_example = timeout_at_least fractions slow_run raft_message slow_run-Executed
