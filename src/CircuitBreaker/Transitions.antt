-- ===== src/CircuitBreaker/Transitions.antt =====
-- When a breaker changes its state, over every interleaving of calls.
use Prim.Native.String.{String}
use iroh_raft.Common.{
  ℕ, ◌+◌, ◌-◌, ◌<◌, ◌≤◌, ◌≡◌, refl, ap, ◌∙◌, true, [], ◌∷◌, ◌++◌, some, arith, inl, inr, Bool-cases,
  length, leb, lt→ltb, le→not_ltb, if◌then◌else◌, Outcome, err,
}
use iroh_raft.Error.{RaftError}
use iroh_raft.CircuitBreaker.{
  record_rejection, CircuitBreakerState, closed, opened, half_open, CircuitBreaker,
  CircuitBreakerConfig, clean_old_failures, admit, allow, allow_request, finish, on_failure, fail,
  call,
}
use iroh_raft.CircuitBreaker.Windows.{IsOrdered-append, Reached, keep_recent, drop_old_lem}
use iroh_raft.CircuitBreaker.Soundness.{Reached-IsSound}

-- A breaker that arises from a new one by steps in the order of time, with a positive threshold, has fewer recorded
-- failures than its threshold whenever it is closed.
pub closed_below_threshold :
    {T : Type 0} {config : CircuitBreakerConfig} (now : ℕ) (cb : CircuitBreaker)
    → 0 < config.failure_threshold
    → Reached T config now cb
    → cb.state ≡ closed
    → length cb.recent_failures < config.failure_threshold
closed_below_threshold now cb positive history is_closed =
    let sound = Reached-IsSound now cb positive history in sound.below is_closed

fail_closed :
    (s : CircuitBreakerState) (cb : CircuitBreaker)
    → s ≡ closed
    → cb.state ≡ s
    → (fail s cb).state
      ≡ (if leb cb.config.failure_threshold (length cb.recent_failures) then opened else closed)
fail_closed closed cb h at_state =
    elim (Bool-cases (leb cb.config.failure_threshold (length cb.recent_failures))) [
      | inl many ↦ rw many refl
      | inr few ↦ rw few at_state
    ]
fail_closed half_open cb h at_state = absurd cc
fail_closed opened cb h at_state = absurd cc

-- A closed breaker that arises from a new one by steps in the order of time, each method run without
-- interruption, with a positive threshold, opens on a failure if at least the threshold of failures, this one counted, were
-- recorded in the last 60 seconds, and stays closed if they were fewer.
pub finish_opens :
    {T : Type 0} {config : CircuitBreakerConfig} (t now : ℕ) (cb : CircuitBreaker) (e : String)
    → 0 < config.failure_threshold
    → Reached T config t cb
    → t ≤ now
    → cb.state ≡ closed
    → (finish {T = T} cb now (err e)).0.state ≡ (
        if leb config.failure_threshold
          (length (keep_recent (now - 60000) (cb.recent_failures ++ (now ∷ []))))
        then opened
        else closed)
unfolding finish on_failure clean_old_failures
finish_opens {config = config} t now cb e positive history later is_closed =
    let sound = Reached-IsSound t cb positive history in
    let recorded = IsOrdered-append 0 t now cb.recent_failures sound.ordered later in
    let kept = drop_old_lem (now - 60000) 0 now _ recorded in
    fail_closed cb.state _ is_closed refl ∙ rw (kept, sound.same_config) refl

allow_open :
    (s : CircuitBreakerState) (cb : CircuitBreaker) (now : ℕ)
    → s ≡ opened
    → allow s cb now ≡ allow opened cb now
allow_open s cb now h = ap (λ (s : CircuitBreakerState). allow s cb now) h

-- As long as no method is interrupted by another task between two of its locks: a breaker that arises from a new one by steps
-- in the order of time, with a positive threshold, and is open, has a time of its last failure; a call before the timeout after it has passed is
-- rejected with the error of an open breaker and changes only the count of rejections, and a call
-- later than that is admitted and finds the breaker half open with its half-open counters reset.
pub open_until_timeout :
    {T : Type 0} {config : CircuitBreakerConfig} (now : ℕ) (cb : CircuitBreaker)
    → 0 < config.failure_threshold
    → Reached T config now cb
    → cb.state ≡ opened
    → (t : ℕ) × (cb.last_failure_time ≡ some t)
      × (t ≤ now)
      × ((at later : ℕ) (answer : Outcome String T)
          → at ≤ t + config.timeout
          → call cb at later answer ≡ (
            record cb { metrics = record_rejection cb.metrics },
            err (RaftError.circuit_breaker_open "Circuit breaker is open"),
          ))
      × ((at : ℕ)
          → t + config.timeout < at
          → ((admit cb at).1 ≡ true)
            × ((admit cb at).0.state ≡ half_open)
            × ((admit cb at).0.half_open_requests ≡ 0)
            × ((admit cb at).0.half_open_successes ≡ 0))
unfolding call admit allow_request
open_until_timeout {config = config} now cb positive history is_open =
    let sound = Reached-IsSound now cb positive history in
    let (t, dated, past) = sound.dated is_open in
    let same = ap (λ (c : CircuitBreakerConfig). c.timeout) sound.same_config in
    (
      t,
      dated,
      past,
      (λ at later answer early.
          let waiting = le→not_ltb cb.config.timeout (at - t) (omega arith) in
          rw (is_open, dated, waiting) refl),
      (λ at late.
          let elapsed = lt→ltb cb.config.timeout (at - t) (omega arith) in
          rw (is_open, dated, elapsed) (refl, refl, refl, refl)),
    )
