-- ===== src/CircuitBreaker/Metrics.antt =====
-- The counters of `call`.
use Prim.Native.String.{String}
use iroh_raft.Common.{
  ℕ, suc, ◌+◌, ◌%◌, ◌≡◌, refl, true, false, [], ◌∷◌, ◌++◌, some, arith, inl, inr, Bool-cases,
  length, ltb, leb, if◌then◌else◌, Outcome, ok, err,
}
use iroh_raft.Common.Bytes.{u64_mod}
use iroh_raft.CircuitBreaker.{
  CircuitBreakerMetrics, CircuitBreakerState, closed, opened, half_open, CircuitBreaker,
  CircuitBreakerConfig, new, admit, allow, allow_request, finish, on_success, succeed, on_failure,
  fail, clean_old_failures, record_request, record_rejection, timeout_elapsed, add_u32,
}

-- The four counters that `call` keeps, which the transitions leave alone.
abbrev SameCounts : CircuitBreakerMetrics → CircuitBreakerMetrics → Type 0
SameCounts m m' =
    (m'.total_requests ≡ m.total_requests)
    × (m'.total_successes ≡ m.total_successes)
    × (m'.total_failures ≡ m.total_failures)
    × (m'.rejected_requests ≡ m.rejected_requests)

allow_counts :
    (s : CircuitBreakerState) (cb : CircuitBreaker) (now : ℕ)
    → SameCounts cb.metrics (allow s cb now).0.metrics
allow_counts closed cb now = (refl, refl, refl, refl)
allow_counts opened cb now =
    elim (Bool-cases (timeout_elapsed cb.last_failure_time cb.config.timeout now)) [
      | inl elapsed ↦ rw elapsed (refl, refl, refl, refl)
      | inr waiting ↦ rw waiting (refl, refl, refl, refl)
    ]
allow_counts half_open cb now =
    elim (Bool-cases (ltb cb.half_open_requests cb.config.half_open_max_requests)) [
      | inl room ↦ rw room (refl, refl, refl, refl)
      | inr full ↦ rw full (refl, refl, refl, refl)
    ]

succeed_counts :
    (s : CircuitBreakerState) (cb : CircuitBreaker) (now : ℕ)
    → SameCounts cb.metrics (succeed s cb now).metrics
unfolding clean_old_failures
succeed_counts closed cb now = (refl, refl, refl, refl)
succeed_counts opened cb now = (refl, refl, refl, refl)
succeed_counts half_open cb now =
    elim (Bool-cases (leb cb.config.success_threshold (add_u32 cb.half_open_successes))) [
      | inl enough ↦ rw enough (refl, refl, refl, refl)
      | inr few ↦ rw few (refl, refl, refl, refl)
    ]

fail_counts :
    (s : CircuitBreakerState) (cb : CircuitBreaker) → SameCounts cb.metrics (fail s cb).metrics
fail_counts closed cb =
    elim (Bool-cases (leb cb.config.failure_threshold (length cb.recent_failures))) [
      | inl many ↦ rw many (refl, refl, refl, refl)
      | inr few ↦ rw few (refl, refl, refl, refl)
    ]
fail_counts half_open cb = (refl, refl, refl, refl)
fail_counts opened cb = (refl, refl, refl, refl)

admit-allow :
    (cb : CircuitBreaker) (now : ℕ)
    → admit cb now ≡ (
      record (allow cb.state cb now).0 {
        metrics =
            if (allow cb.state cb now).1
            then record_request (allow cb.state cb now).0.metrics
            else record_rejection (allow cb.state cb now).0.metrics;
      },
      (allow cb.state cb now).1,
    )
unfolding admit allow_request
admit-allow cb now = elim (Bool-cases (allow cb.state cb now).1) [
  | inl granted ↦ rw granted refl
  | inr denied ↦ rw denied refl
]

-- The calls that a new breaker has seen: `asked` in all, of which `running` are let through and
-- have not answered. Calls may overlap.
pub data Traffic (T : Type 0) (config : CircuitBreakerConfig)
    : ℕ → ℕ → CircuitBreaker → Type 0 where
  quiet : Traffic T config 0 0 (new config)
  let_through :
      (asked running now : ℕ) (cb : CircuitBreaker)
      → Traffic T config asked running cb
      → (admit cb now).1 ≡ true
      → Traffic T config (suc asked) (suc running) (admit cb now).0
  turned_away :
      (asked running now : ℕ) (cb : CircuitBreaker)
      → Traffic T config asked running cb
      → (admit cb now).1 ≡ false
      → Traffic T config (suc asked) running (admit cb now).0
  answered :
      (asked running now : ℕ) (cb : CircuitBreaker) (answer : Outcome String T)
      → Traffic T config asked (suc running) cb
      → Traffic T config asked running (finish cb now answer).0

-- Over calls of a new breaker that may overlap, the requests let through are the successes, the failures and
-- the calls still running, and with the rejected ones they are all the calls, counted by 64-bit
-- counters that wrap.
pub counters_account :
    {T : Type 0} {config : CircuitBreakerConfig} (asked running : ℕ) (cb : CircuitBreaker)
    → Traffic T config asked running cb
    → (cb.metrics.total_requests
        ≡ (cb.metrics.total_successes + cb.metrics.total_failures + running) % u64_mod)
      × ((cb.metrics.total_requests + cb.metrics.rejected_requests) % u64_mod ≡ asked % u64_mod)
unfolding new admit allow_request finish on_success on_failure clean_old_failures
counters_account asked running cb quiet = (omega arith, omega arith)
counters_account _ _ _ (let_through asked running now cb history granted) =
    let before = counters_account asked running cb history in
    let same = allow_counts cb.state cb now in
    let allowed : (allow cb.state cb now).1 ≡ true = rw admit-allow at granted in
    rw (admit-allow cb now, allowed)
      (omega (arith, before.0, same.0, same.1, same.2), omega (arith, before.1, same.0, same.3))
counters_account _ _ _ (turned_away asked running now cb history denied) =
    let before = counters_account asked running cb history in
    let same = allow_counts cb.state cb now in
    let refused : (allow cb.state cb now).1 ≡ false = rw admit-allow at denied in
    rw (admit-allow cb now, refused)
      (omega (arith, before.0, same.0, same.1, same.2), omega (arith, before.1, same.0, same.3))
counters_account _ _ _ (answered asked running now cb (ok result) history) =
    let before = counters_account asked (suc running) cb history in
    let same = succeed_counts cb.state cb now in
    (omega (arith, before.0, same.0, same.1, same.2), omega (arith, before.1, same.0, same.3))
counters_account _ _ _ (answered asked running now cb (err e) history) =
    let before = counters_account asked (suc running) cb history in
    let same = fail_counts cb.state (
      clean_old_failures
        (record cb {
          last_failure_time = some now;
          recent_failures = cb.recent_failures ++ (now ∷ []);
        })
        now) in
    (omega (arith, before.0, same.0, same.1, same.2), omega (arith, before.1, same.0, same.3))
