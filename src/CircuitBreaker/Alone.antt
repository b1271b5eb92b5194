-- ===== src/CircuitBreaker/Alone.antt =====
-- A task of src/circuit_breaker.rs that no other one interrupts: its accesses are the method.
use iroh_raft.Common.{ℕ, zero, suc, ◌≡◌, refl, inl, inr, Bool-cases, length, leb}
use iroh_raft.CircuitBreaker.{
  CircuitBreakerState, closed, opened, half_open, CircuitBreaker, add_u32, note_failure,
  push_failure, clean_old_failures, on_success, on_failure, succeed, fail,
}
use iroh_raft.CircuitBreaker.Locks.{Task, succeeding, failing, ended, access, succeeded, failed}

-- Accesses of one task with no other task between them, all at one time.
unfoldable pub alone : ℕ → ℕ → CircuitBreaker → Task → CircuitBreaker × Task
unfolding access
alone zero now cb task = (cb, task)
alone (suc n) now cb task = let (cb', task') = access now cb task in alone n now cb' task'

alone-fail :
    (s : CircuitBreakerState) (now : ℕ) (cb : CircuitBreaker)
    → alone 3 now cb (failed s) ≡ (fail s cb, ended)
unfolding alone access
alone-fail closed now cb =
    elim (Bool-cases (leb cb.config.failure_threshold (length cb.recent_failures))) [
      | inl many ↦ rw many refl
      | inr few ↦ rw few refl
    ]
alone-fail half_open now cb = refl
alone-fail opened now cb = refl

-- A task that runs `on_failure` without interruption is at its end after eight accesses, and the breaker is as `on_failure`
-- leaves it.
pub alone-on_failure :
    (now : ℕ) (cb : CircuitBreaker) → alone 8 now cb failing ≡ (on_failure cb now, ended)
unfolding alone access on_failure
alone-on_failure now cb =
    let cleaned = clean_old_failures (push_failure now (note_failure now cb)) now in
    alone-fail cleaned.state now cleaned

alone-succeed :
    (s : CircuitBreakerState) (now : ℕ) (cb : CircuitBreaker)
    → alone 5 now cb (succeeded s) ≡ (succeed s cb now, ended)
unfolding alone access
alone-succeed closed now cb = refl
alone-succeed opened now cb = refl
alone-succeed half_open now cb =
    elim (Bool-cases (leb cb.config.success_threshold (add_u32 cb.half_open_successes))) [
      | inl enough ↦ rw enough refl
      | inr few ↦ rw few refl
    ]

-- A task that runs `on_success` without interruption is at its end after six accesses, and the breaker is as `on_success`
-- leaves it.
pub alone-on_success :
    (now : ℕ) (cb : CircuitBreaker) → alone 6 now cb succeeding ≡ (on_success cb now, ended)
unfolding alone access on_success
alone-on_success now cb = alone-succeed cb.state now cb
