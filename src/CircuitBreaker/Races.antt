-- ===== src/CircuitBreaker/Races.antt =====
-- What goes wrong where a failure and the success that closes the breaker overlap.
use Prim.Native.String.{String}
use iroh_raft.Common.{
  ℕ, ◌≤◌, ◌≡◌, refl, Bool, true, false, List, [], ◌∷◌, none, All, le→leb, Outcome, err,
}
use iroh_raft.Error.{RaftError}
use iroh_raft.CircuitBreaker.{
  CircuitBreaker, opened, half_open, add_u32, clean_old_failures, record_rejection, call, admit,
  allow_request,
}
use iroh_raft.CircuitBreaker.HalfOpen.{calls}
use iroh_raft.CircuitBreaker.Locks.{failing, succeeding, ended, access, interleave}

-- The failing task runs up to where it has read the state, then the other one runs to its end, then the failing one.
abbrev pub late_opening : List Bool
late_opening =
    true ∷ true ∷ true ∷ true ∷ true ∷ false ∷ false ∷ false ∷ false ∷ false ∷ false ∷ true ∷ true
    ∷ []

calls_undated :
    {T : Type 0} (cb : CircuitBreaker) (more : List (ℕ × ℕ × Outcome String T))
    → cb.state ≡ opened
    → cb.last_failure_time ≡ none
    → ((calls cb more).0.state ≡ opened)
      × All
          (λ (given : Outcome RaftError T).
            given ≡ err (RaftError.circuit_breaker_open "Circuit breaker is open"))
          (calls cb more).1
unfolding calls call admit allow_request
calls_undated cb [] is_open undated = (is_open, tt)
calls_undated cb ((now, later, answer) ∷ more) is_open undated =
    let (stays, rest) =
      calls_undated
        (record cb {
          state = opened;
          last_failure_time = none;
          metrics = record_rejection cb.metrics;
        })
        more refl refl in
    rw (is_open, undated) (stays, (refl, rest))

-- If a failed request and the successful one that reaches the success threshold end at the same time in a half-open
-- breaker, and the failed one has read the state before the other one closes the breaker and writes it after, the
-- breaker is left open with no time of its last failure, whatever the clock says; and then every call is
-- rejected, however long after, and the breaker stays open.
pub interleave-late_opening :
    {T : Type 0} (cb : CircuitBreaker) (clock : ℕ → ℕ) (more : List (ℕ × ℕ × Outcome String T))
    → cb.state ≡ half_open
    → cb.config.success_threshold ≤ add_u32 cb.half_open_successes
    → let (after, one, two) = interleave clock 0 late_opening cb failing succeeding in
      (one ≡ ended)
      × (two ≡ ended)
      × (after.state ≡ opened)
      × (after.last_failure_time ≡ none)
      × ((calls after more).0.state ≡ opened)
      × All
          (λ (given : Outcome RaftError T).
            given ≡ err (RaftError.circuit_breaker_open "Circuit breaker is open"))
          (calls after more).1
unfolding interleave access clean_old_failures
interleave-late_opening cb clock more is_half enough =
    let closes = le→leb cb.config.success_threshold (add_u32 cb.half_open_successes) enough in
    let (after, one, two) = interleave clock 0 late_opening cb failing succeeding in
    let is_open : after.state ≡ opened = rw is_half refl in
    let undated : after.last_failure_time ≡ none = rw (is_half, closes) refl in
    let (stays, rest) = calls_undated after more is_open undated in
    (rw is_half refl, rw (is_half, closes) refl, is_open, undated, stays, rest)
