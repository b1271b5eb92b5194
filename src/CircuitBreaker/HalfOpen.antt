-- ===== src/CircuitBreaker/HalfOpen.antt =====
-- The half-open state of a breaker: the requests that it lets through and rejects.
use Prim.Native.String.{String}
use iroh_raft.Common.{
  ℕ, suc, ◌+◌, ◌-◌, ◌<◌, ◌≡◌, refl, true, List, [], ◌∷◌, arith, inl, inr, Bool-cases, length, min,
  ltb, ltb→lt, not_ltb→le, if◌then◌else◌, Outcome, ok, leb, false, ◌∙◌, leb→le, le→leb, not_leb→lt,
  lt→not_leb,
}
use iroh_raft.Common.Bytes.{u32_mod}
use iroh_raft.Error.{RaftError}
use iroh_raft.CircuitBreaker.{
  record_request, record_rejection, add_u32, timeout_elapsed, closed, opened, half_open,
  CircuitBreaker, CircuitBreakerConfig, admit, allow_request, call, finish, on_success,
  clean_old_failures,
}

-- The requests let through, of requests at the given times with no answer in between.
unfoldable pub admissions : CircuitBreaker → List ℕ → ℕ
admissions cb [] = 0
admissions cb (now ∷ later) =
    let (asked, allowed) = admit cb now in
    let rest = admissions asked later in if allowed then suc rest else rest

admissions_half_open :
    (cb : CircuitBreaker) (times : List ℕ)
    → cb.config.half_open_max_requests < u32_mod
    → cb.state ≡ half_open
    → admissions cb times
      ≡ min (length times) (cb.config.half_open_max_requests - cb.half_open_requests)
unfolding admissions admit allow_request
admissions_half_open cb [] fits is_half = omega arith
admissions_half_open cb (now ∷ later) fits is_half =
    elim (Bool-cases (ltb cb.half_open_requests cb.config.half_open_max_requests)) [
      | inl room ↦
          let small = ltb→lt cb.half_open_requests cb.config.half_open_max_requests room in
          rw (is_half, room)
            (omega (
              arith,
              admissions_half_open
                  (record cb {
                    state = half_open;
                    metrics = record_request cb.metrics;
                    half_open_requests = add_u32 cb.half_open_requests;
                  })
                  later fits refl,
            ))
      | inr full ↦
          let small = not_ltb→le cb.half_open_requests cb.config.half_open_max_requests full in
          rw (is_half, full)
            (omega (
              arith,
              admissions_half_open
                  (record cb { state = half_open; metrics = record_rejection cb.metrics }) later
                  fits refl,
            ))
    ]

-- An open breaker whose timeout has passed lets the request through that makes it half open, and
-- after it as many requests as it is configured for, as long as none of them answers; here the
-- configured number fits 32 bits.
pub admissions_after_timeout :
    (cb : CircuitBreaker) (now : ℕ) (times : List ℕ)
    → cb.config.half_open_max_requests < u32_mod
    → cb.state ≡ opened
    → timeout_elapsed cb.last_failure_time cb.config.timeout now ≡ true
    → admissions cb (now ∷ times) ≡ 1 + min (length times) cb.config.half_open_max_requests
unfolding admissions admit allow_request
admissions_after_timeout cb now times fits is_open elapsed =
    rw (is_open, elapsed)
      (omega (
        arith,
        admissions_half_open
            (record cb {
              state = half_open;
              metrics = record_request cb.metrics;
              half_open_requests = 0;
              half_open_successes = 0;
            })
            times fits refl,
      ))

-- The state and the answers after calls made one after another.
unfoldable pub calls :
    {T : Type 0}
    → CircuitBreaker
    → List (ℕ × ℕ × Outcome String T)
    → CircuitBreaker × List (Outcome RaftError T)
calls cb [] = (cb, [])
calls cb ((now, later, answer) ∷ more) =
    let (after, given) = call cb now later answer in
    let (last, rest) = calls after more in (last, given ∷ rest)

-- Calls of operations that all succeed.
unfoldable pub succeeding_calls : {T : Type 0} → List (ℕ × ℕ × T) → List (ℕ × ℕ × Outcome String T)
succeeding_calls [] = []
succeeding_calls ((now, later, result) ∷ more) = (now, later, ok result) ∷ succeeding_calls more

module _ {T : Type 0} (cb : CircuitBreaker) (now later : ℕ) (result : T) where
  abbrev after_success : CircuitBreaker
  after_success = (call cb now later (ok result)).0

  call_closed : cb.state ≡ closed → after_success.state ≡ closed
  unfolding call admit allow_request finish on_success clean_old_failures
  call_closed is_closed = rw is_closed refl

  call_full :
      cb.state ≡ half_open
      → ltb cb.half_open_requests cb.config.half_open_max_requests ≡ false
      → (after_success.state ≡ half_open)
        × (after_success.config ≡ cb.config)
        × (after_success.half_open_requests ≡ cb.half_open_requests)
        × (after_success.half_open_successes ≡ cb.half_open_successes)
  unfolding call admit allow_request
  call_full is_half full = rw (after_success, is_half, full) (refl, refl, refl, refl)

  call_room :
      cb.state ≡ half_open
      → ltb cb.half_open_requests cb.config.half_open_max_requests ≡ true
      → (after_success.state ≡ (
          if leb cb.config.success_threshold (add_u32 cb.half_open_successes)
          then closed
          else half_open))
        × (after_success.config ≡ cb.config)
        × (after_success.half_open_requests ≡ add_u32 cb.half_open_requests)
        × (after_success.half_open_successes ≡ add_u32 cb.half_open_successes)
  unfolding call admit allow_request finish on_success
  call_room is_half room =
      elim (Bool-cases (leb cb.config.success_threshold (add_u32 cb.half_open_successes))) [
        | inl enough ↦ rw (after_success, is_half, room, enough) (refl, refl, refl, refl)
        | inr few ↦ rw (after_success, is_half, room, few) (refl, refl, refl, refl)
      ]

  call_open :
      cb.state ≡ opened
      → timeout_elapsed cb.last_failure_time cb.config.timeout now ≡ true
      → (after_success.state ≡ (if leb cb.config.success_threshold 1 then closed else half_open))
        × (after_success.config ≡ cb.config)
        × (after_success.half_open_requests ≡ 0)
        × (after_success.half_open_successes ≡ 1)
  unfolding call admit allow_request finish on_success
  call_open is_open elapsed = elim (Bool-cases (leb cb.config.success_threshold 1)) [
    | inl once ↦ rw (after_success, is_open, elapsed, once) (refl, refl, refl, refl)
    | inr wanting ↦ rw (after_success, is_open, elapsed, wanting) (refl, refl, refl, refl)
  ]

calls_closed :
    {T : Type 0} (more : List (ℕ × ℕ × T)) (cb : CircuitBreaker)
    → cb.state ≡ closed
    → (calls cb (succeeding_calls more)).0.state ≡ closed
unfolding calls succeeding_calls
calls_closed [] cb is_closed = is_closed
calls_closed ((now, later, result) ∷ more) cb is_closed =
    calls_closed more (after_success cb now later result)
      (call_closed cb now later result is_closed)

calls_half_open :
    {T : Type 0} (more : List (ℕ × ℕ × T)) (cb : CircuitBreaker) (c : CircuitBreakerConfig)
    (requests successes : ℕ)
    → c.half_open_max_requests < u32_mod
    → c.success_threshold < u32_mod
    → cb.state ≡ half_open
    → cb.config ≡ c
    → cb.half_open_requests ≡ requests
    → cb.half_open_successes ≡ successes
    → successes < c.success_threshold
    → (calls cb (succeeding_calls more)).0.state ≡ (
        if leb c.success_threshold
          (successes + min (length more) (c.half_open_max_requests - requests))
        then closed
        else half_open)
unfolding calls succeeding_calls
calls_half_open [] cb c requests successes fits narrow is_half same asked counted few =
    let none_more : leb c.success_threshold
          (successes + min 0 (c.half_open_max_requests - requests))
        ≡ false =
      lt→not_leb _ _ (omega arith) in
    rw none_more is_half
calls_half_open ((now, later, result) ∷ more) cb c requests successes fits narrow is_half same asked
      counted few =
    let after = after_success cb now later result in
    elim (Bool-cases (ltb requests c.half_open_max_requests)) [
      | inr full ↦
          let (state, config, requests', successes') =
            call_full cb now later result is_half (rw (same, asked) full) in
          let none_left = not_ltb→le requests c.half_open_max_requests full in
          let ih =
            calls_half_open more after c requests successes fits narrow state (config ∙ same)
              (requests' ∙ asked) (successes' ∙ counted) few in
          let as_before : min (suc (length more)) (c.half_open_max_requests - requests)
              ≡ min (length more) (c.half_open_max_requests - requests) =
            omega arith in
          ih ∙ rw as_before refl
      | inl room ↦
          let (state, config, requests', successes') =
            call_room cb now later result is_half (rw (same, asked) room) in
          let left = ltb→lt requests c.half_open_max_requests room in
          let one_asked : add_u32 requests ≡ suc requests = omega arith in
          let one_counted : add_u32 successes ≡ suc successes = omega arith in
          let total : suc successes + min (length more) (c.half_open_max_requests - suc requests)
              ≡ successes + min (suc (length more)) (c.half_open_max_requests - requests) =
            omega arith in
          elim (Bool-cases (leb c.success_threshold (suc successes))) [
            | inl enough ↦
                let reached : leb c.success_threshold
                      (successes + min (suc (length more)) (c.half_open_max_requests - requests))
                    ≡ true =
                  le→leb _ _ (omega (arith, leb→le _ _ enough)) in
                rw reached
                  (calls_closed more after (state ∙ rw (same, counted, one_counted, enough) refl))
            | inr fewer ↦
                let ih =
                  calls_half_open more after c (suc requests) (suc successes) fits narrow
                    (state ∙ rw (same, counted, one_counted, fewer) refl) (config ∙ same)
                    (requests' ∙ rw (asked, one_asked) refl)
                    (successes' ∙ rw (counted, one_counted) refl) (not_leb→lt _ _ fewer) in
                ih ∙ rw total refl
          ]
    ]

-- An open breaker whose timeout has passed is closed by calls made one after another that all succeed exactly when the success
-- threshold is at most their number and at most one more than the requests that a half-open breaker lets through; else
-- it is half open after them, however many they are. The two configured numbers fit 32 bits.
pub calls_recover :
    {T : Type 0} (cb : CircuitBreaker) (now later : ℕ) (result : T) (more : List (ℕ × ℕ × T))
    → cb.config.half_open_max_requests < u32_mod
    → cb.config.success_threshold < u32_mod
    → cb.state ≡ opened
    → timeout_elapsed cb.last_failure_time cb.config.timeout now ≡ true
    → (calls cb (succeeding_calls ((now, later, result) ∷ more))).0.state ≡ (
        if leb cb.config.success_threshold (1 + min (length more) cb.config.half_open_max_requests)
        then closed
        else half_open)
unfolding calls succeeding_calls
calls_recover cb now later result more fits narrow is_open elapsed =
    let (state, config, requests, successes) = call_open cb now later result is_open elapsed in
    let after = after_success cb now later result in
    let c = cb.config in
    elim (Bool-cases (leb c.success_threshold 1)) [
      | inl once ↦
          let reached : leb c.success_threshold (1 + min (length more) c.half_open_max_requests)
              ≡ true =
            le→leb _ _ (omega (arith, leb→le _ _ once)) in
          rw reached (calls_closed more after (state ∙ rw once refl))
      | inr wanting ↦
          let all_left : c.half_open_max_requests - 0 ≡ c.half_open_max_requests = omega arith in
          let ih =
            calls_half_open more after c 0 1 fits narrow (state ∙ rw wanting refl) config requests
              successes (not_leb→lt _ _ wanting) in
          ih ∙ rw all_left refl
    ]
