-- ===== src/CircuitBreaker/Soundness.antt =====
-- The invariant of breakers that arise from a new one, step by step.
use Prim.Native.String.{String}
use iroh_raft.Common.{
  ℕ, ◌-◌, ◌<◌, ◌≤◌, ◌≡◌, refl, ap, [], ◌∷◌, ◌++◌, some, arith, inl, inr, Bool-cases, length, ltb,
  leb, not_leb→lt, Outcome, ok, err,
}
use iroh_raft.CircuitBreaker.{
  add_u32, timeout_elapsed, CircuitBreakerMetrics, CircuitBreakerState, closed, opened, half_open,
  CircuitBreaker, CircuitBreakerConfig, new, clean_old_failures, admit, allow, allow_request,
  finish, on_success, succeed, on_failure, fail, force_open, force_close,
}
use iroh_raft.CircuitBreaker.Windows.{
  IsOrdered, IsOrdered-widen, IsOrdered-drop_old, length-drop_old, IsOrdered-append, IsSound,
  Reached, started, admitted, finished, forced_open, forced_close,
}

module _ {config : CircuitBreakerConfig} {t now : ℕ} (later : t ≤ now) where
  IsSound-later : (cb : CircuitBreaker) → IsSound config t cb → IsSound config now cb
  IsSound-later cb sound = record {
    same_config = sound.same_config;
    ordered = IsOrdered-widen 0 0 t now cb.recent_failures (omega arith) later sound.ordered;
    below = sound.below;
    dated = λ is_open. let (u, dated, past) = sound.dated is_open in (u, dated, omega arith);
  }

  IsSound-clean_old_failures :
      (cb : CircuitBreaker) → IsSound config t cb → IsSound config now (clean_old_failures cb now)
  unfolding clean_old_failures
  IsSound-clean_old_failures cb sound =
      let widened = IsSound-later cb sound in
      let shorter = length-drop_old (now - 60000) cb.recent_failures in
      record {
        same_config = sound.same_config;
        ordered = IsOrdered-drop_old (now - 60000) 0 now cb.recent_failures widened.ordered;
        below = λ is_closed. omega (arith, sound.below is_closed);
        dated = widened.dated;
      }

  IsSound-allow :
      (s : CircuitBreakerState) (cb : CircuitBreaker)
      → cb.state ≡ s
      → IsSound config t cb
      → IsSound config now (allow s cb now).0
  IsSound-allow closed cb at_state sound = IsSound-later cb sound
  IsSound-allow opened cb at_state sound =
      let later_sound = IsSound-later cb sound in
      elim (Bool-cases (timeout_elapsed cb.last_failure_time cb.config.timeout now)) [
        | inl elapsed ↦ rw elapsed (record {
          same_config = sound.same_config;
          ordered = later_sound.ordered;
          below = λ is_closed. absurd cc;
          dated = λ is_open. absurd cc;
        })
        | inr waiting ↦ rw waiting later_sound
      ]
  IsSound-allow half_open cb at_state sound =
      let later_sound = IsSound-later cb sound in
      elim (Bool-cases (ltb cb.half_open_requests cb.config.half_open_max_requests)) [
        | inl room ↦ rw room (record {
          same_config = sound.same_config;
          ordered = later_sound.ordered;
          below = later_sound.below;
          dated = later_sound.dated;
        })
        | inr full ↦ rw full later_sound
      ]

  IsSound-succeed :
      (s : CircuitBreakerState) (cb : CircuitBreaker)
      → cb.state ≡ s
      → 0 < config.failure_threshold
      → IsSound config t cb
      → IsSound config now (succeed s cb now)
  IsSound-succeed closed cb at_state positive sound = IsSound-clean_old_failures cb sound
  IsSound-succeed opened cb at_state positive sound = IsSound-clean_old_failures cb sound
  IsSound-succeed half_open cb at_state positive sound =
      let later_sound = IsSound-later cb sound in
      elim (Bool-cases (leb cb.config.success_threshold (add_u32 cb.half_open_successes))) [
        | inl enough ↦ rw enough (record {
          same_config = sound.same_config;
          ordered = omega arith;
          below = λ _. positive;
          dated = λ is_open. absurd cc;
        })
        | inr few ↦ rw few (record {
          same_config = sound.same_config;
          ordered = later_sound.ordered;
          below = later_sound.below;
          dated = later_sound.dated;
        })
      ]

module _ {config : CircuitBreakerConfig} {now : ℕ} where
  IsSound-metrics :
      (m : CircuitBreakerMetrics) (cb : CircuitBreaker)
      → IsSound config now cb
      → IsSound config now (record cb { metrics = m })
  IsSound-metrics m cb sound = record {
    same_config = sound.same_config;
    ordered = sound.ordered;
    below = sound.below;
    dated = sound.dated;
  }

  -- A failure has just been recorded, and the cleaning has been done.
  IsSound-fail :
      (s : CircuitBreakerState) (cb : CircuitBreaker)
      → cb.state ≡ s
      → cb.config ≡ config
      → cb.last_failure_time ≡ some now
      → IsOrdered 0 now cb.recent_failures
      → IsSound config now (fail s cb)
  IsSound-fail closed cb at_state same dated ordered =
      elim (Bool-cases (leb cb.config.failure_threshold (length cb.recent_failures))) [
        | inl many ↦ rw many (record {
          same_config = same;
          ordered = ordered;
          below = λ is_closed. absurd cc;
          dated = λ is_open. (now, dated, omega arith);
        })
        | inr few ↦ rw few (record {
          same_config = same;
          ordered = ordered;
          below = λ is_closed. omega (
            arith,
            not_leb→lt cb.config.failure_threshold (length cb.recent_failures) few,
            ap (λ (c : CircuitBreakerConfig). c.failure_threshold) same,
          );
          dated = λ is_open. absurd cc;
        })
      ]
  IsSound-fail half_open cb at_state same dated ordered = record {
    same_config = same;
    ordered = ordered;
    below = λ is_closed. absurd cc;
    dated = λ is_open. (now, dated, omega arith);
  }
  IsSound-fail opened cb at_state same dated ordered = record {
    same_config = same;
    ordered = ordered;
    below = λ is_closed. absurd cc;
    dated = λ is_open. (now, dated, omega arith);
  }

module _ {config : CircuitBreakerConfig} {t now : ℕ} (later : t ≤ now) where
  IsSound-admit : (cb : CircuitBreaker) → IsSound config t cb → IsSound config now (admit cb now).0
  unfolding admit allow_request
  IsSound-admit cb sound =
      let asked = IsSound-allow later cb.state cb refl sound in
      elim (Bool-cases (allow cb.state cb now).1) [
        | inl granted ↦ rw granted (IsSound-metrics _ _ asked)
        | inr denied ↦ rw denied (IsSound-metrics _ _ asked)
      ]

  IsSound-finish :
      {T : Type 0} (cb : CircuitBreaker) (answer : Outcome String T)
      → 0 < config.failure_threshold
      → IsSound config t cb
      → IsSound config now (finish cb now answer).0
  unfolding finish on_success on_failure clean_old_failures
  IsSound-finish cb (ok result) positive sound =
      IsSound-metrics _ _ (IsSound-succeed later cb.state cb refl positive sound)
  IsSound-finish cb (err e) positive sound =
      let recorded = IsOrdered-append 0 t now cb.recent_failures sound.ordered later in
      IsSound-metrics _ _ (
        IsSound-fail cb.state _ refl sound.same_config refl
          (IsOrdered-drop_old (now - 60000) 0 now (cb.recent_failures ++ (now ∷ [])) recorded))

pub Reached-IsSound :
    {T : Type 0} {config : CircuitBreakerConfig} (now : ℕ) (cb : CircuitBreaker)
    → 0 < config.failure_threshold
    → Reached T config now cb
    → IsSound config now cb
unfolding new force_open force_close
Reached-IsSound {config = config} now cb positive (started _) = record {
  same_config = refl;
  ordered = omega arith;
  below = λ _. positive;
  dated = λ is_open. absurd cc;
}
Reached-IsSound now cb positive (admitted t _ before h later) =
    IsSound-admit later before (Reached-IsSound t before positive h)
Reached-IsSound now cb positive (finished t _ before answer h later) =
    IsSound-finish later before answer positive (Reached-IsSound t before positive h)
Reached-IsSound now cb positive (forced_open t _ before h later) =
    let sound = IsSound-later later before (Reached-IsSound t before positive h) in
    record {
      same_config = sound.same_config;
      ordered = sound.ordered;
      below = λ is_closed. absurd cc;
      dated = λ is_open. (now, refl, omega arith);
    }
Reached-IsSound now cb positive (forced_close t _ before h later) =
    let sound = Reached-IsSound t before positive h in
    record {
      same_config = sound.same_config;
      ordered = omega arith;
      below = λ _. positive;
      dated = λ is_open. absurd cc;
    }
