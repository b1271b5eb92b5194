-- ===== src/Timeouts/Retrying.antt =====
-- src/timeout_manager.rs: when `execute_with_retry` stops, and with what.
use iroh_raft.Common.{
  ℕ, zero, suc, arith, ◌+◌, ◌%◌, ◌≤◌, ◌<◌, ◌≡◌, refl, ap, subst, ◌∙◌, ◌⊎◌, inl, inr, ltb, ◌==◌,
  false, Bool-cases, List, [], ◌∷◌, length, All, some, Outcome, ok, err, ltb→lt, ==→eq, not_ltb→le,
}
use iroh_raft.Common.Bytes.{u32_mod}
use iroh_raft.Error.{RaftError}
use iroh_raft.Timeouts.Numbers.{Floats}
use iroh_raft.Timeouts.Config.{TimeoutConfig, OperationType}
use iroh_raft.Timeouts.{
  TimeoutManager, Ending, returned, failed, elapsed, Attempt, Finished, execute_with_timeout,
  next_delay, retry_loop, execute_with_retry,
}

le_cases : (k i : ℕ) → k ≤ i → (k ≡ i) ⊎ (k + 1 ≤ i)
le_cases k i h = elim (Bool-cases (k == i)) [
  | inl same ↦ inl (==→eq k i same)
  | inr other ↦ inr (ground (arith, h, other))
]

module _ (floats : Floats) {T : Type 0} where
  -- The attempt brings no result.
  abbrev pub Fruitless : Attempt floats T → Type 0
  Fruitless a = (r : T) → ¬ (a.ending ≡ returned r)

  -- What a call leaves whose last attempt is the one with the number `last`, where the delays slept from
  -- the attempt `first` on come on top of `before`.
  pub record Retried (config : TimeoutConfig floats.F64) (attempts : ℕ → Attempt floats T)
      (first before last : ℕ) (f : Finished floats T) : Type 0 where
    pub within : last ≤ config.max_retries
    pub slept_each : All (λ (d : ℕ). d ≤ config.max_timeout) f.slept
    pub slept_count : length f.slept + first ≡ before + last
    pub fruitless : (i : ℕ) → first ≤ i → i < last → Fruitless (attempts i)
    pub ends :
        ((r : T) × ((attempts last).ending ≡ returned r) × (f.result ≡ ok r))
        ⊎ ((last ≡ config.max_retries)
            × Fruitless (attempts last)
            × ((why : RaftError) × (f.result ≡ err why)))

  execute_with_timeout_cases :
      (m : TimeoutManager floats) (op : OperationType) (ending : Ending T) (duration now : ℕ)
      → ((r : T) × (ending ≡ returned r)
          × ((execute_with_timeout floats m op ending duration now).1 ≡ ok r))
        ⊎ (((r : T) → ¬ (ending ≡ returned r))
            × ((why : RaftError) × ((execute_with_timeout floats m op ending duration now).1
                  ≡ err why)))
  unfolding execute_with_timeout
  execute_with_timeout_cases m op (returned r) duration now = inl (r, refl, refl)
  execute_with_timeout_cases m op (failed text) duration now =
      inr ((λ (r : T) (h : _). absurd cc), (_, refl))
  execute_with_timeout_cases m op elapsed duration now =
      inr ((λ (r : T) (h : _). absurd cc), (_, refl))

  retry_loop-Retried :
      (fuel : ℕ) (config : TimeoutConfig floats.F64) (op : OperationType)
      (attempts : ℕ → Attempt floats T) (m : TimeoutManager floats) (k delay : ℕ) (slept : List ℕ)
      → config.max_retries + 1 < u32_mod
      → k ≤ config.max_retries
      → config.max_retries < k + fuel
      → All (λ (d : ℕ). d ≤ config.max_timeout) slept
      → (last : ℕ) × (f : Finished floats T) × (retry_loop floats fuel config op attempts m k delay
            slept
          ≡ some f)
        × Retried config attempts k (length slept) last f
  unfolding retry_loop
  retry_loop-Retried zero config op attempts m k delay slept small here enough each =
      absurd (omega arith)
  retry_loop-Retried (suc fuel) config op attempts m k delay slept small here enough each =
      let a = attempts k in
      let m' : TimeoutManager floats =
        (execute_with_timeout floats m op a.ending a.duration a.now).0 in
      let stop : Outcome RaftError T → Finished floats T =
        λ (o : _). record { manager = m'; slept = slept; result = o } in
      let next : (k + 1) % u32_mod ≡ k + 1 = omega arith in
      elim (execute_with_timeout_cases m op a.ending a.duration a.now) [
        | inl (r, given, answered) ↦ (
          k,
          stop (ok r),
          rw (answered, retry_loop) refl,
          record {
            within = here;
            slept_each = each;
            slept_count = refl;
            fruitless = λ (i : ℕ) (low : k ≤ i) (high : i < k). absurd (omega arith);
            ends = inl (r, given, refl);
          },
        )
        | inr (none_given, (why, answered)) ↦ elim (Bool-cases (ltb config.max_retries (k + 1))) [
          | inl over ↦ (
            k,
            stop (err why),
            rw (answered, retry_loop, next, over) refl,
            record {
              within = here;
              slept_each = each;
              slept_count = refl;
              fruitless = λ (i : ℕ) (low : k ≤ i) (high : i < k). absurd (omega arith);
              ends =
                  inr (
                    omega (arith, ltb→lt config.max_retries (k + 1) over),
                    none_given,
                    (why, refl),
                  );
            },
          )
          | inr more ↦
              let longer = next_delay floats config delay a.random in
              let (last, f, found, retried) =
                retry_loop-Retried fuel config op attempts m' (k + 1) longer (longer ∷ slept) small
                  (not_ltb→le config.max_retries (k + 1) more) (omega arith) (omega arith, each) in
              let wrapped_more : ltb config.max_retries ((k + 1) % u32_mod) ≡ false =
                ap (ltb config.max_retries) next ∙ more in
              let again : retry_loop floats (suc fuel) config op attempts m k delay slept
                  ≡ retry_loop floats fuel config op attempts m' ((k + 1) % u32_mod) longer
                      (longer ∷ slept) =
                rw (answered, retry_loop, wrapped_more) refl in
              let counted =
                ap
                  (λ (c : ℕ).
                    retry_loop floats fuel config op attempts m' c longer (longer ∷ slept))
                  next in
              (
                last,
                f,
                again ∙ counted ∙ found,
                record {
                  within = retried.within;
                  slept_each = retried.slept_each;
                  slept_count = omega (arith, retried.slept_count);
                  fruitless = λ (i : ℕ) (low : k ≤ i) (high : i < last). elim (le_cases k i low) [
                    | inl same ↦ subst (λ (j : ℕ). Fruitless (attempts j)) same none_given
                    | inr above ↦ retried.fruitless i above high
                  ];
                  ends = retried.ends;
                },
              )
        ]
      ]

  -- With fewer than 2 ^ 32 - 1 retries allowed and fuel for one attempt more than these, `execute_with_retry` ends: every attempt
  -- before the last brings no result, the delay before each further attempt is at most the maximum timeout, and
  -- either the last attempt's result is returned, or the last attempt is the last allowed, brings no result either, and an error is returned.
  pub execute_with_retry-Retried :
      (fuel : ℕ) (m : TimeoutManager floats) (op : OperationType) (attempts : ℕ → Attempt floats T)
      → (m.configs op).max_retries + 1 < u32_mod
      → (m.configs op).max_retries < fuel
      → (last : ℕ) × (f : Finished floats T) × (execute_with_retry floats fuel m op attempts
          ≡ some f)
        × Retried (m.configs op) attempts 0 0 last f
  unfolding execute_with_retry
  execute_with_retry-Retried fuel m op attempts small enough =
      let config = m.configs op in
      retry_loop-Retried fuel config op attempts m 0 config.base_timeout [] small (omega arith)
        (omega arith) tt
