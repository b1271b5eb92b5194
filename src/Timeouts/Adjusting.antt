-- ===== src/Timeouts/Adjusting.antt =====
-- src/timeout_manager.rs: between which bounds the adaptive timeouts stay, and where they do not.
use iroh_raft.Common.{
  ℕ, zero, suc, arith, ◌+◌, ◌-◌, ◌%◌, ◌≤◌, ◌<◌, ◌≡◌, refl, sym, ap, subst, ◌∙◌, inl, inr, ltb, ◌==◌,
  true, false, if◌then◌else◌, Bool-cases, le→not_ltb, lt→ltb, ==→eq, eq→==, pos→not_eq,
}
use iroh_raft.Common.Bytes.{u64_mod}
use iroh_raft.Timeouts.Numbers.{Floats}
use iroh_raft.Timeouts.Config.{
  millis, as_millis, TimeoutConfig, OperationType, op_eq, op_number, op_config, TimeoutStats,
  note_success, note_timeout, note_adjustment, get_avg_duration, get_timeout_rate, raft_message,
  connection, proposal, storage, config_change, health_check, network,
}
use iroh_raft.Timeouts.{
  TimeoutManager, put_stats, Ending, returned, failed, elapsed, new, get_current_timeout,
  new_timeout, adjust_timeout_if_needed, adapt, execute_with_timeout,
}

-- A timeout that is not 0 ms once it is stored is read back, cut to whole milliseconds.
whole_millis : (low t : ℕ) → low % 1000000 ≡ 0 → low ≤ t → low ≤ millis (as_millis t)
whole_millis low t whole h = omega arith

op_of : ℕ → OperationType
op_of zero = raft_message
op_of (suc zero) = connection
op_of (suc (suc zero)) = proposal
op_of (suc (suc (suc zero))) = storage
op_of (suc (suc (suc (suc zero)))) = config_change
op_of (suc (suc (suc (suc (suc zero))))) = health_check
op_of _ = network

op_of-op_number : (op : OperationType) → op_of (op_number op) ≡ op
unfolding op_of
op_of-op_number raft_message = refl
op_of-op_number connection = refl
op_of-op_number proposal = refl
op_of-op_number storage = refl
op_of-op_number config_change = refl
op_of-op_number health_check = refl
op_of-op_number network = refl

op_eq-eq : (a b : OperationType) → op_eq a b ≡ true → a ≡ b
op_eq-eq a b h =
    sym (op_of-op_number a) ∙ ap op_of (==→eq (op_number a) (op_number b) h) ∙ op_of-op_number b

module _ (floats : Floats) where
  -- The minimum is whole milliseconds and below the base and the maximum.
  pub record IsSound (c : TimeoutConfig floats.F64) : Type 0 where
    pub below_base : c.min_timeout ≤ c.base_timeout
    pub below_max : c.min_timeout ≤ c.max_timeout
    pub whole : c.min_timeout % 1000000 ≡ 0

  op_config-IsSound : (op : OperationType) → IsSound (op_config floats op)
  op_config-IsSound raft_message = record {
    below_base = omega arith;
    below_max = omega arith;
    whole = refl;
  }
  op_config-IsSound connection = record {
    below_base = omega arith;
    below_max = omega arith;
    whole = refl;
  }
  op_config-IsSound proposal = record {
    below_base = omega arith;
    below_max = omega arith;
    whole = refl;
  }
  op_config-IsSound storage = record {
    below_base = omega arith;
    below_max = omega arith;
    whole = refl;
  }
  op_config-IsSound config_change = record {
    below_base = omega arith;
    below_max = omega arith;
    whole = refl;
  }
  op_config-IsSound health_check = record {
    below_base = omega arith;
    below_max = omega arith;
    whole = refl;
  }
  op_config-IsSound network = record {
    below_base = omega arith;
    below_max = omega arith;
    whole = refl;
  }

  new_timeout_above :
      (c : TimeoutConfig floats.F64) (s : TimeoutStats) (current : ℕ)
      → IsSound c
      → c.min_timeout ≤ current
      → c.min_timeout ≤ new_timeout floats c s current
  unfolding new_timeout
  new_timeout_above c s current sound above =
      ground (arith, sound.below_max, above, floats.mul_f64_grows current)

  -- The timeout that the statistics stand for.
  abbrev read_timeout : TimeoutConfig floats.F64 → TimeoutStats → ℕ
  read_timeout c s =
      if s.current_timeout_ms == 0 then c.base_timeout else millis s.current_timeout_ms

  stored_above :
      (c : TimeoutConfig floats.F64) (s : TimeoutStats) (t : ℕ)
      → IsSound c
      → c.min_timeout ≤ t
      → as_millis t < u64_mod
      → c.min_timeout ≤ read_timeout c (note_adjustment s t)
  stored_above c s t sound above fits =
      let stored : as_millis t % u64_mod ≡ as_millis t = omega arith in
      let kept = whole_millis c.min_timeout t sound.whole above in
      elim (Bool-cases (as_millis t % u64_mod == 0)) [
        | inl none_left ↦ rw none_left sound.below_base
        | inr some_left ↦ rw (some_left, stored) kept
      ]

  -- Every operation type has at least its minimum timeout.
  abbrev AllAbove : TimeoutManager floats → Type 0
  AllAbove m = (op : OperationType) → (m.configs op).min_timeout ≤ get_current_timeout floats m op

  -- The timeout that an adjustment would set fits 64 bits as milliseconds.
  abbrev pub Fits : TimeoutManager floats → OperationType → Type 0
  Fits m op =
      as_millis (new_timeout floats (m.configs op) (m.stats op) (get_current_timeout floats m op))
      < u64_mod

  adjust_above :
      (m : TimeoutManager floats) (op : OperationType) (now : ℕ)
      → IsSound (m.configs op)
      → Fits m op
      → AllAbove m
      → AllAbove (adjust_timeout_if_needed floats m op now)
  unfolding adjust_timeout_if_needed get_current_timeout
  adjust_above m op now sound fits above q =
      let adjusted =
        new_timeout floats (m.configs op) (m.stats op) (get_current_timeout floats m op) in
      elim (Bool-cases (ltb (now - m.last_adjustment op) (millis 30000))) [
        | inl soon ↦ rw (soon, adjust_timeout_if_needed) (above q)
        | inr late ↦
            elim (Bool-cases (
              new_timeout floats (m.configs op) (m.stats op) (get_current_timeout floats m op)
              == get_current_timeout floats m op)) [
                | inl same ↦ rw (late, same, adjust_timeout_if_needed) (above q)
                | inr other ↦ elim (Bool-cases (op_eq op q)) [
                  | inl this ↦
                      rw (late, other, this, adjust_timeout_if_needed)
                        (subst
                          (λ (o : OperationType).
                            (m.configs o).min_timeout
                            ≤ read_timeout (m.configs o) (note_adjustment (m.stats op) adjusted))
                          (op_eq-eq op q this)
                          (stored_above (m.configs op) (m.stats op) adjusted sound
                            (new_timeout_above (m.configs op) (m.stats op)
                              (get_current_timeout floats m op) sound (above op))
                            fits))
                  | inr elsewhere ↦ rw (late, other, elsewhere, adjust_timeout_if_needed) (above q)
                ]
              ]
      ]

  put_stats_above :
      (m : TimeoutManager floats) (op : OperationType) (s : TimeoutStats)
      → s.current_timeout_ms ≡ (m.stats op).current_timeout_ms
      → AllAbove m
      → AllAbove (put_stats floats m op s)
  unfolding get_current_timeout
  put_stats_above m op s kept above q = elim (Bool-cases (op_eq op q)) [
    | inl this ↦ rw this (
        subst (λ (o : OperationType). (m.configs o).min_timeout ≤ read_timeout (m.configs o) s)
          (op_eq-eq op q this)
          (subst
            (λ (ms : ℕ).
              (m.configs op).min_timeout
              ≤ (if ms == 0 then (m.configs op).base_timeout else millis ms))
            (sym kept) (above op)))
    | inr elsewhere ↦ rw elsewhere (above q)
  ]

  -- The statistics when an operation has ended.
  abbrev pub noted : {T : Type 0} → TimeoutStats → Ending T → ℕ → TimeoutStats
  noted s (returned result) duration = note_success s duration
  noted s (failed text) duration = note_success s duration
  noted s elapsed duration = note_timeout s

  -- The managers that arise from a new one by operations under a timeout, where no timeout reaches 2 ^ 64 milliseconds.
  pub data Executed : TimeoutManager floats → Type 1 where
    fresh : (now : ℕ) → Executed (new floats now)
    ran :
        {T : Type 0} {m : TimeoutManager floats} (op : OperationType) (ending : Ending T)
        (duration now : ℕ)
        → Fits (put_stats floats m op (noted (m.stats op) ending duration)) op
        → Executed m
        → Executed (execute_with_timeout floats m op ending duration now).0

  adapt_above :
      (m : TimeoutManager floats) (op : OperationType) (now : ℕ)
      → IsSound (m.configs op)
      → Fits m op
      → AllAbove m
      → AllAbove (adapt floats m op now)
  unfolding adapt
  adapt_above m op now sound fits above q = elim (Bool-cases (m.configs op).enable_adaptive) [
    | inl adaptive ↦ rw (adaptive, adapt) (adjust_above m op now sound fits above q)
    | inr fixed ↦ rw (fixed, adapt) (above q)
  ]

  configs-adjust :
      (m : TimeoutManager floats) (op : OperationType) (now : ℕ)
      → (adjust_timeout_if_needed floats m op now).configs ≡ m.configs
  unfolding adjust_timeout_if_needed
  configs-adjust m op now = elim (Bool-cases (ltb (now - m.last_adjustment op) (millis 30000))) [
    | inl soon ↦ rw (soon, adjust_timeout_if_needed) refl
    | inr late ↦
        elim (Bool-cases (
          new_timeout floats (m.configs op) (m.stats op) (get_current_timeout floats m op)
          == get_current_timeout floats m op)) [
            | inl same ↦ rw (late, same, adjust_timeout_if_needed) refl
            | inr other ↦ rw (late, other, adjust_timeout_if_needed) refl
          ]
  ]

  configs-adapt :
      (m : TimeoutManager floats) (op : OperationType) (now : ℕ)
      → (adapt floats m op now).configs ≡ m.configs
  unfolding adapt
  configs-adapt m op now = elim (Bool-cases (m.configs op).enable_adaptive) [
    | inl adaptive ↦ rw (adaptive, adapt) (configs-adjust m op now)
    | inr fixed ↦ rw (fixed, adapt) refl
  ]

  execute_above :
      {T : Type 0} (m : TimeoutManager floats) (op : OperationType) (ending : Ending T)
      (duration now : ℕ)
      → IsSound (m.configs op)
      → Fits (put_stats floats m op (noted (m.stats op) ending duration)) op
      → AllAbove m
      → AllAbove (execute_with_timeout floats m op ending duration now).0
        × ((execute_with_timeout floats m op ending duration now).0.configs ≡ m.configs)
  unfolding execute_with_timeout
  execute_above m op (returned result) duration now sound fits above =
      let m' = put_stats floats m op (note_success (m.stats op) duration) in
      (
        adapt_above m' op now sound fits
            (put_stats_above m op (note_success (m.stats op) duration) refl above),
        configs-adapt m' op now,
      )
  execute_above m op (failed text) duration now sound fits above =
      (put_stats_above m op (note_success (m.stats op) duration) refl above, refl)
  execute_above m op elapsed duration now sound fits above =
      let m' = put_stats floats m op (note_timeout (m.stats op)) in
      (
        adapt_above m' op now sound fits
            (put_stats_above m op (note_timeout (m.stats op)) refl above),
        configs-adapt m' op now,
      )

  Executed_above :
      (m : TimeoutManager floats) → Executed m → (AllAbove m × (m.configs ≡ op_config floats))
  unfolding new get_current_timeout
  Executed_above m (fresh now) = ((λ (op : OperationType). (op_config-IsSound op).below_base), refl)
  Executed_above m (ran {m = m'} op ending duration now fits history) =
      let (above, same) = Executed_above m' history in
      let sound =
        subst (λ (configs : OperationType → TimeoutConfig floats.F64). IsSound (configs op))
          (sym same) (op_config-IsSound op) in
      let (above', kept) = execute_above m' op ending duration now sound fits above in
      (above', kept ∙ same)

  -- After any operations under a timeout on a new manager, where no timeout reaches 2 ^ 64 milliseconds, the current timeout of every operation
  -- type is at least the minimum of its settings.
  pub timeout_at_least :
      (m : TimeoutManager floats) (op : OperationType)
      → Executed m
      → (op_config floats op).min_timeout ≤ get_current_timeout floats m op
  timeout_at_least m op history =
      let (above, same) = Executed_above m history in
      subst
        (λ (configs : OperationType → TimeoutConfig floats.F64).
          (configs op).min_timeout ≤ get_current_timeout floats m op)
        same (above op)

  -- Where an adjustment is due and the rate of timeouts is low: if three times the average duration is at least a
  -- millisecond above the maximum timeout, and the timeout to be set fits 64 bits as milliseconds, the current timeout is above the maximum afterwards.
  pub low_rate_exceeds_max :
      (m : TimeoutManager floats) (op : OperationType) (now : ℕ)
      → millis 30000 ≤ now - m.last_adjustment op
      → floats.less floats.tenth (get_timeout_rate floats (m.stats op)) ≡ false
      → floats.less (get_timeout_rate floats (m.stats op)) floats.fiftieth ≡ true
      → 0 < as_millis (get_avg_duration (m.stats op))
      → (m.configs op).max_timeout + millis 1
        ≤ floats.mul_f64 (get_avg_duration (m.stats op)) floats.three
      → Fits m op
      → (m.configs op).max_timeout
        < get_current_timeout floats (adjust_timeout_if_needed floats m op now) op
  unfolding adjust_timeout_if_needed get_current_timeout new_timeout
  low_rate_exceeds_max m op now due not_high low some_average exceeds fits =
      let average = get_avg_duration (m.stats op) in
      let current = get_current_timeout floats m op in
      let adjusted = new_timeout floats (m.configs op) (m.stats op) current in
      let above : (m.configs op).max_timeout + millis 1 ≤ adjusted =
        rw (not_high, low, lt→ltb 0 (as_millis average) some_average, new_timeout)
          (omega (arith, exceeds)) in
      let stored : as_millis adjusted % u64_mod ≡ as_millis adjusted = omega (arith, fits) in
      let some_left : (as_millis adjusted % u64_mod == 0) ≡ false =
        pos→not_eq (as_millis adjusted % u64_mod) (omega (arith, stored, above)) in
      elim (Bool-cases (adjusted == current)) [
        | inl same ↦
            rw
              (
                le→not_ltb (now - m.last_adjustment op) (millis 30000) due,
                same,
                adjust_timeout_if_needed,
              )
              (omega (arith, above, ==→eq adjusted current same))
        | inr other ↦
            rw
              (
                le→not_ltb (now - m.last_adjustment op) (millis 30000) due,
                other,
                eq→== (op_number op) (op_number op) refl,
                adjust_timeout_if_needed,
              )
              (rw (some_left, stored) (omega (arith, above)))
      ]
