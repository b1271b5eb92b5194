-- ===== src/Backpressure/Balance.antt =====
-- The balance of a channel is kept by every step.
use iroh_raft.Common.{
  ℕ, ◌+◌, ◌<◌, ◌≡◌, refl, sym, ap, ◌∙◌, true, List, [], ◌∷◌, ◌++◌, arith, length, length-append,
  append_assoc, Outcome, ok, err, Outcome-cases, inl, inr, ok_injective, zero_or_pos, List-cases,
}
use iroh_raft.Error.{RaftError}
use iroh_raft.Backpressure.{
  BackpressureConfig, PrioritizedMessage, Bounded, bounded_with_backpressure, release_permit,
  deliver, send_acquire, send_deliver, arrived, take_message, note_received,
}
use iroh_raft.Backpressure.Runtime.{Tokio}
use iroh_raft.Backpressure.Metrics.{record_sent}
use iroh_raft.Backpressure.Steps.{
  System, start, Step, acquires, delivers, fails, gives_up, takes, releases, Reached, started,
  later, IsBalanced,
}

module _ {T : Type 0} (tokio : Tokio (PrioritizedMessage T)) where
  abbrev Message : Type 0
  Message = PrioritizedMessage T

  start-IsBalanced :
      (config : BackpressureConfig)
      → 0 < config.max_pending
      → IsBalanced tokio config (start tokio config)
  unfolding bounded_with_backpressure
  start-IsBalanced config positive =
      let (nothing, size, open_end) = tokio.channel_new config.max_pending positive in
      record {
        total =
            omega (
              arith,
              tokio.permits-semaphore config.max_pending,
              ap (length {A = Message}) nothing,
            );
        size = size;
        open_end = open_end;
        in_order = sym nothing;
        pending = omega arith;
      }

  permits-try_acquire :
      (sem sem' : tokio.Semaphore)
      → tokio.try_acquire sem ≡ ok sem'
      → tokio.permits sem' + 1 ≡ tokio.permits sem
  permits-try_acquire sem sem' h = elim (zero_or_pos (tokio.permits sem)) [
    | inl nothing ↦ let (why, refused) = tokio.try_acquire_none sem nothing in absurd cc
    | inr some_left ↦
        let (s₁, given, less) = tokio.try_acquire_some sem some_left in
        let same : s₁ ≡ sem' = ok_injective (sym given ∙ h) in
        ap (λ (x : tokio.Semaphore). tokio.permits x + 1) (sym same) ∙ less
  ]

  acquired :
      (b b' : Bounded tokio)
      → send_acquire tokio b arrived ≡ ok b'
      → (sem : tokio.Semaphore) × (b' ≡ record b { semaphore = sem })
        × (tokio.permits sem + 1 ≡ tokio.permits b.semaphore)
  unfolding send_acquire
  acquired b b' h = elim (Outcome-cases (tokio.try_acquire b.semaphore)) [
    | inl (sem, given) ↦ (
      sem,
      sym (ok_injective (rw (given, send_acquire) at h)),
      permits-try_acquire b.semaphore sem given,
    )
    | inr (why, refused) ↦ let never = rw (refused, send_acquire) at h in absurd cc
  ]

  -- With room in the channel a delivery succeeds.
  pub delivered :
      (b : Bounded tokio) (m : Message)
      → tokio.has_receiver b.channel ≡ true
      → length (tokio.queued b.channel) < tokio.capacity b.channel
      → (c : tokio.Channel) × (deliver tokio b m
          ≡ (record b { channel = c; metrics = record_sent b.metrics }, ok tt))
        × (tokio.queued c ≡ tokio.queued b.channel ++ (m ∷ []))
        × (tokio.capacity c ≡ tokio.capacity b.channel)
        × (tokio.has_receiver c ≡ true)
  unfolding deliver
  delivered b m open_end room =
      let (c, given, longer, size, still) = tokio.try_send_room b.channel m open_end room in
      (c, rw (given, deliver) refl, longer, size, still)

  taken :
      (b b' : Bounded tokio) (now : ℕ) (m : Message)
      → take_message tokio b now ≡ ok (m, b')
      → (c : tokio.Channel) × (b' ≡ note_received tokio b c m now)
        × (tokio.queued b.channel ≡ m ∷ tokio.queued c)
        × (tokio.capacity c ≡ tokio.capacity b.channel)
        × (tokio.has_receiver c ≡ tokio.has_receiver b.channel)
  unfolding take_message
  taken b b' now m h = elim (List-cases (tokio.queued b.channel)) [
    | inl nothing ↦
        let (why, refused) = tokio.try_recv_none b.channel nothing in
        let never = rw (refused, take_message) at h in absurd cc
    | inr (first, rest, there) ↦
        let (c, given, fewer, size, still) = tokio.try_recv_some b.channel first rest there in
        let pair : (first, note_received tokio b c first now) ≡ (m, b') =
          ok_injective (rw (given, take_message) at h) in
        let same : first ≡ m = ap (λ (p : Message × Bounded tokio). p.0) pair in
        (
          c,
          sym (ap (λ (p : Message × Bounded tokio). p.1) pair)
              ∙ ap (λ (x : Message). note_received tokio b c x now) same,
          there ∙ ap (λ (x : Message). x ∷ rest) same ∙ ap (◌∷◌ m) (sym fewer),
          size,
          still,
        )
  ]

  pub room :
      {config : BackpressureConfig} (s : System tokio)
      → IsBalanced tokio config s
      → 0 < s.holding
      → length (tokio.queued s.bounded.channel) < tokio.capacity s.bounded.channel
  room s sound held = omega (arith, sound.total, sound.size)

  Step-IsBalanced :
      {config : BackpressureConfig} {s t : System tokio}
      → Step tokio s t
      → IsBalanced tokio config s
      → IsBalanced tokio config t
  unfolding release_permit send_deliver
  Step-IsBalanced {s = s} (acquires b h) sound =
      let (sem, same, less) = acquired s.bounded b h in
      rw same (record {
        total = omega (arith, sound.total, less);
        size = sound.size;
        open_end = sound.open_end;
        in_order = sound.in_order;
        pending = sound.pending;
      })
  Step-IsBalanced {s = s} (delivers m b held h) sound =
      let (c, given, longer, size, still) =
        delivered s.bounded m sound.open_end (room s sound held) in
      let same : b ≡ record s.bounded { channel = c; metrics = record_sent s.bounded.metrics } =
        ap (λ (p : Bounded tokio × Outcome RaftError (Unit {0})). p.0) (sym h ∙ given) in
      rw same (record {
        total = omega (
          arith,
          sound.total,
          ap (length {A = Message}) longer,
          length-append (tokio.queued s.bounded.channel) (m ∷ []),
        );
        size = size ∙ sound.size;
        open_end = still;
        in_order =
            ap (λ (l : List Message). l ++ (m ∷ [])) sound.in_order
            ∙ append_assoc s.received _ _
            ∙ ap (◌++◌ s.received) (sym longer);
        pending = sound.pending;
      })
  Step-IsBalanced {s = s} (fails m b why held h) sound =
      let (c, given, _, _, _) = delivered s.bounded m sound.open_end (room s sound held) in
      let clash : ◌≡◌ {A = Outcome RaftError (Unit {0})} (err why) (ok tt) =
        ap (λ (p : Bounded tokio × Outcome RaftError (Unit {0})). p.1) (sym h ∙ given) in
      absurd cc
  Step-IsBalanced {s = s} (gives_up m held) sound = record {
    total = omega (arith, sound.total, tokio.permits-add_permits s.bounded.semaphore 1);
    size = sound.size;
    open_end = sound.open_end;
    in_order = sound.in_order;
    pending = sound.pending;
  }
  Step-IsBalanced {s = s} (takes now m b h) sound =
      let (c, same, there, size, still) = taken s.bounded b now m h in
      rw same (record {
        total = omega (arith, sound.total, ap (length {A = Message}) there);
        size = size ∙ sound.size;
        open_end = still ∙ sound.open_end;
        in_order =
            sound.in_order
            ∙ ap (◌++◌ s.received) there
            ∙ sym (append_assoc s.received (m ∷ []) (tokio.queued c));
        pending = omega (arith, sound.pending);
      })
  Step-IsBalanced {s = s} (releases returning) sound = record {
    total = omega (arith, sound.total, tokio.permits-add_permits s.bounded.semaphore 1);
    size = sound.size;
    open_end = sound.open_end;
    in_order = sound.in_order;
    pending = sound.pending;
  }

  pub Reached-IsBalanced :
      {config : BackpressureConfig} {s : System tokio}
      → 0 < config.max_pending
      → Reached tokio config s
      → IsBalanced tokio config s
  Reached-IsBalanced {config} positive started = start-IsBalanced config positive
  Reached-IsBalanced positive (later h step) = Step-IsBalanced step (Reached-IsBalanced positive h)
