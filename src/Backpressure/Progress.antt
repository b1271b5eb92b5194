-- ===== src/Backpressure/Progress.antt =====
-- A channel at rest never blocks both ends.
use iroh_raft.Common.{
  zero_or_pos, List-cases, ℕ, ◌<◌, ◌≡◌, ◌⊎◌, inl, inr, refl, ap, ◌∙◌, true, List, ◌∷◌, ◌++◌, arith,
  length, ok,
}
use iroh_raft.Backpressure.{
  BackpressureConfig, PrioritizedMessage, Priority, Bounded, try_send, try_recv, take_message,
  note_received, release_permit, new_message,
}
use iroh_raft.Backpressure.Runtime.{Tokio}
use iroh_raft.Backpressure.Steps.{System, Reached}
use iroh_raft.Backpressure.Balance.{delivered, Reached-IsBalanced}

module _ {T : Type 0} (tokio : Tokio (PrioritizedMessage T)) where
  -- A sender succeeds at once where a permit is free and the channel has room.
  try_send_room :
      (b : Bounded tokio) (payload : T) (priority : Priority) (now : ℕ)
      → 0 < tokio.permits b.semaphore
      → tokio.has_receiver b.channel ≡ true
      → length (tokio.queued b.channel) < tokio.capacity b.channel
      → (try_send tokio b payload priority now).1 ≡ ok tt
  unfolding try_send
  try_send_room b payload priority now free open_end room =
      let (sem, given, _) = tokio.try_acquire_some b.semaphore free in
      let (c, done, _, _, _) =
        delivered tokio (record b { semaphore = sem }) (new_message tokio payload priority now)
          open_end room in
      rw (given, try_send) (ap (λ (p : _). p.1) done)

  -- In any history of a channel of positive capacity, when no sender has a permit in hand and none is on its way
  -- back: either `try_send` succeeds, or the channel is full, `try_recv` gives the oldest message that has not
  -- been received, and `try_send` succeeds after it.
  pub send_or_receive :
      {config : BackpressureConfig} (s : System tokio) (payload : T) (priority : Priority) (now : ℕ)
      → 0 < config.max_pending
      → Reached tokio config s
      → s.holding ≡ 0
      → s.returning ≡ 0
      → ((try_send tokio s.bounded payload priority now).1 ≡ ok tt)
        ⊎ ((m : PrioritizedMessage T) × (rest : List (PrioritizedMessage T)) × (length
                (tokio.queued s.bounded.channel)
              ≡ config.max_pending)
            × (s.sent ≡ s.received ++ (m ∷ rest))
            × ((try_recv tokio s.bounded now).1 ≡ ok m)
            × ((try_send tokio (try_recv tokio s.bounded now).0 payload priority now).1 ≡ ok tt))
  unfolding try_recv take_message release_permit
  send_or_receive {config} s payload priority now positive history quiet settled =
      let sound = Reached-IsBalanced tokio positive history in
      elim (zero_or_pos (tokio.permits s.bounded.semaphore)) [
        | inr free ↦ inl (
            try_send_room s.bounded payload priority now free sound.open_end
              (omega (arith, sound.total, sound.size)))
        | inl none_free ↦ elim (List-cases (tokio.queued s.bounded.channel)) [
          | inl nothing ↦
              absurd (omega (arith, sound.total, ap (length {A = PrioritizedMessage T}) nothing))
          | inr (m, rest, there) ↦
              let (c, given, fewer, size, still) =
                tokio.try_recv_some s.bounded.channel m rest there in
              let after : Bounded tokio =
                release_permit tokio (note_received tokio s.bounded c m now) in
              let received : try_recv tokio s.bounded now ≡ (after, ok m) =
                rw (given, take_message, try_recv) refl in
              let freed = tokio.permits-add_permits s.bounded.semaphore 1 in
              inr (
                m,
                rest,
                omega (arith, sound.total),
                sound.in_order ∙ ap (◌++◌ s.received) there,
                ap (λ (p : _). p.1) received,
                ap (λ (p : _). (try_send tokio p.0 payload priority now).1) received
                    ∙ try_send_room after payload priority now (omega (arith, freed))
                        (still ∙ sound.open_end)
                        (omega (
                          arith,
                          sound.total,
                          sound.size,
                          size,
                          ap (length {A = PrioritizedMessage T}) there,
                          ap (length {A = PrioritizedMessage T}) fewer,
                        )),
              )
        ]
      ]
