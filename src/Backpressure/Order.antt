-- ===== src/Backpressure/Order.antt =====
-- What senders and the receiver may rely on, whatever the others do.
use iroh_raft.Common.{◌+◌, ◌%◌, ◌≤◌, ◌<◌, ◌≡◌, ap, ◌++◌, arith, length, ok}
use iroh_raft.Common.Bytes.{u64_mod}
use iroh_raft.Backpressure.{BackpressureConfig, PrioritizedMessage, deliver}
use iroh_raft.Backpressure.Runtime.{Tokio}
use iroh_raft.Backpressure.Steps.{System, Reached}
use iroh_raft.Backpressure.Balance.{delivered, room, Reached-IsBalanced}

module _ {T : Type 0} (tokio : Tokio (PrioritizedMessage T)) where
  -- Under every interleaving, a sender with a permit in hand finds room in the channel: its
  -- message is taken, and the error of a full channel does not arise; the capacity is positive.
  pub deliver_never_full :
      {config : BackpressureConfig} (s : System tokio) (m : PrioritizedMessage T)
      → 0 < config.max_pending
      → Reached tokio config s
      → 0 < s.holding
      → (deliver tokio s.bounded m).1 ≡ ok tt
  deliver_never_full s m positive history held =
      let sound = Reached-IsBalanced tokio positive history in
      let (c, given, _, _, _) =
        delivered tokio s.bounded m sound.open_end (room tokio s sound held) in
      ap (λ (p : _). p.1) given

  -- Under every interleaving, what has been received, followed by what the channel holds, is what has been sent, in the same order,
  -- and the channel, with the permits in hand and on their way back, never exceeds its positive capacity.
  pub sent_in_order :
      {config : BackpressureConfig} (s : System tokio)
      → 0 < config.max_pending
      → Reached tokio config s
      → (s.sent ≡ s.received ++ tokio.queued s.bounded.channel)
        × (length (tokio.queued s.bounded.channel) + s.holding + s.returning ≤ config.max_pending)
  sent_in_order s positive history =
      let sound = Reached-IsBalanced tokio positive history in
      (sound.in_order, omega (arith, sound.total))

  -- Under every interleaving of a channel of positive capacity, the count of pending messages is the
  -- negative, modulo 2 ^ 64, of the count of received ones.
  pub pending_underflows :
      {config : BackpressureConfig} (s : System tokio)
      → 0 < config.max_pending
      → Reached tokio config s
      → (s.bounded.metrics.current_pending + s.bounded.metrics.total_received) % u64_mod ≡ 0
  pending_underflows s positive history = (Reached-IsBalanced tokio positive history).pending
