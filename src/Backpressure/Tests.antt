-- ===== src/Backpressure/Tests.antt =====
-- The channel on a concrete history: a channel of two places, with numbers as messages.
use iroh_raft.Common.{
  ℕ, arith, ◌+◌, ◌-◌, ◌≤◌, ◌<◌, ◌≡◌, ◌⊎◌, refl, true, List, [], ◌∷◌, ◌++◌, length, some, ok,
}
use iroh_raft.Common.Bytes.{u64_mod}
use iroh_raft.Backpressure.{
  BackpressureConfig, PrioritizedMessage, Priority, low, normal, high, critical, Bounded,
  bounded_with_backpressure, new_message, deliver, send_acquire, try_send, take_message, try_recv,
}
use iroh_raft.Backpressure.Runtime.{Tokio}
use iroh_raft.Backpressure.Reference.{on_lists, push, pop}
use iroh_raft.Backpressure.Steps.{System, start, acquires, delivers, takes, Reached, started, later}
use iroh_raft.Backpressure.Order.{deliver_never_full, sent_in_order}
use iroh_raft.Backpressure.Progress.{send_or_receive}
use iroh_raft.Backpressure.Priorities.{
  PriorityBackpressureManager, rank, queue, set_queue, recv_prioritized, recv_prioritized-highest,
}

abbrev lists : Tokio (PrioritizedMessage ℕ)
lists = on_lists

abbrev two : BackpressureConfig
two = record { max_pending = 2; send_timeout = 1000 }

abbrev first_one : PrioritizedMessage ℕ
first_one = new_message lists 11 high 3

abbrev second_one : PrioritizedMessage ℕ
second_one = new_message lists 12 low 4

abbrev held : System lists
held =
    let s : System lists = start lists two in
    record s { bounded = record s.bounded { semaphore = 1 }; holding = 1 }

held-Reached : Reached lists two held
unfolding push pop bounded_with_backpressure send_acquire
held-Reached = later started (acquires held.bounded refl)

abbrev one_in : System lists
one_in = record held {
  bounded = (deliver lists held.bounded first_one).0;
  holding = 0;
  sent = first_one ∷ [];
}

one_in-Reached : Reached lists two one_in
unfolding push pop bounded_with_backpressure deliver
one_in-Reached = later held-Reached (delivers first_one one_in.bounded (omega arith) refl)

abbrev one_in_held : System lists
one_in_held = record one_in { bounded = record one_in.bounded { semaphore = 0 }; holding = 1 }

abbrev two_in : System lists
two_in = record one_in_held {
  bounded = (deliver lists one_in_held.bounded second_one).0;
  holding = 0;
  sent = first_one ∷ second_one ∷ [];
}

two_in-Reached : Reached lists two two_in
unfolding push pop bounded_with_backpressure deliver send_acquire
two_in-Reached =
    later (later one_in-Reached (acquires one_in_held.bounded refl))
      (delivers second_one two_in.bounded (omega arith) refl)

abbrev one_out : System lists
one_out = record two_in {
  bounded = record two_in.bounded {
    channel = record { messages = second_one ∷ []; places = 2; is_open = true };
    metrics = record two_in.bounded.metrics {
      total_received = 1;
      current_pending = u64_mod - 1;
      avg_latency_ms = 2;
    };
  };
  returning = 1;
  received = first_one ∷ [];
}

one_out-Reached : Reached lists two one_out
unfolding push pop bounded_with_backpressure deliver take_message
one_out-Reached = later two_in-Reached (takes 5 first_one one_out.bounded refl)

deliver_never_full_example : (deliver lists held.bounded first_one).1 ≡ ok tt
deliver_never_full_example =
    deliver_never_full lists held first_one (omega arith) held-Reached (omega arith)

sent_in_order_example :
    (one_out.sent ≡ one_out.received ++ lists.queued one_out.bounded.channel)
    × (length (lists.queued one_out.bounded.channel) + one_out.holding + one_out.returning
        ≤ two.max_pending)
sent_in_order_example = sent_in_order lists one_out (omega arith) one_out-Reached

send_or_receive_example :
    ((try_send lists two_in.bounded 13 normal 6).1 ≡ ok tt)
    ⊎ ((m : PrioritizedMessage ℕ) × (rest : List (PrioritizedMessage ℕ)) × (length
            (lists.queued two_in.bounded.channel)
          ≡ two.max_pending)
        × (two_in.sent ≡ two_in.received ++ (m ∷ rest))
        × ((try_recv lists two_in.bounded 6).1 ≡ ok m)
        × ((try_send lists (try_recv lists two_in.bounded 6).0 13 normal 6).1 ≡ ok tt))
send_or_receive_example =
    send_or_receive lists two_in 13 normal 6 (omega arith) two_in-Reached refl refl

abbrev waiting : PriorityBackpressureManager lists
waiting = record {
  low_queue = one_in.bounded;
  normal_queue = two_in.bounded;
  high_queue = (start lists two).bounded;
  critical_queue = (start lists two).bounded;
}

higher_ones_empty :
    (q : Priority) → rank normal < rank q → lists.queued (queue lists waiting q).channel ≡ []
unfolding push pop bounded_with_backpressure
higher_ones_empty low h = absurd (omega (arith, h))
higher_ones_empty normal h = absurd (omega (arith, h))
higher_ones_empty high h = refl
higher_ones_empty critical h = refl

normal_queue_full : lists.queued (queue lists waiting normal).channel ≡ first_one ∷ second_one ∷ []
unfolding push pop bounded_with_backpressure deliver
normal_queue_full = refl

recv_prioritized-highest_example :
    (b : Bounded lists) × (recv_prioritized lists waiting 6 waiting 7
      ≡ (set_queue lists waiting normal b, some first_one))
    × (lists.queued b.channel ≡ second_one ∷ [])
    × (lists.permits b.semaphore ≡ lists.permits (queue lists waiting normal).semaphore + 1)
recv_prioritized-highest_example =
    recv_prioritized-highest lists waiting normal first_one (second_one ∷ []) 6 waiting 7
      normal_queue_full higher_ones_empty
