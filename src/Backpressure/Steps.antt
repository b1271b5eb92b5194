-- ===== src/Backpressure/Steps.antt =====
-- One channel under any interleaving of its senders and its receiver, and what holds in between.
use iroh_raft.Common.{ℕ, ◌+◌, ◌-◌, ◌%◌, ◌<◌, ◌≡◌, true, List, [], ◌∷◌, ◌++◌, length, ok, err}
use iroh_raft.Common.Bytes.{u64_mod}
use iroh_raft.Error.{RaftError}
use iroh_raft.Backpressure.{
  BackpressureConfig, PrioritizedMessage, Bounded, bounded_with_backpressure, release_permit,
  deliver, send_acquire, send_deliver, arrived, elapsed, take_message,
}
use iroh_raft.Backpressure.Runtime.{Tokio}

module _ {T : Type 0} (tokio : Tokio (PrioritizedMessage T)) where
  abbrev pub Message : Type 0
  Message = PrioritizedMessage T

  -- `holding` senders have a permit and no place in the channel yet; the receiver has taken `returning`
  -- messages whose permits it has not given back. `sent` and `received` are the messages so far.
  pub record System : Type 0 where
    pub bounded : Bounded tokio
    pub holding : ℕ
    pub returning : ℕ
    pub sent : List Message
    pub received : List Message

  abbrev pub start : BackpressureConfig → System
  start config = record {
    bounded = bounded_with_backpressure tokio config;
    holding = 0;
    returning = 0;
    sent = [];
    received = [];
  }

  pub data Step (s : System) : System → Type 0 where
    acquires :
        (b : Bounded tokio)
        → send_acquire tokio s.bounded arrived ≡ ok b
        → Step s (record s { bounded = b; holding = s.holding + 1 })
    delivers :
        (m : Message) (b : Bounded tokio)
        → 0 < s.holding
        → deliver tokio s.bounded m ≡ (b, ok tt)
        → Step s (record s { bounded = b; holding = s.holding - 1; sent = s.sent ++ (m ∷ []) })
    fails :
        (m : Message) (b : Bounded tokio) (why : RaftError)
        → 0 < s.holding
        → deliver tokio s.bounded m ≡ (b, err why)
        → Step s (record s { bounded = b; holding = s.holding - 1 })
    gives_up :
        (m : Message)
        → 0 < s.holding
        → Step s (record s {
          bounded = (send_deliver tokio s.bounded elapsed m).0;
          holding = s.holding - 1;
        })
    takes :
        (now : ℕ) (m : Message) (b : Bounded tokio)
        → take_message tokio s.bounded now ≡ ok (m, b)
        → Step s (record s {
          bounded = b;
          returning = s.returning + 1;
          received = s.received ++ (m ∷ []);
        })
    releases :
        0 < s.returning
        → Step s
            (record s { bounded = release_permit tokio s.bounded; returning = s.returning - 1 })

  pub data Reached (config : BackpressureConfig) : System → Type 0 where
    started : Reached config (start config)
    later : {s t : System} → Reached config s → Step s t → Reached config t

  -- The permits, those in hand, the messages in the channel and the permits on their way back make
  -- up the capacity; the channel holds, in order, what was sent and not received.
  pub record IsBalanced (config : BackpressureConfig) (s : System) : Type 0 where
    pub total :
        tokio.permits s.bounded.semaphore
          + s.holding
          + length (tokio.queued s.bounded.channel)
          + s.returning
        ≡ config.max_pending
    pub size : tokio.capacity s.bounded.channel ≡ config.max_pending
    pub open_end : tokio.has_receiver s.bounded.channel ≡ true
    pub in_order : s.sent ≡ s.received ++ tokio.queued s.bounded.channel
    pub pending :
        (s.bounded.metrics.current_pending + s.bounded.metrics.total_received) % u64_mod ≡ 0
