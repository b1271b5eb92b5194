-- ===== src/Backpressure/Priorities.antt =====
-- src/backpressure.rs: `PriorityBackpressureManager`, one channel for each priority.
use iroh_raft.Common.{
  ℕ, arith, ◌+◌, ◌*◌, ◌/◌, ◌%◌, ◌<◌, ◌≡◌, refl, ap, ◌∙◌, ltb, max, if◌then◌else◌, List, [], ◌∷◌,
  Option, none, some, Outcome, ok, err,
}
use iroh_raft.Common.Bytes.{u64_mod}
use iroh_raft.Backpressure.{
  BackpressureConfig, PrioritizedMessage, Priority, low, normal, high, critical, Bounded,
  bounded_with_backpressure, try_recv, recv, take_message, release_permit, note_received,
  recv_refused,
}
use iroh_raft.Error.{RaftError}
use iroh_raft.Backpressure.Runtime.{Tokio}
use iroh_raft.Backpressure.Metrics.{BackpressureMetrics, no_metrics}

-- `priority as usize`.
abbrev pub rank : Priority → ℕ
rank low = 0
rank normal = 1
rank high = 2
rank critical = 3

module _ {T : Type 0} (tokio : Tokio (PrioritizedMessage T)) where
  -- The vector of four pairs of a sender and a receiver.
  pub record PriorityBackpressureManager : Type 0 where
    pub low_queue : Bounded tokio
    pub normal_queue : Bounded tokio
    pub high_queue : Bounded tokio
    pub critical_queue : Bounded tokio

  -- A quarter of the capacity for each queue.
  abbrev pub queue_config : BackpressureConfig → BackpressureConfig
  queue_config config = record config { max_pending = config.max_pending / 4 }

  unfoldable pub new : BackpressureConfig → PriorityBackpressureManager
  new config =
      let queue : Bounded tokio = bounded_with_backpressure tokio (queue_config config) in
      record { low_queue = queue; normal_queue = queue; high_queue = queue; critical_queue = queue }

  abbrev pub queue : PriorityBackpressureManager → Priority → Bounded tokio
  queue m low = m.low_queue
  queue m normal = m.normal_queue
  queue m high = m.high_queue
  queue m critical = m.critical_queue

  abbrev pub set_queue :
      PriorityBackpressureManager → Priority → Bounded tokio → PriorityBackpressureManager
  set_queue m low b = record m { low_queue = b }
  set_queue m normal b = record m { normal_queue = b }
  set_queue m high b = record m { high_queue = b }
  set_queue m critical b = record m { critical_queue = b }

  abbrev pub from_highest : List Priority
  from_highest = critical ∷ high ∷ normal ∷ low ∷ []

  -- The queues are asked in turn, and the first message is the result.
  unfoldable pub first_message :
      PriorityBackpressureManager
      → List Priority
      → ℕ
      → Option (PrioritizedMessage T × PriorityBackpressureManager)
  first_message m [] now = none
  first_message m (p ∷ ps) now =
      let (b, result) = try_recv tokio (queue m p) now in
      elim result [
        | ok message ↦ some (message, set_queue m p b)
        | err _ ↦ first_message (set_queue m p b) ps now
      ]

  -- `recv_prioritized`; if it must wait, `woken` is the manager at the time `later` when the critical queue
  -- has a message or is closed.
  unfoldable pub recv_prioritized :
      PriorityBackpressureManager
      → ℕ
      → (woken : PriorityBackpressureManager) (later : ℕ)
      → PriorityBackpressureManager × Option (PrioritizedMessage T)
  unfolding first_message
  recv_prioritized m now woken later = elim (first_message m from_highest now) [
    | some (message, after) ↦ (after, some message)
    | none ↦
        let (b, message) = recv tokio woken.critical_queue later in
        (set_queue woken critical b, message)
  ]

  -- A queue's part in the sums; a latency counts once for each message received.
  pub record Sums : Type 0 where
    pub counts : BackpressureMetrics
    pub latency_sum : ℕ
    pub latency_count : ℕ

  abbrev pub wrapping_add : ℕ → ℕ → ℕ
  wrapping_add m n = (m + n) % u64_mod

  unfoldable pub add_queue : Sums → BackpressureMetrics → Sums
  add_queue s q = record {
    counts = record {
      total_sent = wrapping_add s.counts.total_sent q.total_sent;
      total_received = wrapping_add s.counts.total_received q.total_received;
      total_dropped = wrapping_add s.counts.total_dropped q.total_dropped;
      total_timeouts = wrapping_add s.counts.total_timeouts q.total_timeouts;
      current_pending = wrapping_add s.counts.current_pending q.current_pending;
      max_pending_reached = max s.counts.max_pending_reached q.max_pending_reached;
      avg_latency_ms = s.counts.avg_latency_ms;
    };
    latency_sum =
        if ltb 0 q.total_received
        then wrapping_add s.latency_sum (q.avg_latency_ms * q.total_received % u64_mod)
        else s.latency_sum;
    latency_count =
        if ltb 0 q.total_received
        then wrapping_add s.latency_count q.total_received
        else s.latency_count;
  }

  abbrev pub sums : PriorityBackpressureManager → Sums
  sums m =
      add_queue
        (add_queue
          (add_queue
            (add_queue (record { counts = no_metrics; latency_sum = 0; latency_count = 0 })
              m.low_queue.metrics)
            m.normal_queue.metrics)
          m.high_queue.metrics)
        m.critical_queue.metrics

  unfoldable pub aggregate_metrics : PriorityBackpressureManager → BackpressureMetrics
  unfolding add_queue
  aggregate_metrics m =
      let s : Sums = sums m in
      record s.counts {
        avg_latency_ms =
            if ltb 0 s.latency_count
            then s.latency_sum / s.latency_count
            else s.counts.avg_latency_ms;
      }

  set_queue-queue : (m : PriorityBackpressureManager) (p : Priority) → set_queue m p (queue m p) ≡ m
  set_queue-queue m low = refl
  set_queue-queue m normal = refl
  set_queue-queue m high = refl
  set_queue-queue m critical = refl

  skips :
      (m : PriorityBackpressureManager) (p : Priority) (ps : List Priority) (now : ℕ)
      → tokio.queued (queue m p).channel ≡ []
      → first_message m (p ∷ ps) now ≡ first_message m ps now
  unfolding first_message try_recv take_message
  skips m p ps now nothing =
      let (why, refused) = tokio.try_recv_none (queue m p).channel nothing in
      let empty : try_recv tokio (queue m p) now ≡ (queue m p, err (recv_refused why)) =
        rw (refused, take_message, try_recv) refl in
      ap
        (λ (r : Bounded tokio × Outcome RaftError (PrioritizedMessage T)). elim r.1 [
          | ok message ↦ some (message, set_queue m p r.0)
          | err _ ↦ first_message (set_queue m p r.0) ps now
        ])
        empty
      ∙ (ap (λ (x : _). first_message x ps now) (set_queue-queue m p))

  takes :
      (m : PriorityBackpressureManager) (p : Priority) (ps : List Priority) (now : ℕ)
      (message : PrioritizedMessage T) (rest : List (PrioritizedMessage T))
      → tokio.queued (queue m p).channel ≡ message ∷ rest
      → (b : Bounded tokio) × (first_message m (p ∷ ps) now ≡ some (message, set_queue m p b))
        × (tokio.queued b.channel ≡ rest)
        × (tokio.permits b.semaphore ≡ tokio.permits (queue m p).semaphore + 1)
  unfolding first_message try_recv take_message release_permit
  takes m p ps now message rest there =
      let (c, given, fewer, _, _) = tokio.try_recv_some (queue m p).channel message rest there in
      let b : Bounded tokio =
        release_permit tokio (note_received tokio (queue m p) c message now) in
      let received : try_recv tokio (queue m p) now ≡ (b, ok message) =
        rw (given, take_message, try_recv) refl in
      (
        b,
        ap
            (λ (r : Bounded tokio × Outcome RaftError (PrioritizedMessage T)). elim r.1 [
              | ok message' ↦ some (message', set_queue m p r.0)
              | err _ ↦ first_message (set_queue m p r.0) ps now
            ])
            received,
        fewer,
        tokio.permits-add_permits (queue m p).semaphore 1,
      )

  -- The message, at any time, is the oldest one of the queue of the highest priority that has any; it leaves its
  -- queue, which gets its permit back, and the other queues stay as they are.
  pub recv_prioritized-highest :
      (m : PriorityBackpressureManager) (p : Priority) (message : PrioritizedMessage T)
      (rest : List (PrioritizedMessage T)) (now : ℕ) (woken : PriorityBackpressureManager)
      (later : ℕ)
      → tokio.queued (queue m p).channel ≡ message ∷ rest
      → ((q : Priority) → rank p < rank q → tokio.queued (queue m q).channel ≡ [])
      → (b : Bounded tokio) × (recv_prioritized m now woken later ≡ (set_queue m p b, some message))
        × (tokio.queued b.channel ≡ rest)
        × (tokio.permits b.semaphore ≡ tokio.permits (queue m p).semaphore + 1)
  unfolding recv_prioritized
  recv_prioritized-highest m critical message rest now woken later there above =
      let (b, found, fewer, more) =
        takes m critical (high ∷ normal ∷ low ∷ []) now message rest there in
      (b, rw (found, recv_prioritized) refl, fewer, more)
  recv_prioritized-highest m high message rest now woken later there above =
      let (b, found, fewer, more) = takes m high (normal ∷ low ∷ []) now message rest there in
      (
        b,
        rw
            (
              skips m critical (high ∷ normal ∷ low ∷ []) now (above critical (omega arith)),
              found,
              recv_prioritized,
            )
            refl,
        fewer,
        more,
      )
  recv_prioritized-highest m normal message rest now woken later there above =
      let (b, found, fewer, more) = takes m normal (low ∷ []) now message rest there in
      (
        b,
        rw
            (
              skips m critical (high ∷ normal ∷ low ∷ []) now (above critical (omega arith)),
              skips m high (normal ∷ low ∷ []) now (above high (omega arith)),
              found,
              recv_prioritized,
            )
            refl,
        fewer,
        more,
      )
  recv_prioritized-highest m low message rest now woken later there above =
      let (b, found, fewer, more) = takes m low [] now message rest there in
      (
        b,
        rw
            (
              skips m critical (high ∷ normal ∷ low ∷ []) now (above critical (omega arith)),
              skips m high (normal ∷ low ∷ []) now (above high (omega arith)),
              skips m normal (low ∷ []) now (above normal (omega arith)),
              found,
              recv_prioritized,
            )
            refl,
        fewer,
        more,
      )
