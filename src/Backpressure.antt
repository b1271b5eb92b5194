-- ===== src/Backpressure.antt =====
-- src/backpressure.rs: the bounded channel between one receiver and many senders, and the manager
-- of one channel for each priority. Tokio's channel and semaphore are the parameter `Tokio`. Times
-- are in milliseconds and given as arguments; a wait under a timeout is an argument too, which says how
-- it ended. The tests on floating-point ratios are left out.
pub mod Runtime
pub mod Metrics
pub mod Steps
pub mod Balance
pub mod Order
pub mod Progress
pub mod Priorities
pub mod Reference
mod Tests
use Prim.Native.String.{String}
use iroh_raft.Common.{
  ℕ, ◌+◌, ◌-◌, ◌/◌, Bool, List, [], ◌∷◌, Option, none, some, Outcome, ok, err, map_err,
}
use iroh_raft.Error.{RaftError}
use Runtime.{Tokio, TrySendError, full, closed, TryRecvError, empty, disconnected}
use Metrics.{
  BackpressureMetrics, no_metrics, record_sent, record_received, record_timeout, record_latency,
}

-- The settings that the channel reads; the others, among them a floating-point threshold, are not.
pub record BackpressureConfig : Type 0 where
  pub max_pending : ℕ
  pub send_timeout : ℕ

pub data Priority : Type 0 where
  low normal high critical : Priority

pub record PrioritizedMessage (T : Type 0) : Type 0 where
  pub payload : T
  pub priority : Priority
  pub created_at : ℕ
  pub retry_count : ℕ

-- How a wait under a timeout ended: what was waited for came, or the time was over.
pub data Wait : Type 0 where
  arrived elapsed : Wait

abbrev pub timed_out : String → ℕ → RaftError
timed_out operation duration = RaftError.timeout operation duration

abbrev pub send_refused : TrySendError → RaftError
send_refused full = RaftError.internal "Channel full"
send_refused closed = RaftError.internal "Channel closed"

abbrev pub recv_refused : TryRecvError → RaftError
recv_refused empty = RaftError.internal "No messages available"
recv_refused disconnected = RaftError.internal "Channel disconnected"

module _ {T : Type 0} (tokio : Tokio (PrioritizedMessage T)) where
  open tokio use {Channel, Semaphore}

  -- What the sender and the receiver share.
  pub record Bounded : Type 0 where
    pub channel : Channel
    pub semaphore : Semaphore
    pub metrics : BackpressureMetrics
    pub config : BackpressureConfig

  unfoldable pub bounded_with_backpressure : BackpressureConfig → Bounded
  bounded_with_backpressure config = record {
    channel = tokio.channel config.max_pending;
    semaphore = tokio.semaphore config.max_pending;
    metrics = no_metrics;
    config = config;
  }

  abbrev pub new_message : T → Priority → ℕ → PrioritizedMessage T
  new_message payload priority now = record {
    payload = payload;
    priority = priority;
    created_at = now;
    retry_count = 0;
  }

  -- A permit that is dropped, or given back by the receiver.
  unfoldable pub release_permit : Bounded → Bounded
  release_permit b = record b { semaphore = tokio.add_permits b.semaphore 1 }

  -- The second half of `send` and `try_send`, with the permit in hand: it is forgotten when the message
  -- is in the channel, and dropped with an error.
  unfoldable pub deliver : Bounded → PrioritizedMessage T → Bounded × Outcome RaftError (Unit {0})
  unfolding release_permit
  deliver b message = elim (tokio.try_send b.channel message) [
    | ok channel ↦ (record b { channel = channel; metrics = record_sent b.metrics }, ok tt)
    | err why ↦ (release_permit b, err (send_refused why))
  ]

  unfoldable pub try_send : Bounded → T → Priority → ℕ → Bounded × Outcome RaftError (Unit {0})
  unfolding deliver
  try_send b payload priority now = elim (tokio.try_acquire b.semaphore) [
    | err _ ↦ (b, err (RaftError.internal "Channel at capacity"))
    | ok semaphore ↦ deliver (record b { semaphore = semaphore }) (new_message payload priority now)
  ]

  -- The first half of `send`, which waits for a permit.
  unfoldable pub send_acquire : Bounded → Wait → Outcome RaftError Bounded
  send_acquire b elapsed = err (timed_out "acquire send permit" b.config.send_timeout)
  send_acquire b arrived = elim (tokio.try_acquire b.semaphore) [
    | err _ ↦ err (RaftError.internal "Semaphore closed")
    | ok semaphore ↦ ok (record b { semaphore = semaphore })
  ]

  -- The second half of `send`, which waits for a place in the channel.
  unfoldable pub send_deliver :
      Bounded → Wait → PrioritizedMessage T → Bounded × Outcome RaftError (Unit {0})
  unfolding release_permit deliver
  send_deliver b elapsed message = (
    release_permit (record b { metrics = record_timeout b.metrics }),
    err (timed_out "send message" b.config.send_timeout),
  )
  send_deliver b arrived message = deliver b message

  -- `send`, where no other task runs between its halves.
  unfoldable pub send :
      Bounded → Wait → Wait → T → Priority → ℕ → Bounded × Outcome RaftError (Unit {0})
  unfolding send_acquire send_deliver
  send b for_permit for_place payload priority now = elim (send_acquire b for_permit) [
    | err why ↦ (b, err why)
    | ok held ↦ send_deliver held for_place (new_message payload priority now)
  ]

  -- The receiver's work on a message that has come, up to the release of its permit.
  abbrev pub note_received : Bounded → Channel → PrioritizedMessage T → ℕ → Bounded
  note_received b channel message now = record b {
    channel = channel;
    metrics = record_latency (record_received b.metrics) (now - message.created_at);
  }

  unfoldable pub take_message : Bounded → ℕ → Outcome TryRecvError (PrioritizedMessage T × Bounded)
  take_message b now = elim (tokio.try_recv b.channel) [
    | err why ↦ err why
    | ok (message, channel) ↦ ok (message, note_received b channel message now)
  ]

  unfoldable pub try_recv : Bounded → ℕ → Bounded × Outcome RaftError (PrioritizedMessage T)
  unfolding take_message release_permit
  try_recv b now = elim (take_message b now) [
    | err why ↦ (b, err (recv_refused why))
    | ok (message, taken) ↦ (release_permit taken, ok message)
  ]

  -- `recv`, once a message or the end of the channel has come.
  unfoldable pub recv : Bounded → ℕ → Bounded × Option (PrioritizedMessage T)
  unfolding take_message release_permit
  recv b now = elim (take_message b now) [
    | err why ↦ (b, none)
    | ok (message, taken) ↦ (release_permit taken, some message)
  ]
