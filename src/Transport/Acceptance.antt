-- ===== src/Transport/Acceptance.antt =====
-- What send_message of src/transport/iroh.rs does with a message that it accepts.
use iroh_raft.Common.{
  ℕ, ◌≤◌, ◌≡◌, refl, ap, ◌∙◌, ◌⊎◌, inl, inr, false, List, [], ◌∷◌, All, length, take,
  take-append_le, ◌==◌, arith, Outcome, ok, err, Bool-cases, ◌>>=◌, eq→==, ==→eq, sym,
  if◌then◌else◌, Bool,
}
use iroh_raft.Error.{RaftError}
use iroh_raft.Raft.{RaftCrate}
use iroh_raft.Protocol.{Wire}
use iroh_raft.Protocol.Rpc.{RpcCodec}
use iroh_raft.Transport.{
  RaftMessagePriority, as_u8, BufferedRaftMessage, from_raft_message, election, heartbeat,
  log_append, snapshot,
}
use iroh_raft.Transport.Buffer.{max_buffered, Queue, queue_of, buffer_message}
use iroh_raft.Transport.Stable.{insert_stable, insert_stable-last, take-short}
use iroh_raft.Transport.Sorting.{Arrival, key, buffer_in-take, queue_of-buffer_message}
use iroh_raft.Transport.Shared.{Iroh}
use iroh_raft.Transport.Connections.{PeerConnection, Connections, get_or_create_connection}
use iroh_raft.Transport.Sending.{
  Surroundings, IrohRaftTransport, send_single_message, try_send_immediate, send_message,
  is_immediate, shutting_down, buffered, record_raft_message_sent,
}

module _ (wire : Wire) (codec : RpcCodec) (raft : RaftCrate) (iroh : Iroh) where
  module _ (s : Surroundings wire codec raft iroh) (to : ℕ) (message : raft.Message)
      (t : IrohRaftTransport wire codec raft iroh) where
    -- The connections after the pool has been asked for one to the peer, and what it has given.
    abbrev pub asked : Connections iroh × Outcome RaftError (PeerConnection iroh)
    asked = get_or_create_connection iroh s.connect s.connected_at t.node to t.connections

    -- The connection that the pool gives for the peer has carried the message.
    abbrev pub IsCarried : Type 0
    IsCarried =
        (conn : PeerConnection iroh) × (w : wire.Writer) × (asked.1 ≡ ok conn)
        × (send_single_message wire codec raft (s.open_stream conn.connection) message ≡ ok w)

    -- The pool gives no connection for the peer, or the one it gives does not carry the message.
    abbrev pub IsUncarried : Type 0
    IsUncarried =
        ((why : RaftError) × (asked.1 ≡ err why))
        ⊎ ((conn : PeerConnection iroh) × (why : RaftError) × (asked.1 ≡ ok conn)
            × (send_single_message wire codec raft (s.open_stream conn.connection) message
                ≡ err why))

    -- A message that has been carried is counted, if the counts are free, and nothing else changes but the pool.
    abbrev pub counted : IrohRaftTransport wire codec raft iroh
    counted =
        record_raft_message_sent wire codec raft iroh s.counts_free (raft.msg_type message)
          (record t { connections = asked.0 })

    abbrev attempt : IrohRaftTransport wire codec raft iroh × Outcome RaftError wire.Writer
    attempt = try_send_immediate wire codec raft iroh s to message t

    -- The connection and the stream, which `try_send_immediate` uses in turn.
    abbrev carried : Outcome RaftError wire.Writer
    carried =
        asked.1
        >>= (λ conn. send_single_message wire codec raft (s.open_stream conn.connection) message)

    -- The message, as it is put into a queue.
    abbrev pub waiting : BufferedRaftMessage raft
    waiting = record {
      message = message;
      priority = from_raft_message raft message;
      timestamp = s.buffered_at;
    }

    -- The message stands in the queue of its peer at the place of its priority, if this is among the first 1000, and the
    -- other queues are as they were.
    abbrev pub IsQueued : List (ℕ × Queue raft) → Type 0
    IsQueued after =
        (queue_of raft to after
          ≡ take max_buffered
              (insert_stable (key raft) waiting (queue_of raft to t.message_buffer)))
        × ((j : ℕ) → (to == j) ≡ false → queue_of raft j after ≡ queue_of raft j t.message_buffer)

    queued : IsQueued (
        buffer_message raft s.buffered_at to message
          (from_raft_message raft message)
          t.message_buffer)
    queued =
        let call : Arrival raft = record {
          time = s.buffered_at;
          peer = to;
          message = message;
          priority = from_raft_message raft message;
        } in
        (
          queue_of-buffer_message raft call to t.message_buffer
              ∙ rw (eq→== to to refl)
                  (buffer_in-take raft waiting (queue_of raft to t.message_buffer)),
          (λ j other. queue_of-buffer_message raft call j t.message_buffer ∙ rw other refl),
        )

    -- A message that waits: nothing else changes but the pool, which is given, and the queues.
    abbrev pub IsWaiting : Connections iroh → IrohRaftTransport wire codec raft iroh → Type 0
    IsWaiting pool after =
        (after ≡ record t { connections = pool; message_buffer = after.message_buffer })
        × IsQueued after.message_buffer

    -- What a transport that is not shutting down makes of the attempt.
    abbrev outcome : IrohRaftTransport wire codec raft iroh × Outcome RaftError (Unit {0})
    outcome =
        if is_immediate wire codec raft iroh (from_raft_message raft message)
        then (
          elim attempt.1 [
            | ok _ ↦ attempt.0
            | err _ ↦ buffered wire codec raft iroh s to message attempt.0
          ],
          ok tt,
        )
        else (buffered wire codec raft iroh s to message t, ok tt)

    send_message-outcome :
        t.is_shutting_down ≡ false → send_message wire codec raft iroh s to message t ≡ outcome
    unfolding send_message
    send_message-outcome running =
        ap (λ (stops : Bool). if stops then (t, err (shutting_down)) else outcome) running

    urgent : (p : RaftMessagePriority) → as_u8 p ≤ 3
    unfolding as_u8
    urgent election = omega arith
    urgent heartbeat = omega arith
    urgent log_append = omega arith
    urgent snapshot = omega arith

    queue_urgency : (q : Queue raft) → All (λ m. key raft m ≤ 3) q
    queue_urgency [] = tt
    queue_urgency (m ∷ q) = (urgent m.priority, queue_urgency q)

    -- A message with a snapshot, to a peer for which 1000 messages wait, is dropped, and the answer of a transport that
    -- is not shutting down is `Ok` all the same: whatever the network would do, no connection is asked for, nothing is counted as
    -- sent, and every queue is as it was.
    pub send_message_drops :
        t.is_shutting_down ≡ false
        → from_raft_message raft message ≡ snapshot
        → length (queue_of raft to t.message_buffer) ≡ max_buffered
        → let after = (send_message wire codec raft iroh s to message t).0 in
          ((send_message wire codec raft iroh s to message t).1 ≡ ok tt)
          × (after.connections ≡ t.connections)
          × (after.messages_sent ≡ t.messages_sent)
          × ((j : ℕ) → queue_of raft j after.message_buffer ≡ queue_of raft j t.message_buffer)
    unfolding as_u8
    send_message_drops running bulk full =
        let q = queue_of raft to t.message_buffer in
        let last : as_u8 waiting.priority ≡ 3 = ap as_u8 bulk in
        let later : is_immediate wire codec raft iroh (from_raft_message raft message) ≡ false =
          ap (is_immediate wire codec raft iroh) bulk in
        let all : All (λ m. key raft m ≤ key raft waiting) q = rw last (queue_urgency q) in
        let own =
          queued.0
          ∙ ap (take max_buffered) (insert_stable-last (key raft) waiting q all)
          ∙ take-append_le max_buffered q (waiting ∷ []) (omega (arith, full))
          ∙ take-short max_buffered q (omega (arith, full)) in
        rw (send_message-outcome running, later)
          (
            refl,
            refl,
            refl,
            λ j. elim (Bool-cases (to == j)) [
              | inl same ↦
                  ap
                    (λ i.
                      queue_of raft i (buffered wire codec raft iroh s to message t).message_buffer)
                    (sym (==→eq to j same))
                  ∙ own
                  ∙ ap (λ i. queue_of raft i t.message_buffer) (==→eq to j same)
              | inr other ↦ queued.1 j other
            ],
          )
