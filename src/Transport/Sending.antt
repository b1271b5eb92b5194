-- ===== src/Transport/Sending.antt =====
-- send_message, try_send_immediate and send_single_message of src/transport/iroh.rs: a message of Raft, at once or
-- into the queue of its peer.
use Prim.Native.String.{String, ◌++◌ as concat}
use iroh_raft.Common.{
  ℕ, ◌+◌, ◌%◌, length, Bool, true, false, List, [], ◌∷◌, none, some, if◌then◌else◌, Outcome, ok,
  err, map_err, ◌>>=◌,
}
use iroh_raft.Common.Bytes.{u64_mod}
use iroh_raft.Common.Equality.{nat_eq, string_eq}
use iroh_raft.Common.Maps.{lookup, insert}
use iroh_raft.Error.{RaftError}
use iroh_raft.Raft.{RaftCrate, serialize_message}
use iroh_raft.Storage.Codec.{Bytes}
use iroh_raft.Protocol.{Wire, request, internal_error}
use iroh_raft.Protocol.Frames.{write_message}
use iroh_raft.Protocol.Rpc.{RpcCodec, raft_request, serialize_request}
use iroh_raft.Transport.{
  RaftMessagePriority, election, heartbeat, log_append, snapshot, from_raft_message,
}
use iroh_raft.Transport.Buffer.{Queue, buffer_message}
use iroh_raft.Transport.Shared.{Iroh, SharedNodeState}
use iroh_raft.Transport.Connections.{Connecting, Connections, get_or_create_connection}

abbrev pub shutting_down : RaftError
shutting_down = RaftError.internal "Transport is shutting down"

-- `*map.entry(key).or_insert(0) += 1`.
unfoldable pub count_one : String → List (String × ℕ) → List (String × ℕ)
unfolding lookup insert
count_one key counts =
    insert key (elim (lookup key counts) [ none ↦ 1 | some n ↦ (n + 1) % u64_mod ]) counts

-- A stream that is opened for one request: its identifier, what opening it gives, and how finishing it ends.
pub record Stream (wire : Wire) : Type 0 where
  pub request_id : Bytes
  pub open_bi : Outcome String wire.Writer
  pub finish : Outcome String (Unit {0})

module _ (wire : Wire) (codec : RpcCodec) (raft : RaftCrate) where
  -- The result has what was written; the response, for which the source waits, is not looked at.
  unfoldable pub send_single_message : Stream wire → raft.Message → Outcome RaftError wire.Writer
  unfolding serialize_message serialize_request write_message
  send_single_message stream message = do
    msg_data ← serialize_message raft message
    request_bytes ← serialize_request codec (raft_request msg_data)
    send ← map_err (internal_error "Failed to open bi stream: ") stream.open_bi
    sent ← write_message wire send request (some stream.request_id) request_bytes
    _ ← map_err (internal_error "Failed to finish send stream: ") stream.finish
    ok sent

  module _ (iroh : Iroh) where
    pub record IrohRaftTransport : Type 0 where
      pub node : SharedNodeState iroh
      pub connections : Connections iroh
      pub message_buffer : List (ℕ × Queue raft)
      pub is_shutting_down : Bool
      pub messages_sent : List (String × ℕ)
      pub messages_received : List (String × ℕ)

    unfoldable pub new : SharedNodeState iroh → IrohRaftTransport
    new node = record {
      node = node;
      connections = [];
      message_buffer = [];
      is_shutting_down = false;
      messages_sent = [];
      messages_received = [];
    }

    -- What a call of `send_message` meets: the network, the clock when a connection is made and when the message is
    -- buffered, and whether the lock of the counts is free.
    pub record Surroundings : Type 0 where
      pub connect : iroh.NodeAddr → Connecting iroh.Connection
      pub open_stream : iroh.Connection → Stream wire
      pub connected_at : ℕ
      pub buffered_at : ℕ
      pub counts_free : Bool

    unfoldable pub record_raft_message_sent :
        Bool → raft.MessageType → IrohRaftTransport → IrohRaftTransport
    unfolding count_one
    record_raft_message_sent counts_free type t =
        if counts_free
        then record t {
          messages_sent = count_one (concat "Raft_" (raft.show_type type)) t.messages_sent;
        }
        else t

    -- The source writes the steps of `send_single_message` out again.
    unfoldable pub try_send_immediate :
        Surroundings
        → ℕ
        → raft.Message
        → IrohRaftTransport
        → IrohRaftTransport × Outcome RaftError wire.Writer
    unfolding get_or_create_connection send_single_message record_raft_message_sent
    try_send_immediate s to message t =
        let (connections, got) =
          get_or_create_connection iroh s.connect s.connected_at t.node to t.connections in
        let t' : IrohRaftTransport = record t { connections = connections } in
        elim (got >>= (λ conn. send_single_message (s.open_stream conn.connection) message)) [
          | err why ↦ (t', err why)
          | ok sent ↦ (record_raft_message_sent s.counts_free (raft.msg_type message) t', ok sent)
        ]

    abbrev pub buffered : Surroundings → ℕ → raft.Message → IrohRaftTransport → IrohRaftTransport
    buffered s to message t = record t {
      message_buffer =
          buffer_message raft s.buffered_at to message (from_raft_message raft message)
            t.message_buffer;
    }

    -- Every priority but that of snapshots is tried at once.
    abbrev pub is_immediate : RaftMessagePriority → Bool
    is_immediate election = true
    is_immediate heartbeat = true
    is_immediate log_append = true
    is_immediate snapshot = false

    unfoldable pub send_message :
        Surroundings
        → ℕ
        → raft.Message
        → IrohRaftTransport
        → IrohRaftTransport × Outcome RaftError (Unit {0})
    unfolding try_send_immediate buffer_message from_raft_message
    send_message s to message t =
        let (t', tried) = try_send_immediate s to message t in
        if t.is_shutting_down
        then (t, err shutting_down)
        else if is_immediate (from_raft_message raft message)
        then (elim tried [ ok _ ↦ t' | err _ ↦ buffered s to message t' ], ok tt)
        else (buffered s to message t, ok tt)

    abbrev pub sum_counts : List (String × ℕ) → ℕ
    sum_counts [] = 0
    sum_counts ((_, n) ∷ rest) = n + sum_counts rest

    unfoldable pub send_raft_message :
        Surroundings
        → ℕ
        → raft.Message
        → IrohRaftTransport
        → IrohRaftTransport × Outcome RaftError (Unit {0})
    unfolding send_message
    send_raft_message s to message t = send_message s to message t

    pub record IrohRaftMetrics : Type 0 where
      pub active_connections : ℕ
      pub sent_count : ℕ
      pub received_count : ℕ

    unfoldable pub get_metrics : IrohRaftTransport → IrohRaftMetrics
    get_metrics t = record {
      active_connections = length t.connections;
      sent_count = sum_counts t.messages_sent % u64_mod;
      received_count = sum_counts t.messages_received % u64_mod;
    }

    -- The tasks end, and every connection is closed.
    unfoldable pub shutdown : IrohRaftTransport → IrohRaftTransport
    shutdown t = record t { is_shutting_down = true; connections = [] }
