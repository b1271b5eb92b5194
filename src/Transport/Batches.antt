-- ===== src/Transport/Batches.antt =====
-- process_message_batches of src/transport/iroh.rs: the queues are sent out, in the order of the map.
use Prim.Native.String.{String}
use iroh_raft.Common.{
  ℕ, suc, ◌*◌, ◌-◌, Bool, List, [], ◌∷◌, Option, none, some, ltb, leb, if◌then◌else◌, Outcome, ok,
  err, map_err, ◌>>=◌,
}
use iroh_raft.Common.Equality.{nat_eq}
use iroh_raft.Common.Maps.{lookup}
use iroh_raft.Raft.{RaftCrate}
use iroh_raft.Protocol.{Wire}
use iroh_raft.Protocol.Rpc.{RpcCodec}
use iroh_raft.Transport.{BufferedRaftMessage}
use iroh_raft.Transport.Buffer.{Queue}
use iroh_raft.Transport.Shared.{Iroh, SharedNodeState, get_peer}
use iroh_raft.Transport.Connections.{Connections}
use iroh_raft.Transport.Sending.{Stream, send_single_message, count_one, IrohRaftTransport}

-- Thirty seconds.
abbrev pub age_limit : ℕ
age_limit = 30 * 1000

abbrev pub batch_limit : ℕ
batch_limit = 100

abbrev or_skip : {A : Type 0} → Option A → Outcome (Unit {0}) A
or_skip none = err tt
or_skip (some a) = ok a

abbrev skip_error : String → Unit {0}
skip_error _ = tt

module _ (wire : Wire) (codec : RpcCodec) (raft : RaftCrate) where
  -- What a round of the loop meets: the clock, and the stream.
  pub record Round : Type 0 where
    pub now : ℕ
    pub stream : Stream wire

  -- What the loop leaves: the queue, the messages it has sent, and the counts.
  pub record Sent : Type 0 where
    pub remaining : Queue raft
    pub sent : Queue raft
    pub messages_sent : List (String × ℕ)

  abbrev pub is_old : Round → BufferedRaftMessage raft → Bool
  is_old round m = ltb age_limit (round.now - m.timestamp)

  -- The loop, from a round and a count of sent messages.
  unfoldable pub send_loop : (ℕ → Round) → ℕ → ℕ → Queue raft → List (String × ℕ) → Sent
  unfolding send_single_message count_one
  send_loop rounds i sent_count [] counts = record {
    remaining = [];
    sent = [];
    messages_sent = counts;
  }
  send_loop rounds i sent_count (m ∷ ms) counts =
      let counted = count_one (raft.show_type (raft.msg_type m.message)) counts in
      let skipped = send_loop rounds (suc i) sent_count ms counts in
      let rest = send_loop rounds (suc i) (suc sent_count) ms counted in
      if is_old (rounds i) m
      then skipped
      else elim (send_single_message wire codec raft (rounds i).stream m.message) [
        | err _ ↦ record { remaining = m ∷ ms; sent = []; messages_sent = counts }
        | ok _ ↦
            if leb batch_limit (suc sent_count)
            then record { remaining = ms; sent = m ∷ []; messages_sent = counted }
            else record rest { sent = m ∷ rest.sent }
      ]

  module _ (iroh : Iroh) where
    -- What the processing of one peer meets: the network, and the rounds over a connection.
    pub record Outlook : Type 0 where
      pub connect : iroh.NodeId → Outcome String iroh.Connection
      pub rounds : iroh.Connection → ℕ → Round

    -- A pooled connection of whatever age, or a new one, which is not pooled; the error stands for
    -- the `continue`s of the source.
    unfoldable pub batch_connection :
        Outlook → SharedNodeState iroh → Connections iroh → ℕ → Outcome (Unit {0}) iroh.Connection
    unfolding get_peer lookup
    batch_connection outlook node connections peer_id = elim (lookup peer_id connections) [
      | some conn ↦ ok conn.connection
      | none ↦ do
        peer_info ← or_skip (get_peer iroh node peer_id)
        text ← or_skip peer_info.p2p_node_id
        iroh_node_id ← map_err skip_error (iroh.parse_node_id text)
        map_err skip_error (outlook.connect iroh_node_id)
    ]

    -- The queue of one peer; what is left of it, and the counts.
    unfoldable pub process_peer :
        Outlook
        → SharedNodeState iroh
        → Connections iroh
        → ℕ
        → Queue raft
        → List (String × ℕ)
        → Sent
    unfolding batch_connection send_loop
    process_peer outlook node connections peer_id [] counts = record {
      remaining = [];
      sent = [];
      messages_sent = counts;
    }
    process_peer outlook node connections peer_id (m ∷ ms) counts =
        elim (batch_connection outlook node connections peer_id) [
          | err _ ↦ record { remaining = m ∷ ms; sent = []; messages_sent = counts }
          | ok connection ↦ send_loop (outlook.rounds connection) 0 0 (m ∷ ms) counts
        ]

    -- The loop over the map; the buffer is locked meanwhile. `outlooks` says what each peer meets.
    unfoldable pub process_message_batches :
        (ℕ → Outlook)
        → SharedNodeState iroh
        → Connections iroh
        → List (ℕ × Queue raft)
        → List (String × ℕ)
        → List (ℕ × Queue raft) × List (String × ℕ)
    unfolding process_peer
    process_message_batches outlooks node connections [] counts = ([], counts)
    process_message_batches outlooks node connections ((peer_id, messages) ∷ rest) counts =
        let done = process_peer (outlooks peer_id) node connections peer_id messages counts in
        let (others, counts') =
          process_message_batches outlooks node connections rest done.messages_sent in
        ((peer_id, done.remaining) ∷ others, counts')

    unfoldable pub process_batches :
        (ℕ → Outlook)
        → IrohRaftTransport wire codec raft iroh
        → IrohRaftTransport wire codec raft iroh
    unfolding process_message_batches
    process_batches outlooks t =
        let (buffer, counts) =
          process_message_batches outlooks t.node t.connections t.message_buffer t.messages_sent in
        record t { message_buffer = buffer; messages_sent = counts }
