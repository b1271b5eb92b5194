-- ===== src/Protocol/Rpc.antt =====
-- The requests and responses of src/transport/protocol.rs, and its RaftProtocolHandler: what a node does with a
-- message that arrives on a stream.
use Prim.Native.String.{String, ◌++◌ as concat}
use iroh_raft.Common.{
  ℕ, ◌≡◌, Bool, true, false, ◌&&◌, not, List, [], ◌∷◌, ◌++◌, Option, none, some, if◌then◌else◌,
  Outcome, ok, err, map_err, ◌>>=◌, ◌>>◌, fail_if,
}
use iroh_raft.Common.Equality.{string_eq}
use iroh_raft.Error.{RaftError}
use iroh_raft.Raft.{RaftCrate, deserialize_raft_message_fast}
use iroh_raft.Storage.Codec.{Bytes}
use iroh_raft.Protocol.{
  Wire, request, response, raft_message, ZeroCopyMessage, internal_error, new_borrowed,
}
use iroh_raft.Protocol.Frames.{write_message_zero_copy, read_zero_copy_message}

pub record RpcRequest : Type 0 where
  pub service : String
  pub method : String
  pub payload : Bytes

pub record RpcResponse : Type 0 where
  pub success : Bool
  pub payload : Option Bytes
  pub error : Option String

-- bincode's encodings, with what it documents: a request decodes from its encoding.
pub record RpcCodec : Type 0 where
  pub encode_request : RpcRequest → Outcome String Bytes
  pub decode_request : Bytes → Outcome String RpcRequest
  pub decode_request-encode_request :
      (r : RpcRequest) (bs : Bytes) → encode_request r ≡ ok bs → decode_request bs ≡ ok r
  pub encode_response : RpcResponse → Outcome String Bytes

-- tokio's unbounded channel, with what it documents: a message is taken as long as the receiver is there.
pub record Inbox (M : Type 0) : Type 1 where
  pub Channel : Type 0
  pub queued : Channel → List M
  pub has_receiver : Channel → Bool
  pub send : Channel → M → Outcome String Channel
  pub send_open :
      (c : Channel) (m : M)
      → has_receiver c ≡ true
      → (c' : Channel) × (send c m ≡ ok c') × (queued c' ≡ queued c ++ (m ∷ []))
  pub send_closed :
      (c : Channel) (m : M) → has_receiver c ≡ false → (why : String) × (send c m ≡ err why)

-- The request that carries a message of Raft.
abbrev pub raft_request : Bytes → RpcRequest
raft_request payload = record { service = "raft"; method = "raft.message"; payload = payload }

abbrev pub success_response : RpcResponse
success_response = record { success = true; payload = none; error = none }

abbrev pub failure_response : String → RpcResponse
failure_response why = record { success = false; payload = none; error = some why }

abbrev pub stream_timeout : RaftError
stream_timeout = RaftError.internal "Stream processing timeout"

unfoldable pub is_raft_message : RpcRequest → Bool
is_raft_message r = string_eq.beq r.service "raft" && string_eq.beq r.method "raft.message"

module _ (codec : RpcCodec) where
  -- `serialize_payload`, of a request, and its variant into a buffer, of a response.
  unfoldable pub serialize_request : RpcRequest → Outcome RaftError Bytes
  serialize_request r =
      map_err (internal_error "Failed to serialize payload: ") (codec.encode_request r)

  unfoldable pub serialize_response : RpcResponse → Outcome RaftError Bytes
  serialize_response r =
      map_err (internal_error "Failed to serialize payload: ") (codec.encode_response r)

  unfoldable pub deserialize_request : Bytes → Outcome RaftError RpcRequest
  deserialize_request bytes =
      map_err (internal_error "Failed to deserialize payload: ") (codec.decode_request bytes)

module _ (wire : Wire) (codec : RpcCodec) (raft : RaftCrate)
    (inbox : Inbox (ℕ × raft.Message)) where
  open wire use {Writer, Reader}
  open inbox use {Channel}

  -- The end of `handle_rpc_request_zero_copy`. `in_time` says that the thirty seconds of `handle_stream`
  -- do not elapse in the write.
  unfoldable pub reply : Bool → Writer → ZeroCopyMessage → RpcResponse → Outcome RaftError Writer
  reply in_time send message answer = do
    response_buf ← serialize_response codec answer
    fail_if (not in_time) stream_timeout
    write_message_zero_copy wire send (new_borrowed response message.request_id response_buf)

  -- The branch of a request for the Raft service.
  unfoldable pub forward_request :
      Bool → Writer → ZeroCopyMessage → Channel → RpcRequest → Channel × Outcome RaftError Writer
  unfolding reply
  forward_request in_time send message raft_rx_tx r =
      elim (deserialize_raft_message_fast raft r.payload) [
        | err why ↦ (raft_rx_tx, err why)
        | ok msg ↦ elim (inbox.send raft_rx_tx (raft.from msg, msg)) [
          | err why ↦ (
            raft_rx_tx,
            reply in_time send message
                (failure_response (concat "Failed to process message: " why)),
          )
          | ok taken ↦ (taken, reply in_time send message success_response)
        ]
      ]

  unfoldable pub handle_rpc_request_zero_copy :
      Bool → Writer → ZeroCopyMessage → Channel → Channel × Outcome RaftError Writer
  unfolding forward_request reply
  handle_rpc_request_zero_copy in_time send message raft_rx_tx =
      elim (deserialize_request codec message.payload) [
        | err why ↦ (raft_rx_tx, err why)
        | ok r ↦ if is_raft_message r then forward_request in_time send message raft_rx_tx r else (
          raft_rx_tx,
          reply in_time send message (
              failure_response
                (concat "Unknown service/method: " (concat r.service (concat "/" r.method)))),
        )
      ]

  unfoldable pub handle_direct_raft_message_zero_copy :
      Writer → ZeroCopyMessage → Channel → Channel × Outcome RaftError Writer
  handle_direct_raft_message_zero_copy send message raft_rx_tx =
      elim (deserialize_raft_message_fast raft message.payload) [
        | err why ↦ (raft_rx_tx, err why)
        | ok msg ↦ elim (inbox.send raft_rx_tx (raft.from msg, msg)) [
          | err why ↦ (raft_rx_tx, ok send)
          | ok taken ↦ (taken, ok send)
        ]
      ]

  unfoldable pub process_message_zero_copy :
      Bool → Writer → ZeroCopyMessage → Channel → Channel × Outcome RaftError Writer
  unfolding handle_rpc_request_zero_copy handle_direct_raft_message_zero_copy
  process_message_zero_copy in_time send message raft_rx_tx = elim message.msg_type [
    | request ↦ handle_rpc_request_zero_copy in_time send message raft_rx_tx
    | raft_message ↦ handle_direct_raft_message_zero_copy send message raft_rx_tx
    | _ ↦ (raft_rx_tx, ok send)
  ]

  -- A flush that fails is only logged.
  abbrev pub flushed : Writer → Writer
  flushed w = elim (wire.flush w) [ ok w' ↦ w' | err _ ↦ w ]

  -- The thirty seconds may elapse while the message is read or while the response is written. What
  -- the handler leaves: the channel to the Raft manager, and the stream or the error.
  unfoldable pub handle_stream :
      Bool → Bool → Writer → Reader → Channel → Channel × Outcome RaftError Writer
  unfolding process_message_zero_copy
  handle_stream read_in_time reply_in_time send recv raft_rx_tx =
      if not read_in_time
      then (raft_rx_tx, err stream_timeout)
      else elim (read_zero_copy_message wire recv) [
        | err why ↦ (raft_rx_tx, err why)
        | ok (message, _) ↦
            let (taken, result) = process_message_zero_copy reply_in_time send message raft_rx_tx in
            (taken, result >>= (λ w. ok (flushed w)))
      ]
