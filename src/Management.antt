-- ===== src/Management.antt =====
-- ManagementProtocolHandler of src/management/protocol.rs: who may ask for what, the requests that arrive on a stream, and the
-- subscribers to events. bincode and the channel to the cluster manager are parameters, and so is the answer
-- that this gives to a request.
pub mod Responses
pub mod Access
mod Tests
use Prim.Native.String.{String}
use iroh_raft.Common.{
  ℕ, ◌+◌, ◌%◌, ◌≡◌, Bool, true, false, ◌||◌, not, List, [], ◌∷◌, Option, none, some, if◌then◌else◌,
  Outcome, ok, err, map_err, ◌>>=◌, ◌>>◌, fail_if,
}
use iroh_raft.Common.Bytes.{u32_mod}
use iroh_raft.Common.Equality.{Eq, nat_eq}
use iroh_raft.Common.Maps.{lookup, insert, remove}
use iroh_raft.Error.{RaftError}
use iroh_raft.Auth.Operations.{
  ManagementOperation, ManagementRole, admin, observer, member_manager, monitor, get_cluster_status,
  get_health_status, get_metrics,
}
use iroh_raft.Auth.Roles.{only_reads, changes_members}
use iroh_raft.Storage.Codec.{Bytes}
use iroh_raft.Protocol
use iroh_raft.Protocol.{Wire, MessageHeader, internal_error, new_borrowed}
use iroh_raft.Protocol.Frames.{read_message_zero_copy, write_message_zero_copy}
use iroh_raft.Protocol.Rpc.{Inbox}
use iroh_raft.Events.Broadcast.{broadcast}
use iroh_raft.Management.Responses.{
  ManagementMessageType, request, response, event, health_check, error, ManagementRequest,
  ManagementPermissions, ManagementResponse, success_response, error_response,
}

abbrev pub Permissions : Type 0
Permissions = List (ℕ × ManagementPermissions)

unfoldable pub add_permissions : ManagementPermissions → Permissions → Permissions
unfolding insert
add_permissions permissions perms = insert permissions.node_id permissions perms

-- The three operations of a monitor.
abbrev pub monitors : ManagementOperation → Bool
monitors get_cluster_status = true
monitors get_health_status = true
monitors (get_metrics _) = true
monitors _ = false

unfoldable pub role_allows : ManagementRole → ManagementOperation → Bool
role_allows admin operation = true
role_allows observer operation = only_reads operation
role_allows member_manager operation = only_reads operation || changes_members operation
role_allows monitor operation = monitors operation

unfoldable pub check_permission : Permissions → ℕ → ManagementOperation → Bool
unfolding lookup role_allows
check_permission perms node_id operation = elim (lookup node_id perms) [
  | some permissions ↦ role_allows permissions.role operation
  | none ↦ only_reads operation
]

pub record ZeroCopyManagementMessage : Type 0 where
  pub msg_type : ManagementMessageType
  pub request_id : Option Bytes
  pub operation : Option ManagementOperation
  pub payload : Bytes
  pub total_size : ℕ
  pub authorization : Option String

-- bincode's encodings, with what it documents: a request decodes from its encoding.
pub record ManagementCodec (F : Type 0) : Type 0 where
  pub encode_request : ManagementRequest → Outcome String Bytes
  pub decode_request : Bytes → Outcome String ManagementRequest
  pub decode_request-encode_request :
      (r : ManagementRequest) (bs : Bytes) → encode_request r ≡ ok bs → decode_request bs ≡ ok r
  pub encode_response : ManagementResponse F → Outcome String Bytes

abbrev pub message_type : Protocol.MessageType → ManagementMessageType
message_type Protocol.request = request
message_type Protocol.response = response
message_type Protocol.error = error
message_type Protocol.heartbeat = health_check
message_type _ = error

abbrev pub stream_timeout : RaftError
stream_timeout = RaftError.internal "Management stream timeout"

-- The subscribers to events, by identifier; `send` is what a send on a channel leaves of it, or nothing where the receiver is gone. The
-- loop of `publish_event` is the one of EventBroadcaster.
module _ {Event Sender : Type 0} (send : Sender → Event → Option Sender) where
  unfoldable pub subscribe_to_events : List (ℕ × Sender) → ℕ → Sender → List (ℕ × Sender)
  unfolding insert
  subscribe_to_events subscribers id sender = insert id sender subscribers

  unfoldable pub publish_event : List (ℕ × Sender) → Event → List (ℕ × Sender)
  unfolding broadcast
  publish_event subscribers news = broadcast send subscribers news

module _ (wire : Wire) {F : Type 0} (codec : ManagementCodec F)
    (manager : Inbox ManagementRequest) where
  open wire use {Writer, Reader}
  open manager use {Channel}

  unfoldable pub serialize_management_response : ManagementResponse F → Outcome RaftError Bytes
  serialize_management_response r =
      map_err (internal_error "Failed to serialize payload: ") (codec.encode_response r)

  unfoldable pub deserialize_management_request : Bytes → Outcome RaftError ManagementRequest
  deserialize_management_request bytes =
      map_err (internal_error "Failed to deserialize payload: ") (codec.decode_request bytes)

  -- `in_time` says that the sixty seconds of `handle_management_stream` do not elapse in the write.
  unfoldable pub send_management_response :
      Bool → Writer → ManagementResponse F → Option Bytes → Outcome RaftError Writer
  unfolding serialize_management_response write_message_zero_copy new_borrowed
  send_management_response in_time send answer request_id = do
    response_buf ← serialize_management_response answer
    fail_if (not in_time) stream_timeout
    write_message_zero_copy wire send (new_borrowed Protocol.response request_id response_buf)

  -- What the response channel gives; the error is that it was closed.
  abbrev pub answer_of : Outcome (Unit {0}) (ManagementResponse F) → ManagementResponse F
  answer_of (ok answer) = answer
  answer_of (err _) = error_response "Response channel closed"

  unfoldable pub handle_management_request :
      Bool
      → Outcome (Unit {0}) (ManagementResponse F)
      → Writer
      → ZeroCopyManagementMessage
      → Channel
      → Permissions
      → Channel × Outcome RaftError Writer
  unfolding send_management_response deserialize_management_request
  handle_management_request in_time answered send message management_tx _ =
      elim (deserialize_management_request message.payload) [
        | err why ↦ (management_tx, err why)
        | ok r ↦ elim (manager.send management_tx r) [
          | err _ ↦ (
            management_tx,
            send_management_response in_time send (error_response "Cluster manager unavailable")
                message.request_id,
          )
          | ok taken ↦
              (taken, send_management_response in_time send (answer_of answered) message.request_id)
        ]
      ]

  -- A subscription is only logged.
  unfoldable pub handle_event_subscription : Writer → Outcome RaftError Writer
  handle_event_subscription send = ok send

  unfoldable pub handle_health_check :
      Bool → Writer → ZeroCopyManagementMessage → Outcome RaftError Writer
  unfolding send_management_response
  handle_health_check in_time send message =
      send_management_response in_time send success_response message.request_id

  unfoldable pub process_management_message :
      Bool
      → Outcome (Unit {0}) (ManagementResponse F)
      → Writer
      → ZeroCopyManagementMessage
      → Channel
      → Permissions
      → Channel × Outcome RaftError Writer
  unfolding handle_management_request handle_event_subscription handle_health_check
  process_management_message in_time answered send message management_tx permissions =
      elim message.msg_type [
        | request ↦
            handle_management_request in_time answered send message management_tx permissions
        | event ↦ (management_tx, handle_event_subscription send)
        | health_check ↦ (management_tx, handle_health_check in_time send message)
        | _ ↦ (management_tx, ok send)
      ]

  -- The message that is made from a header and a payload.
  abbrev pub management_message : MessageHeader → Bytes → ZeroCopyManagementMessage
  management_message header payload = record {
    msg_type = message_type header.msg_type;
    request_id = header.request_id;
    operation = none;
    payload = payload;
    total_size = (header.payload_len + 4) % u32_mod;
    authorization = none;
  }

  abbrev pub flushed : Writer → Writer
  flushed w = elim (wire.flush w) [ ok w' ↦ w' | err _ ↦ w ]

  -- The sixty seconds may elapse while the message is read, or before the response is written; the wait for the
  -- response counts as part of the latter.
  unfoldable pub handle_management_stream :
      Bool
      → Bool
      → Outcome (Unit {0}) (ManagementResponse F)
      → Writer
      → Reader
      → Channel
      → Permissions
      → Channel × Outcome RaftError Writer
  unfolding process_management_message read_message_zero_copy
  handle_management_stream read_in_time reply_in_time answered send recv management_tx permissions =
      if not read_in_time
      then (management_tx, err stream_timeout)
      else elim (read_message_zero_copy wire recv) [
        | err why ↦ (management_tx, err why)
        | ok ((header, payload), _) ↦
            let (taken, result) =
              process_management_message reply_in_time answered send
                (management_message header payload) management_tx permissions in
            (taken, result >>= (λ w. ok (flushed w)))
      ]
