-- ===== src/Raft.antt =====
-- What the sources use of raft-rs and prost, as a parameter, and the encoding of messages in
-- src/raft/messages.rs and src/transport/protocol.rs.
pub mod Routes
use Prim.Native.String.{String}
use iroh_raft.Common.{ℕ, ◌≡◌, List, Option, none, some, Outcome, ok, err, map_err}
use iroh_raft.Common.Equality.{Eq}
use iroh_raft.Error.{RaftError, serialization, foreign}

-- `show_type` is what `{:?}` writes of a type. prost documents that a message decodes from its encoding; `encode` fails
-- only for want of room in the buffer.
pub record RaftCrate : Type 1 where
  pub Message : Type 0
  pub MessageType : Type 0
  pub msg_type : Message → MessageType
  pub from : Message → ℕ
  pub to : Message → ℕ
  pub type_eq : Eq MessageType
  pub show_type : MessageType → String
  pub msg_hup : MessageType
  pub msg_beat : MessageType
  pub msg_propose : MessageType
  pub msg_append : MessageType
  pub msg_append_response : MessageType
  pub msg_request_vote : MessageType
  pub msg_request_vote_response : MessageType
  pub msg_snapshot : MessageType
  pub msg_heartbeat : MessageType
  pub msg_heartbeat_response : MessageType
  pub encode_to_vec : Message → List ℕ
  pub decode : List ℕ → Option Message
  pub decode-encode_to_vec : (m : Message) → decode (encode_to_vec m) ≡ some m

module _ (raft : RaftCrate) where
  unfoldable pub serialize_message : raft.Message → Outcome RaftError (List ℕ)
  serialize_message msg = ok (raft.encode_to_vec msg)

  unfoldable pub deserialize_message : List ℕ → Outcome RaftError raft.Message
  deserialize_message bytes = elim (raft.decode bytes) [
    | some msg ↦ ok msg
    | none ↦ err (serialization "Message" foreign)
  ]

  unfoldable pub deserialize_raft_message_fast : List ℕ → Outcome RaftError raft.Message
  deserialize_raft_message_fast bytes = elim (raft.decode bytes) [
    | some msg ↦ ok msg
    | none ↦ err (serialization "RaftMessage" foreign)
  ]
