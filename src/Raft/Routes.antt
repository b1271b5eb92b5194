-- ===== src/Raft/Routes.antt =====
-- The routing information of src/raft/messages.rs.
use iroh_raft.Common.{ℕ, if◌then◌else◌}
use iroh_raft.Raft.{RaftCrate}

pub data MessageType : Type 0 where
  vote heartbeat append snapshot vote_response heartbeat_response append_response
        snapshot_response :
      MessageType

pub record MessageRoute : Type 0 where
  pub from : ℕ
  pub to : ℕ
  pub msg_type : MessageType

module _ (raft : RaftCrate) where
  -- `MessageType::from`, of a message; the types of raft-rs are different from each other.
  unfoldable pub route_type : raft.Message → MessageType
  route_type msg =
      let is = raft.type_eq.beq (raft.msg_type msg) in
      if is raft.msg_hup
      then vote
      else if is raft.msg_beat
      then heartbeat
      else if is raft.msg_propose
      then append
      else if is raft.msg_append
      then append
      else if is raft.msg_append_response
      then append_response
      else if is raft.msg_request_vote
      then vote
      else if is raft.msg_request_vote_response
      then vote_response
      else if is raft.msg_snapshot
      then snapshot
      else if is raft.msg_heartbeat
      then heartbeat
      else if is raft.msg_heartbeat_response
      then heartbeat_response
      else heartbeat

  unfoldable pub from_message : raft.Message → MessageRoute
  unfolding route_type
  from_message msg = record { from = raft.from msg; to = raft.to msg; msg_type = route_type msg }
