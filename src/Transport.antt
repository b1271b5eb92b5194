-- ===== src/Transport.antt =====
-- src/transport/iroh.rs and src/transport/shared.rs: how messages are sent to peers. This file has the
-- priorities of messages, and what is kept of a message that waits for its peer. Times are in milliseconds.
pub mod Buffer
pub mod Stable
pub mod Sorting
pub mod Shared
pub mod Connections
pub mod Sending
pub mod Batches
pub mod Accounts
pub mod Bounds
pub mod Pool
mod Tests
pub mod Acceptance
pub mod Reference
pub mod Idle
pub mod Delivery
use iroh_raft.Common.{ℕ, Bool, ◌||◌, if◌then◌else◌}
use iroh_raft.Raft.{RaftCrate}

pub data RaftMessagePriority : Type 0 where
  election heartbeat log_append snapshot : RaftMessagePriority

unfoldable pub as_u8 : RaftMessagePriority → ℕ
as_u8 election = 0
as_u8 heartbeat = 1
as_u8 log_append = 2
as_u8 snapshot = 3

module _ (raft : RaftCrate) where
  abbrev pub has_type : raft.Message → raft.MessageType → Bool
  has_type msg type = raft.type_eq.beq (raft.msg_type msg) type

  unfoldable pub from_raft_message : raft.Message → RaftMessagePriority
  from_raft_message msg =
      if has_type msg raft.msg_request_vote || has_type msg raft.msg_request_vote_response
      then election
      else if has_type msg raft.msg_heartbeat || has_type msg raft.msg_heartbeat_response
      then heartbeat
      else if has_type msg raft.msg_snapshot
      then snapshot
      else log_append

  pub record BufferedRaftMessage : Type 0 where
    pub message : raft.Message
    pub priority : RaftMessagePriority
    pub timestamp : ℕ
