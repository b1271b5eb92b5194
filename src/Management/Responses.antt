-- ===== src/Management/Responses.antt =====
-- The requests and responses of the management interface, in src/management/mod.rs. `F` stands for a floating-point
-- number; durations and times are numbers.
use Prim.Native.String.{String}
use iroh_raft.Common.{ℕ, Bool, List, Option}
use iroh_raft.Auth.Operations.{ManagementRole, ManagementOperation, RaftState, ClusterConfig}
use iroh_raft.Events.{HealthStatus}
use iroh_raft.Discovery.{ClusterMember}

pub data ManagementMessageType : Type 0 where
  request response event health_check error : ManagementMessageType

pub record ManagementRequest : Type 0 where
  pub operation : ManagementOperation
  pub timeout : Option ℕ
  pub authorization : Option String

pub record ManagementPermissions : Type 0 where
  pub node_id : ℕ
  pub role : ManagementRole
  pub allowed_operations : List ManagementOperation

pub record ClusterHealthStatus : Type 0 where
  pub status : HealthStatus
  pub healthy_members : ℕ
  pub total_members : ℕ
  pub quorum_available : Bool
  pub leader_available : Bool

pub record ClusterStatusResponse : Type 0 where
  pub cluster_id : String
  pub leader : Option ℕ
  pub term : ℕ
  pub members : List ClusterMember
  pub health : ClusterHealthStatus
  pub raft_state : RaftState

pub record MemberOperationResponse : Type 0 where
  pub success : Bool
  pub member_id : Option ℕ
  pub error : Option String

pub record LeadershipResponse : Type 0 where
  pub success : Bool
  pub new_leader : Option ℕ
  pub transfer_duration : Option ℕ
  pub error : Option String

pub record ConfigurationResponse : Type 0 where
  pub config : ClusterConfig
  pub version : ℕ

pub record MetricsResponse (F : Type 0) : Type 0 where
  pub metrics : List (String × F)
  pub timestamp : ℕ

pub record HealthResponse : Type 0 where
  pub overall_health : HealthStatus
  pub cluster_health : ClusterHealthStatus
  pub node_health : List (ℕ × HealthStatus)

pub record LogInfoResponse : Type 0 where
  pub first_index : ℕ
  pub last_index : ℕ
  pub committed_index : ℕ
  pub total_entries : ℕ
  pub total_size_bytes : ℕ

pub record LogEntry : Type 0 where
  pub index : ℕ
  pub term : ℕ
  pub entry_type : String
  pub data_size : ℕ
  pub timestamp : ℕ

pub record LogEntriesResponse : Type 0 where
  pub entries : List LogEntry
  pub start_index : ℕ
  pub end_index : ℕ

pub record SnapshotInfoResponse : Type 0 where
  pub last_included_index : ℕ
  pub last_included_term : ℕ
  pub size_bytes : ℕ
  pub created_at : ℕ

pub record BackupOperationResponse : Type 0 where
  pub success : Bool
  pub backup_id : Option String
  pub size_bytes : Option ℕ
  pub error : Option String

pub record BackupInfo : Type 0 where
  pub backup_id : String
  pub description : String
  pub created_at : ℕ
  pub size_bytes : ℕ
  pub cluster_state : RaftState

pub record BackupListResponse : Type 0 where
  pub backups : List BackupInfo

pub data ManagementResponse (F : Type 0) : Type 0 where
  cluster_status : ClusterStatusResponse → ManagementResponse F
  member_operation : MemberOperationResponse → ManagementResponse F
  leadership : LeadershipResponse → ManagementResponse F
  configuration : ConfigurationResponse → ManagementResponse F
  metrics : MetricsResponse F → ManagementResponse F
  health : HealthResponse → ManagementResponse F
  log_info : LogInfoResponse → ManagementResponse F
  log_entries : LogEntriesResponse → ManagementResponse F
  snapshot_info : SnapshotInfoResponse → ManagementResponse F
  backup_operation : BackupOperationResponse → ManagementResponse F
  backup_list : BackupListResponse → ManagementResponse F
  success_response : ManagementResponse F
  error_response : String → ManagementResponse F
