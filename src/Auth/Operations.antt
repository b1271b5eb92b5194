-- ===== src/Auth/Operations.antt =====
-- src/management/mod.rs: the roles, and the operations that they are allowed or denied.
use Prim.Native.String.{String}
use iroh_raft.Common.{ℕ, List, Option, none, some}

pub data ManagementRole : Type 0 where
  admin observer member_manager monitor : ManagementRole

pub data MemberRole : Type 0 where
  voter learner member_observer : MemberRole

pub data MetricCategory : Type 0 where
  raft transport storage performance system : MetricCategory

pub record RaftState : Type 0 where
  pub term : ℕ
  pub vote : Option ℕ
  pub leader : Option ℕ
  pub commit_index : ℕ
  pub last_applied : ℕ
  pub log_length : ℕ

pub record ClusterConfig : Type 0 where
  pub cluster_id : String
  pub heartbeat_interval : ℕ
  pub election_timeout : ℕ
  pub max_log_entries : ℕ
  pub snapshot_threshold : ℕ
  pub compaction_threshold : ℕ

pub record BackupMetadata : Type 0 where
  pub backup_id : String
  pub description : String
  pub created_at : ℕ
  pub cluster_state : RaftState

pub data ManagementOperation : Type 0 where
  get_cluster_status : ManagementOperation
  add_member : ℕ → String → MemberRole → ManagementOperation
  remove_member : ℕ → ManagementOperation
  update_member_role : ℕ → MemberRole → ManagementOperation
  transfer_leadership : Option ℕ → ManagementOperation
  step_down : ManagementOperation
  get_configuration : ManagementOperation
  update_configuration : ClusterConfig → ManagementOperation
  get_metrics : List MetricCategory → ManagementOperation
  get_health_status : ManagementOperation
  get_log_info : ManagementOperation
  compact_log : ℕ → ManagementOperation
  get_log_entries : ℕ → ℕ → ManagementOperation
  trigger_snapshot : ManagementOperation
  get_snapshot_info : ManagementOperation
  create_backup : BackupMetadata → ManagementOperation
  restore_backup : String → ManagementOperation
  list_backups : ManagementOperation

unfoldable pub operation_to_string : ManagementOperation → String
operation_to_string get_cluster_status = "get_cluster_status"
operation_to_string (add_member _ _ _) = "add_member"
operation_to_string (remove_member _) = "remove_member"
operation_to_string (update_member_role _ _) = "update_member_role"
operation_to_string (transfer_leadership _) = "transfer_leadership"
operation_to_string step_down = "step_down"
operation_to_string get_configuration = "get_configuration"
operation_to_string (update_configuration _) = "update_configuration"
operation_to_string (get_metrics _) = "get_metrics"
operation_to_string get_health_status = "get_health_status"
operation_to_string get_log_info = "get_log_info"
operation_to_string (compact_log _) = "compact_log"
operation_to_string (get_log_entries _ _) = "get_log_entries"
operation_to_string trigger_snapshot = "trigger_snapshot"
operation_to_string get_snapshot_info = "get_snapshot_info"
operation_to_string (create_backup _) = "create_backup"
operation_to_string (restore_backup _) = "restore_backup"
operation_to_string list_backups = "list_backups"

unfoldable pub operation_target_node : ManagementOperation → Option ℕ
operation_target_node (add_member node_id _ _) = some node_id
operation_target_node (remove_member node_id) = some node_id
operation_target_node (update_member_role node_id _) = some node_id
operation_target_node (transfer_leadership target_node) = target_node
operation_target_node _ = none
