-- ===== src/Config/Types.antt =====
-- src/config.rs: the settings and their default values. Durations are in milliseconds; a path is a string.
use Prim.Native.String.{String}
use iroh_raft.Common.{ℕ, Bool, List, Option}
use iroh_raft.Config.Outside.{Host}

pub data ReadOnlyOption : Type 0 where
  disabled leader_lease read_index : ReadOnlyOption

pub data StorageBackend : Type 0 where
  redb memory : StorageBackend
  custom : String → StorageBackend

pub data SyncStrategy : Type 0 where
  no_sync always periodic on_commit : SyncStrategy

pub record NodeMetadata : Type 0 where
  pub name : Option String
  pub zone : Option String
  pub tags : List (String × String)

pub record NodeConfig : Type 0 where
  pub id : Option ℕ
  pub data_dir : String
  pub debug : Bool
  pub metadata : NodeMetadata

pub record CompactionConfig : Type 0 where
  pub enabled : Bool
  pub threshold_entries : ℕ
  pub threshold_bytes : ℕ
  pub check_interval : ℕ
  pub retain_entries : ℕ

pub record SnapshotConfig : Type 0 where
  pub enabled : Bool
  pub threshold_entries : ℕ
  pub threshold_bytes : ℕ
  pub compression_level : ℕ
  pub creation_timeout : ℕ

pub record RaftConfig : Type 0 where
  pub election_timeout_min : ℕ
  pub election_timeout_max : ℕ
  pub heartbeat_interval : ℕ
  pub max_uncommitted_entries : ℕ
  pub max_inflight_msgs : ℕ
  pub compaction : CompactionConfig
  pub snapshot : SnapshotConfig
  pub config_change_timeout : ℕ
  pub pre_vote : Bool
  pub read_only_option : ReadOnlyOption

pub record ConnectionConfig : Type 0 where
  pub connect_timeout : ℕ
  pub keep_alive_interval : ℕ
  pub max_connections_per_peer : ℕ
  pub idle_timeout : ℕ
  pub max_message_size : ℕ
  pub enable_pooling : Bool

pub record DiscoveryConfig : Type 0 where
  pub enable_mdns : Bool
  pub enable_dht : Bool
  pub bootstrap_nodes : List String
  pub discovery_interval : ℕ

pub record PortMappingConfig : Type 0 where
  pub enable_upnp : Bool
  pub enable_pcp : Bool
  pub mapping_timeout : ℕ

pub record IrohConfig : Type 0 where
  pub relay_url : Option String
  pub stun_servers : List String
  pub discovery : DiscoveryConfig
  pub alpn_protocols : List String
  pub enable_ipv6 : Bool
  pub port_mapping : PortMappingConfig

pub record StorageConfig : Type 0 where
  pub backend : StorageBackend
  pub sync_strategy : SyncStrategy
  pub cache_size_mb : ℕ
  pub enable_wal : Bool
  pub wal_sync_interval : ℕ
  pub file_permissions : ℕ

pub record LoggingConfig : Type 0 where
  pub level : String
  pub format : String
  pub structured : Bool
  pub file : Option String
  pub max_file_size_mb : ℕ
  pub max_files : ℕ

module _ (host : Host) where
  pub record TransportConfig : Type 0 where
    pub bind_address : host.SocketAddr
    pub peers : List host.SocketAddr
    pub connection : ConnectionConfig
    pub iroh : IrohConfig

  pub record MetricsConfig : Type 0 where
    pub enabled : Bool
    pub bind_address : Option host.SocketAddr
    pub collection_interval : ℕ
    pub prometheus : Bool
    pub prefix : String

  pub record TracingConfig : Type 0 where
    pub enabled : Bool
    pub otlp_endpoint : Option String
    pub sample_rate : host.F64
    pub max_spans_per_trace : ℕ

  pub record ObservabilityConfig : Type 0 where
    pub logging : LoggingConfig
    pub metrics : MetricsConfig
    pub tracing : TracingConfig

  pub record Config : Type 0 where
    pub node : NodeConfig
    pub raft : RaftConfig
    pub transport : TransportConfig
    pub storage : StorageConfig
    pub observability : ObservabilityConfig
