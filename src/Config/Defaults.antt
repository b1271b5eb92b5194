-- ===== src/Config/Defaults.antt =====
-- src/config.rs: the implementations of `Default`.
use iroh_raft.Common.{◌*◌, true, false, [], ◌∷◌, none, some}
use iroh_raft.Config.Outside.{Host}
use iroh_raft.Config.Types.{
  disabled, redb, periodic, NodeMetadata, NodeConfig, CompactionConfig, SnapshotConfig, RaftConfig,
  ConnectionConfig, DiscoveryConfig, PortMappingConfig, IrohConfig, TransportConfig, StorageConfig,
  LoggingConfig, MetricsConfig, TracingConfig, ObservabilityConfig, Config,
}

abbrev pub default_metadata : NodeMetadata
default_metadata = record { name = none; zone = none; tags = [] }

abbrev pub default_node : NodeConfig
default_node = record { id = none; data_dir = "./data"; debug = false; metadata = default_metadata }

abbrev pub default_compaction : CompactionConfig
default_compaction = record {
  enabled = true;
  threshold_entries = 10000;
  threshold_bytes = 100 * 1024 * 1024;
  check_interval = 300000;
  retain_entries = 1000;
}

abbrev pub default_snapshot : SnapshotConfig
default_snapshot = record {
  enabled = true;
  threshold_entries = 50000;
  threshold_bytes = 500 * 1024 * 1024;
  compression_level = 3;
  creation_timeout = 300000;
}

abbrev pub default_raft : RaftConfig
default_raft = record {
  election_timeout_min = 3000;
  election_timeout_max = 5000;
  heartbeat_interval = 1000;
  max_uncommitted_entries = 10000;
  max_inflight_msgs = 256;
  compaction = default_compaction;
  snapshot = default_snapshot;
  config_change_timeout = 30000;
  pre_vote = true;
  read_only_option = disabled;
}

abbrev pub default_connection : ConnectionConfig
default_connection = record {
  connect_timeout = 10000;
  keep_alive_interval = 30000;
  max_connections_per_peer = 10;
  idle_timeout = 300000;
  max_message_size = 16 * 1024 * 1024;
  enable_pooling = true;
}

abbrev pub default_discovery : DiscoveryConfig
default_discovery = record {
  enable_mdns = true;
  enable_dht = false;
  bootstrap_nodes = [];
  discovery_interval = 30000;
}

abbrev pub default_port_mapping : PortMappingConfig
default_port_mapping = record { enable_upnp = true; enable_pcp = false; mapping_timeout = 30000 }

abbrev pub default_iroh : IrohConfig
default_iroh = record {
  relay_url = some "https://relay.iroh.network";
  stun_servers = "stun.l.google.com:19302" ∷ "stun1.l.google.com:19302" ∷ [];
  discovery = default_discovery;
  alpn_protocols = "iroh-raft/1.0" ∷ [];
  enable_ipv6 = true;
  port_mapping = default_port_mapping;
}

abbrev pub default_storage : StorageConfig
default_storage = record {
  backend = redb;
  sync_strategy = periodic;
  cache_size_mb = 128;
  enable_wal = true;
  wal_sync_interval = 1000;
  file_permissions = 6 * 64;
}

abbrev pub default_logging : LoggingConfig
default_logging = record {
  level = "info";
  format = "pretty";
  structured = false;
  file = none;
  max_file_size_mb = 100;
  max_files = 10;
}

module _ (host : Host) where
  abbrev pub default_transport : TransportConfig host
  default_transport = record {
    bind_address = host.random_port;
    peers = [];
    connection = default_connection;
    iroh = default_iroh;
  }

  abbrev pub default_metrics : MetricsConfig host
  default_metrics = record {
    enabled = true;
    bind_address = none;
    collection_interval = 15000;
    prometheus = true;
    prefix = "iroh_raft";
  }

  abbrev pub default_tracing : TracingConfig host
  default_tracing = record {
    enabled = false;
    otlp_endpoint = none;
    sample_rate = host.tenth;
    max_spans_per_trace = 1000;
  }

  abbrev pub default_observability : ObservabilityConfig host
  default_observability = record {
    logging = default_logging;
    metrics = default_metrics;
    tracing = default_tracing;
  }

  abbrev pub default : Config host
  default = record {
    node = default_node;
    raft = default_raft;
    transport = default_transport;
    storage = default_storage;
    observability = default_observability;
  }
