-- ===== src/Config/Builder.antt =====
-- src/config.rs: `ConfigBuilder`, which is a `Config` under construction.
use Prim.Native.String.{String}
use iroh_raft.Common.{
  ℕ, ◌+◌, Bool, true, false, List, [], ◌∷◌, ◌++◌, Option, some, Outcome, ok, err, ◌>>=◌,
}
use iroh_raft.Common.Equality.{string_eq}
use iroh_raft.Common.Maps.{insert}
use iroh_raft.Config.Outside.{Host}
use iroh_raft.Config.Types.{
  Config, MetricsConfig, ReadOnlyOption, StorageBackend, SyncStrategy, memory, no_sync, periodic,
  on_commit,
}
use iroh_raft.Config.Defaults.{
  default, default_raft, default_storage, default_observability, default_logging, default_metrics,
}
use iroh_raft.Config.{ConfigError, validate}

module _ (host : Host) where
  abbrev pub new : Config host
  new = default host

  -- A preset's timing, log level and storage.
  abbrev pub preset : ℕ → ℕ → ℕ → String → SyncStrategy → Config host
  preset min max heartbeat level sync = record (default host) {
    raft = record default_raft {
      election_timeout_min = min;
      election_timeout_max = max;
      heartbeat_interval = heartbeat;
    };
    observability = record (default_observability host) {
      logging = record default_logging { level = level };
    };
    storage = record default_storage { sync_strategy = sync };
  }

  abbrev pub development_preset : Config host
  development_preset = preset 1000 2000 250 "debug" periodic

  abbrev pub production_preset : Config host
  production_preset = preset 5000 10000 1000 "info" on_commit

  abbrev pub testing_preset : Config host
  testing_preset =
      let c : Config host = preset 500 1000 100 "warn" no_sync in
      record c {
        observability = record c.observability {
          metrics = record (default_metrics host) { enabled = false };
        };
        storage = record c.storage { backend = memory };
      }

  abbrev pub node_id : Config host → ℕ → Config host
  node_id c id = record c { node = record c.node { id = some id } }

  abbrev pub data_dir : Config host → String → Config host
  data_dir c dir = record c { node = record c.node { data_dir = dir } }

  abbrev pub debug : Config host → Bool → Config host
  debug c on = record c { node = record c.node { debug = on } }

  abbrev pub node_name : Config host → String → Config host
  node_name c name = record c {
    node = record c.node { metadata = record c.node.metadata { name = some name } };
  }

  abbrev pub node_zone : Config host → String → Config host
  node_zone c zone = record c {
    node = record c.node { metadata = record c.node.metadata { zone = some zone } };
  }

  unfoldable pub add_node_tag : Config host → String → String → Config host
  add_node_tag c key value = record c {
    node = record c.node {
      metadata = record c.node.metadata { tags = insert key value c.node.metadata.tags };
    };
  }

  abbrev parsed_or_random : Outcome String host.SocketAddr → host.SocketAddr
  parsed_or_random (ok address) = address
  parsed_or_random (err why) = host.random_port

  abbrev pub bind_address : Config host → String → Config host
  bind_address c addr = record c {
    transport = record c.transport { bind_address = parsed_or_random (host.parse_address addr) };
  }

  -- An address that does not parse is dropped.
  unfoldable pub add_peer : Config host → String → Config host
  add_peer c addr = elim (host.parse_address addr) [
    | ok address ↦ record c {
      transport = record c.transport { peers = c.transport.peers ++ (address ∷ []) };
    }
    | err why ↦ c
  ]

  unfoldable pub parsed_ones : List String → List host.SocketAddr
  parsed_ones [] = []
  parsed_ones (addr ∷ addrs) =
      let rest = parsed_ones addrs in
      elim (host.parse_address addr) [ ok address ↦ address ∷ rest | err why ↦ rest ]

  unfoldable pub peers : Config host → List String → Config host
  unfolding parsed_ones
  peers c addrs = record c { transport = record c.transport { peers = parsed_ones addrs } }

  abbrev pub election_timeout : Config host → ℕ → Config host
  election_timeout c min = record c {
    raft = record c.raft { election_timeout_min = min; election_timeout_max = min + 2000 };
  }

  abbrev pub heartbeat_interval : Config host → ℕ → Config host
  heartbeat_interval c interval = record c {
    raft = record c.raft { heartbeat_interval = interval };
  }

  abbrev pub pre_vote : Config host → Bool → Config host
  pre_vote c enabled = record c { raft = record c.raft { pre_vote = enabled } }

  abbrev pub read_only_option : Config host → ReadOnlyOption → Config host
  read_only_option c option = record c { raft = record c.raft { read_only_option = option } }

  abbrev pub log_compaction : Config host → Bool → ℕ → Config host
  log_compaction c enabled threshold = record c {
    raft = record c.raft {
      compaction = record c.raft.compaction { enabled = enabled; threshold_entries = threshold };
    };
  }

  abbrev pub snapshots : Config host → Bool → ℕ → ℕ → Config host
  snapshots c enabled threshold level = record c {
    raft = record c.raft {
      snapshot = record c.raft.snapshot {
        enabled = enabled;
        threshold_entries = threshold;
        compression_level = level;
      };
    };
  }

  abbrev pub storage_backend : Config host → StorageBackend → Config host
  storage_backend c backend = record c { storage = record c.storage { backend = backend } }

  abbrev pub sync_strategy : Config host → SyncStrategy → Config host
  sync_strategy c strategy = record c { storage = record c.storage { sync_strategy = strategy } }

  abbrev pub log_level : Config host → String → Config host
  log_level c level = record c {
    observability = record c.observability {
      logging = record c.observability.logging { level = level };
    };
  }

  abbrev pub cache_size_mb : Config host → ℕ → Config host
  cache_size_mb c size_mb = record c { storage = record c.storage { cache_size_mb = size_mb } }

  abbrev with_metrics : Config host → MetricsConfig host → Config host
  with_metrics c m = record c { observability = record c.observability { metrics = m } }

  abbrev pub metrics : Config host → Bool → Config host
  metrics c enabled = with_metrics c (record c.observability.metrics { enabled = enabled })

  abbrev kept_if_invalid :
      Option host.SocketAddr → Outcome String host.SocketAddr → Option host.SocketAddr
  kept_if_invalid old (ok address) = some address
  kept_if_invalid old (err why) = old

  abbrev pub metrics_address : Config host → String → Config host
  metrics_address c addr =
      let m = c.observability.metrics in
      with_metrics c
        (record m { bind_address = kept_if_invalid m.bind_address (host.parse_address addr) })

  abbrev pub tracing : Config host → String → Config host
  tracing c otlp_endpoint = record c {
    observability = record c.observability {
      tracing = record c.observability.tracing {
        enabled = true;
        otlp_endpoint = some otlp_endpoint;
      };
    };
  }

  abbrev pub relay_server : Config host → String → Config host
  relay_server c url = record c {
    transport = record c.transport { iroh = record c.transport.iroh { relay_url = some url } };
  }

  abbrev pub enable_mdns_discovery : Config host → Bool → Config host
  enable_mdns_discovery c enabled = record c {
    transport = record c.transport {
      iroh = record c.transport.iroh {
        discovery = record c.transport.iroh.discovery { enable_mdns = enabled };
      };
    };
  }

  abbrev pub tracing_sample_rate : Config host → host.F64 → Config host
  tracing_sample_rate c rate = record c {
    observability = record c.observability {
      tracing = record c.observability.tracing { sample_rate = rate };
    };
  }

  unfoldable pub build : Config host → Outcome ConfigError (Config host)
  unfolding validate
  build c = validate host c >>= λ _. ok c
