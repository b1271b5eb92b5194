-- ===== src/Discovery/Tests.antt =====
-- Clusters of a few members: each applies a result at concrete messages.
use iroh_raft.Common.{ℕ, ◌≡◌, refl, arith, List, [], ◌∷◌, none, some}
use iroh_raft.Common.Equality.{string_eq}
use iroh_raft.Common.Maps.{lookup}
use iroh_raft.Auth.Operations.{voter, learner}
use iroh_raft.Events.{healthy, degraded}
use iroh_raft.Discovery.{
  ClusterInfo, DiscoveryMessage, announce, heartbeat, departure, ClusterDiscovery, new,
  discover_cluster, process_discovery_message, known_version,
}
use iroh_raft.Discovery.Views.{view, process_all, process_all-effects}
use iroh_raft.Discovery.Caching.{discover_cluster-announce}

abbrev messages : List (ℕ × DiscoveryMessage)
messages =
    (10, announce 7 "east" voter "0.2.0" ("host:1" ∷ []) healthy none)
    ∷ (20, announce 8 "east" learner "0.2.0" [] healthy none)
    ∷ (30, heartbeat 7 "east" degraded 29)
    ∷ (40, departure 8 "east" "stopped")
    ∷ []

process_all-effects_example :
    view (process_all messages new) "east" 7
    ≡ some (record {
      node_id = 7;
      address = "host:1";
      role = voter;
      health = degraded;
      last_seen = 30;
      version = known_version;
    })
unfolding view new
process_all-effects_example = process_all-effects messages new "east" 7

abbrev old_info : ClusterInfo
old_info = record {
  cluster_id = "east";
  members = [];
  leader = none;
  version = "0.1.0";
  discovered_at = 1000;
}

abbrev knowing : ClusterDiscovery
knowing = record {
  clusters = ("east", old_info) ∷ [];
  discovery_timeout = 30000;
  heartbeat_interval = 10000;
  local_node_id = none;
  local_cluster_id = none;
}

knowing_old : lookup "east" knowing.clusters ≡ some old_info
unfolding lookup
knowing_old = refl

discover_cluster-announce_example :
    view
      (discover_cluster 61000
        (process_discovery_message 61000 knowing
          (announce 0 "east" voter "0.2.0" ("host:1" ∷ []) healthy none)).0
        "east").0
      "east"
      0
    ≡ none
discover_cluster-announce_example =
    discover_cluster-announce 61000 knowing old_info 0 "east" voter "0.2.0" ("host:1" ∷ []) healthy
      none knowing_old (omega arith) (λ e. omega (arith, e)) (λ e. omega (arith, e))
      (λ e. omega (arith, e))
