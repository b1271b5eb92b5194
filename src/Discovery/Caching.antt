-- ===== src/Discovery/Caching.antt =====
-- discover_cluster of src/management/discovery.rs: how long a cluster is remembered.
use Prim.Native.String.{String}
use iroh_raft.Common.{
  ℕ, ◌-◌, ◌≤◌, ◌<◌, ◌≡◌, ◌≢◌, refl, ap, ◌∙◌, false, List, Option, none, some, ◌==◌, le→leb, lt→ltb,
  le→not_ltb, arith,
}
use iroh_raft.Common.Equality.{string_eq}
use iroh_raft.Common.Maps.{lookup, insert, lookup-insert}
use iroh_raft.Auth.Operations.{MemberRole, RaftState}
use iroh_raft.Events.{HealthStatus}
use iroh_raft.Discovery.{
  ClusterInfo, ClusterDiscovery, announce, perform_cluster_discovery, discover_cluster, cache_limit,
  process_discovery_message, update_member_info, with_member,
}
use iroh_raft.Discovery.Members.{find_member}
use iroh_raft.Discovery.Views.{view}

lookup-insert_same :
    (c : String) (info : ClusterInfo) (clusters : List (String × ClusterInfo))
    → lookup c (insert c info clusters) ≡ some info
lookup-insert_same c info clusters =
    lookup-insert c c info clusters ∙ rw ((string_eq.beq_iff c c).1 refl) refl

-- Within a minute of an active discovery, `discover_cluster` answers what this has found, and
-- changes nothing.
pub discover_cluster-perform_cluster_discovery :
    (before now : ℕ) (d : ClusterDiscovery) (cluster_id : String)
    → before ≤ now
    → now - before < cache_limit
    → discover_cluster now (perform_cluster_discovery before d cluster_id).0 cluster_id
      ≡ perform_cluster_discovery before d cluster_id
unfolding discover_cluster perform_cluster_discovery
discover_cluster-perform_cluster_discovery before now d cluster_id order recent =
    rw
      (
        discover_cluster,
        lookup-insert_same cluster_id (perform_cluster_discovery before d cluster_id).1 d.clusters,
        le→leb before now order,
        lt→ltb (now - before) cache_limit recent,
      )
      refl

-- An active discovery knows the members 1, 2 and 3.
perform_cluster_discovery_forgets :
    (now : ℕ) (d : ClusterDiscovery) (cluster_id : String) (n : ℕ)
    → n ≢ 1
    → n ≢ 2
    → n ≢ 3
    → view (perform_cluster_discovery now d cluster_id).0 cluster_id n ≡ none
unfolding view perform_cluster_discovery find_member
perform_cluster_discovery_forgets now d cluster_id n not_one not_two not_three =
    let found = (perform_cluster_discovery now d cluster_id).1 in
    let one : (1 == n) ≡ false = ground arith in
    let two : (2 == n) ≡ false = ground arith in
    let three : (3 == n) ≡ false = ground arith in
    rw (lookup-insert_same cluster_id found d.clusters) (rw (one, two, three) refl)

discover_cluster_old :
    (now : ℕ) (d : ClusterDiscovery) (info : ClusterInfo) (cluster_id : String)
    → lookup cluster_id d.clusters ≡ some info
    → cache_limit ≤ now - info.discovered_at
    → discover_cluster now d cluster_id ≡ perform_cluster_discovery now d cluster_id
unfolding discover_cluster
discover_cluster_old now d info cluster_id known old =
    let past = le→leb info.discovered_at now (omega (arith, old)) in
    rw (discover_cluster, known, past, le→not_ltb _ _ old) refl

-- If a cluster was discovered a minute ago or earlier, and a node other than 1, 2 and 3 announces itself as its member, a
-- discovery of the cluster at that moment forgets the node.
pub discover_cluster-announce :
    (now : ℕ) (d : ClusterDiscovery) (info : ClusterInfo) (node_id : ℕ) (cluster_id : String)
    (role : MemberRole) (version : String) (endpoints : List String) (status : HealthStatus)
    (state : Option RaftState)
    → lookup cluster_id d.clusters ≡ some info
    → cache_limit ≤ now - info.discovered_at
    → node_id ≢ 1
    → node_id ≢ 2
    → node_id ≢ 3
    → let message = announce node_id cluster_id role version endpoints status state in
      let d' = (process_discovery_message now d message).0 in
      view (discover_cluster now d' cluster_id).0 cluster_id node_id ≡ none
unfolding view discover_cluster perform_cluster_discovery process_discovery_message
    update_member_info find_member
discover_cluster-announce now d info node_id cluster_id role version endpoints status state known
      old not_one not_two not_three =
    let d' = update_member_info now d cluster_id node_id endpoints role status in
    let kept : lookup cluster_id d'.clusters
        ≡ some
            (record info { members = with_member now node_id endpoints role status info.members }) =
      rw known (lookup-insert_same cluster_id _ d.clusters) in
    ap (λ (r : _). view r.0 cluster_id node_id) (discover_cluster_old now d' _ cluster_id kept old)
    ∙ perform_cluster_discovery_forgets now d' cluster_id node_id not_one not_two not_three
