-- ===== src/Discovery.antt =====
-- src/management/discovery.rs: what a node knows of clusters and their members, and how the messages of the discovery
-- protocol change it. Times are in milliseconds and arguments; a `SystemTime` of the future has no elapsed time.
-- The tasks and announcements, which the source does not send yet, and the placeholder of an active discovery are
-- left out, apart from what the latter stores.
pub mod Members
pub mod Views
pub mod Caching
mod Tests
use Prim.Native.String.{String}
use iroh_raft.Common.{
  ℕ, ◌-◌, ◌*◌, Bool, true, false, not, ◌&&◌, List, [], ◌∷◌, ◌++◌, map, Option, none, some, ltb, leb,
  ◌==◌, if◌then◌else◌,
}
use iroh_raft.Common.Equality.{string_eq}
use iroh_raft.Common.Maps.{lookup, insert}
use iroh_raft.Auth.Operations.{MemberRole, voter, RaftState}
use iroh_raft.Events.{HealthStatus, healthy}

pub record ClusterMember : Type 0 where
  pub node_id : ℕ
  pub address : String
  pub role : MemberRole
  pub health : HealthStatus
  pub last_seen : ℕ
  pub version : String

pub record ClusterInfo : Type 0 where
  pub cluster_id : String
  pub members : List ClusterMember
  pub leader : Option ℕ
  pub version : String
  pub discovered_at : ℕ

pub data DiscoveryMessage : Type 0 where
  announce :
      (node_id : ℕ) (cluster_id : String) (role : MemberRole) (version : String)
      (endpoints : List String) (health : HealthStatus) (raft_state : Option RaftState)
      → DiscoveryMessage
  query_cluster : (cluster_id : String) (requesting_node : ℕ) → DiscoveryMessage
  cluster_info :
      (cluster_id : String) (members : List ClusterMember) (leader : Option ℕ) (responding_node : ℕ)
      → DiscoveryMessage
  bootstrap_request :
      (node_id : ℕ) (cluster_id : String) (endpoints : List String) (version : String)
      → DiscoveryMessage
  bootstrap_response :
      (success : Bool) (initial_members : Option (List ClusterMember)) (leader : Option ℕ)
      (error : Option String)
      → DiscoveryMessage
  heartbeat :
      (node_id : ℕ) (cluster_id : String) (health : HealthStatus) (timestamp : ℕ) → DiscoveryMessage
  departure : (node_id : ℕ) (cluster_id : String) (reason : String) → DiscoveryMessage

abbrev pub Clusters : Type 0
Clusters = List (String × ClusterInfo)

pub record ClusterDiscovery : Type 0 where
  pub clusters : Clusters
  pub discovery_timeout : ℕ
  pub heartbeat_interval : ℕ
  pub local_node_id : Option ℕ
  pub local_cluster_id : Option String

unfoldable pub new : ClusterDiscovery
new = record {
  clusters = [];
  discovery_timeout = 30 * 1000;
  heartbeat_interval = 10 * 1000;
  local_node_id = none;
  local_cluster_id = none;
}

unfoldable pub new_for_node : ℕ → String → ClusterDiscovery
unfolding new
new_for_node node_id cluster_id = record new {
  local_node_id = some node_id;
  local_cluster_id = some cluster_id;
}

unfoldable pub with_timeouts : ClusterDiscovery → ℕ → ℕ → ClusterDiscovery
with_timeouts d discovery_timeout heartbeat_interval = record d {
  discovery_timeout = discovery_timeout;
  heartbeat_interval = heartbeat_interval;
}

abbrev pub put_clusters : ClusterDiscovery → Clusters → ClusterDiscovery
put_clusters d clusters = record d { clusters = clusters }

-- `endpoints.first()`, or the other address.
abbrev pub first_or : List String → String → String
first_or [] other = other
first_or (e ∷ _) other = e

-- `get_mut` on a map: the entry changed, where there is one.
unfoldable pub update_cluster : String → (ClusterInfo → ClusterInfo) → Clusters → Clusters
unfolding lookup insert
update_cluster cluster_id change clusters = elim (lookup cluster_id clusters) [
  | none ↦ clusters
  | some info ↦ insert cluster_id (change info) clusters
]

-- `iter_mut().find` on the members: the first of the node changed; `none` where there is none.
unfoldable pub change_member :
    ℕ → (ClusterMember → ClusterMember) → List ClusterMember → Option (List ClusterMember)
change_member node_id change [] = none
change_member node_id change (m ∷ ms) =
    let rest = change_member node_id change ms in
    if m.node_id == node_id
    then some (change m ∷ ms)
    else elim rest [ none ↦ none | some changed ↦ some (m ∷ changed) ]

unfoldable pub retain_members : (ClusterMember → Bool) → List ClusterMember → List ClusterMember
retain_members keep [] = []
retain_members keep (m ∷ ms) =
    let rest = retain_members keep ms in if keep m then m ∷ rest else rest

unfoldable pub known_version : String
known_version = "0.1.0"

-- The members with the one that announces itself.
unfoldable pub with_member :
    ℕ → ℕ → List String → MemberRole → HealthStatus → List ClusterMember → List ClusterMember
unfolding change_member known_version
with_member now node_id endpoints role health members =
    let announced = λ (m : ClusterMember). record m {
      address = first_or endpoints m.address;
      role = role;
      health = health;
      last_seen = now;
    } in
    elim (change_member node_id announced members) [
      | some changed ↦ changed
      | none ↦
          members
          ++ (record {
            node_id = node_id;
            address = first_or endpoints "unknown";
            role = role;
            health = health;
            last_seen = now;
            version = known_version;
          }
              ∷ [])
    ]

-- What `or_insert_with` finds or makes.
abbrev pub info_or_empty : ℕ → String → Option ClusterInfo → ClusterInfo
info_or_empty now cluster_id (some info) = info
info_or_empty now cluster_id none = record {
  cluster_id = cluster_id;
  members = [];
  leader = none;
  version = known_version;
  discovered_at = now;
}

unfoldable pub update_member_info :
    ℕ → ClusterDiscovery → String → ℕ → List String → MemberRole → HealthStatus → ClusterDiscovery
unfolding with_member lookup insert
update_member_info now d cluster_id node_id endpoints role health =
    let info = info_or_empty now cluster_id (lookup cluster_id d.clusters) in
    let updated : ClusterInfo = record info {
      members = with_member now node_id endpoints role health info.members;
    } in
    put_clusters d (insert cluster_id updated d.clusters)

abbrev pub or_unchanged : List ClusterMember → Option (List ClusterMember) → List ClusterMember
or_unchanged members none = members
or_unchanged members (some changed) = changed

unfoldable pub update_member_health :
    ℕ → ClusterDiscovery → String → ℕ → HealthStatus → ClusterDiscovery
unfolding update_cluster change_member
update_member_health now d cluster_id node_id health =
    let seen = λ (m : ClusterMember). record m { health = health; last_seen = now } in
    put_clusters d (
      update_cluster cluster_id
        (λ (info : ClusterInfo). record info {
          members = or_unchanged info.members (change_member node_id seen info.members);
        })
        d.clusters)

unfoldable pub remove_member : ClusterDiscovery → String → ℕ → ClusterDiscovery
unfolding update_cluster retain_members
remove_member d cluster_id node_id = put_clusters d (
    update_cluster cluster_id
      (λ (info : ClusterInfo). record info {
        members = retain_members (λ m. not (m.node_id == node_id)) info.members;
      })
      d.clusters)

-- `node.unwrap_or(0)`.
abbrev pub responding_node : ClusterDiscovery → ℕ
responding_node d = elim d.local_node_id [ some node_id ↦ node_id | none ↦ 0 ]

abbrev pub is_local : ClusterDiscovery → String → Bool
is_local d cluster_id = elim d.local_cluster_id [
  | some mine ↦ string_eq.beq cluster_id mine
  | none ↦ false
]

-- The answer to a query, and the one to a node that asks to join, about a cluster that is known.
unfoldable pub answer_query : ClusterDiscovery → String → Option DiscoveryMessage
unfolding lookup
answer_query d cluster_id = elim (lookup cluster_id d.clusters) [
  | none ↦ none
  | some info ↦ some (cluster_info cluster_id info.members info.leader (responding_node d))
]

unfoldable pub answer_bootstrap : ClusterDiscovery → String → Option DiscoveryMessage
unfolding lookup
answer_bootstrap d cluster_id = elim (lookup cluster_id d.clusters) [
  | none ↦ none
  | some info ↦ some (bootstrap_response true (some info.members) info.leader none)
]

unfoldable pub store_info :
    ℕ → ClusterDiscovery → String → List ClusterMember → Option ℕ → ClusterDiscovery
unfolding insert known_version
store_info now d cluster_id members leader = put_clusters d (
    insert cluster_id
      (record {
        cluster_id = cluster_id;
        members = members;
        leader = leader;
        version = known_version;
        discovered_at = now;
      })
      d.clusters)

-- It never fails: what is left of the state, and the answer, if there is one.
unfoldable pub process_discovery_message :
    ℕ → ClusterDiscovery → DiscoveryMessage → ClusterDiscovery × Option DiscoveryMessage
unfolding answer_query answer_bootstrap store_info update_member_info update_member_health
    remove_member
process_discovery_message now d (query_cluster cluster_id _) = (d, answer_query d cluster_id)
process_discovery_message now d (cluster_info cluster_id members leader _) =
    (store_info now d cluster_id members leader, none)
process_discovery_message now d (announce node_id cluster_id role _ endpoints health _) =
    (update_member_info now d cluster_id node_id endpoints role health, none)
process_discovery_message now d (bootstrap_request _ cluster_id _ _) =
    (d, if is_local d cluster_id then answer_bootstrap d cluster_id else none)
process_discovery_message now d (heartbeat node_id cluster_id health _) =
    (update_member_health now d cluster_id node_id health, none)
process_discovery_message now d (departure node_id cluster_id _) =
    (remove_member d cluster_id node_id, none)
process_discovery_message now d (bootstrap_response _ _ _ _) = (d, none)

-- One minute.
abbrev pub cache_limit : ℕ
cache_limit = 60 * 1000

abbrev pub placeholder_member : ℕ → ℕ → String → ClusterMember
placeholder_member now node_id address = record {
  node_id = node_id;
  address = address;
  role = voter;
  health = healthy;
  last_seen = now;
  version = known_version;
}

-- The placeholder that the source discovers; its readings of the clock are taken as one.
unfoldable pub perform_cluster_discovery :
    ℕ → ClusterDiscovery → String → ClusterDiscovery × ClusterInfo
unfolding insert known_version
perform_cluster_discovery now d cluster_id =
    let found : ClusterInfo = record {
      cluster_id = cluster_id;
      members =
          placeholder_member now 1 "127.0.0.1:8080"
          ∷ placeholder_member now 2 "127.0.0.1:8081"
          ∷ placeholder_member now 3 "127.0.0.1:8082"
          ∷ [];
      leader = some 1;
      version = known_version;
      discovered_at = now;
    } in
    (put_clusters d (insert cluster_id found d.clusters), found)

-- An elapsed time of the future is taken as the longest one.
abbrev pub is_recent : ℕ → ClusterInfo → Bool
is_recent now info = leb info.discovered_at now && ltb (now - info.discovered_at) cache_limit

unfoldable pub discover_cluster : ℕ → ClusterDiscovery → String → ClusterDiscovery × ClusterInfo
unfolding perform_cluster_discovery lookup
discover_cluster now d cluster_id =
    let fresh = perform_cluster_discovery now d cluster_id in
    elim (lookup cluster_id d.clusters) [
      | none ↦ fresh
      | some info ↦ if is_recent now info then (d, info) else fresh
    ]

-- An elapsed time of the future is taken as none, which the subtraction gives.
abbrev pub is_live : ℕ → ℕ → ClusterMember → Bool
is_live now max_age m = ltb (now - m.last_seen) max_age

unfoldable pub cleanup_stale_members : ℕ → ClusterDiscovery → ℕ → ClusterDiscovery
unfolding retain_members
cleanup_stale_members now d max_age = put_clusters d (
    map
      (λ (entry : String × ClusterInfo). (
        entry.0,
        record entry.1 { members = retain_members (is_live now max_age) entry.1.members },
      ))
      d.clusters)

unfoldable pub clear_cache : ClusterDiscovery → ClusterDiscovery
clear_cache d = put_clusters d []

unfoldable pub get_known_clusters : ClusterDiscovery → Clusters
get_known_clusters d = d.clusters
