-- ===== src/Discovery/Views.antt =====
-- What a node knows of the members of clusters, as a function of cluster and node, under the messages of
-- src/management/discovery.rs.
use Prim.Native.String.{String}
use mathlib.Core.Path.{fun_ext}
use iroh_raft.Common.{
  ℕ, ◌≡◌, refl, sym, ap, ◌∙◌, inl, inr, false, not, List, [], ◌∷◌, Option, none, some, ◌==◌,
  if◌then◌else◌, Bool-cases, Option-cases, arith, subst, ==→eq,
}
use iroh_raft.Common.Equality.{string_eq}
use iroh_raft.Common.Maps.{lookup, insert, lookup-insert}
use iroh_raft.Auth.Operations.{MemberRole}
use iroh_raft.Events.{HealthStatus}
use iroh_raft.Discovery.{
  ClusterMember, ClusterInfo, Clusters, DiscoveryMessage, announce, query_cluster, cluster_info,
  bootstrap_request, bootstrap_response, heartbeat, departure, ClusterDiscovery, update_cluster,
  change_member, or_unchanged, retain_members, info_or_empty, with_member, update_member_info,
  update_member_health, remove_member, store_info, process_discovery_message,
}
use iroh_raft.Discovery.Members.{
  find_member, map_member, announced, find_member-change_member, find_member-retain_members,
  find_member-removed, find_member-with_member,
}

-- The members that are known, by cluster and node.
abbrev pub View : Type 0
View = String → ℕ → Option ClusterMember

abbrev pub members_of : Option ClusterInfo → List ClusterMember
members_of none = []
members_of (some info) = info.members

unfoldable pub view : ClusterDiscovery → View
unfolding find_member lookup
view d cluster_id n = find_member n (members_of (lookup cluster_id d.clusters))

-- A view with other members of one cluster.
abbrev at_cluster : String → (ℕ → Option ClusterMember) → View → View
at_cluster changed_id members known cluster_id n =
    if string_eq.beq changed_id cluster_id then members n else known cluster_id n

-- A view with another member of one node.
abbrev at_member : String → ℕ → (Option ClusterMember → Option ClusterMember) → View → View
at_member changed_id node_id change known =
    at_cluster changed_id
      (λ n. if node_id == n then change (known changed_id n) else known changed_id n) known

-- What a message says of the members.
abbrev pub effect : ℕ → DiscoveryMessage → View → View
effect now (announce node_id cluster_id role _ endpoints health _) known =
    at_member cluster_id node_id
      (λ member. some (announced now node_id endpoints role health member)) known
effect now (cluster_info cluster_id members _ _) known =
    at_cluster cluster_id (λ n. find_member n members) known
effect now (heartbeat node_id cluster_id health _) known =
    at_member cluster_id node_id (map_member (λ m. record m { health = health; last_seen = now }))
      known
effect now (departure node_id cluster_id _) known =
    at_member cluster_id node_id (λ member. none) known
effect now (query_cluster _ _) known = known
effect now (bootstrap_request _ _ _ _) known = known
effect now (bootstrap_response _ _ _ _) known = known

-- A map with another entry, seen at every cluster.
inserted :
    (changed_id : String) (info : ClusterInfo) (clusters : Clusters) (cluster_id : String) (n : ℕ)
    → find_member n (members_of (lookup cluster_id (insert changed_id info clusters))) ≡ (
        if string_eq.beq changed_id cluster_id
        then find_member n info.members
        else find_member n (members_of (lookup cluster_id clusters)))
inserted changed_id info clusters cluster_id n =
    ap (λ o. find_member n (members_of o)) (lookup-insert changed_id cluster_id info clusters)
    ∙ elim (Bool-cases (string_eq.beq changed_id cluster_id)) [
      | inl same ↦ rw same refl
      | inr other ↦ rw other refl
    ]

-- An entry changed, where there is one, if the change of no members is no members.
updated :
    (changed_id : String) (change : List ClusterMember → List ClusterMember)
    (after : ℕ → Option ClusterMember → Option ClusterMember) (clusters : Clusters)
    → ((n : ℕ) (ms : List ClusterMember) → find_member n (change ms) ≡ after n (find_member n ms))
    → ((n : ℕ) → after n none ≡ none)
    → (cluster_id : String) (n : ℕ)
    → find_member n (
        members_of (
          lookup cluster_id (
            update_cluster changed_id
              (λ (i : ClusterInfo). record i { members = change i.members })
              clusters)))
      ≡ (if string_eq.beq changed_id cluster_id
          then after n (find_member n (members_of (lookup changed_id clusters)))
          else find_member n (members_of (lookup cluster_id clusters)))
unfolding update_cluster find_member
updated changed_id change after clusters changes absent cluster_id n =
    elim (Option-cases (lookup changed_id clusters)) [
      | inl nothing ↦ elim (Bool-cases (string_eq.beq changed_id cluster_id)) [
        | inl same ↦
            let here : lookup cluster_id clusters ≡ none =
              ap (λ i. lookup i clusters) (sym ((string_eq.beq_iff changed_id cluster_id).0 same))
              ∙ nothing in
            rw (update_cluster, nothing, same, here) (sym (absent n))
        | inr other ↦ rw (update_cluster, nothing, other) refl
      ]
      | inr (info, there) ↦
          let info' : ClusterInfo = record info { members = change info.members } in
          rw (update_cluster, there)
            (inserted changed_id info' clusters cluster_id n
              ∙ ap
                  (λ found.
                    if string_eq.beq changed_id cluster_id
                    then found
                    else find_member n (members_of (lookup cluster_id clusters)))
                  (changes n info.members))
    ]

empty_members :
    (now : ℕ) (cluster_id : String) (o : Option ClusterInfo)
    → (info_or_empty now cluster_id o).members ≡ members_of o
empty_members now cluster_id none = refl
empty_members now cluster_id (some info) = refl

view-update_member_info :
    (now : ℕ) (d : ClusterDiscovery) (c : String) (node_id : ℕ) (endpoints : List String)
    (role : MemberRole) (status : HealthStatus) (cluster_id : String) (n : ℕ)
    → view (update_member_info now d c node_id endpoints role status) cluster_id n
      ≡ at_member c node_id
          (λ member. some (announced now node_id endpoints role status member))
          (view d)
          cluster_id
          n
unfolding view update_member_info
view-update_member_info now d c node_id endpoints role status cluster_id n =
    let o = lookup c d.clusters in
    let info = info_or_empty now c o in
    let members = with_member now node_id endpoints role status info.members in
    let found : find_member n members ≡ (
        if node_id == n
        then some (announced now node_id endpoints role status (find_member n (members_of o)))
        else find_member n (members_of o)) =
      find_member-with_member now node_id endpoints role status n info.members
      ∙ ap
          (λ ms.
            if node_id == n
            then some (announced now node_id endpoints role status (find_member n ms))
            else find_member n ms)
          (empty_members now c o) in
    inserted c (record info { members = members }) d.clusters cluster_id n
    ∙ ap
        (λ r.
          if string_eq.beq c cluster_id
          then r
          else find_member n (members_of (lookup cluster_id d.clusters)))
        found

view-remove_member :
    (d : ClusterDiscovery) (c : String) (node_id : ℕ) (cluster_id : String) (n : ℕ)
    → view (remove_member d c node_id) cluster_id n
      ≡ at_member c node_id (λ member. none) (view d) cluster_id n
unfolding view remove_member
view-remove_member d c node_id cluster_id n =
    updated c (retain_members (λ m. not (m.node_id == node_id)))
      (λ i found. if node_id == i then none else found) d.clusters
      (λ i ms. elim (Bool-cases (node_id == i)) [
        | inl same ↦ rw same (
            subst (λ j. find_member j (retain_members (λ m. not (m.node_id == node_id)) ms) ≡ none)
              (==→eq node_id i same) (find_member-removed node_id ms))
        | inr other ↦ rw other (
            find_member-retain_members (λ m. not (m.node_id == node_id)) i ms
              (λ m hit. let far : (m.node_id == node_id) ≡ false = ground arith in rw far refl))
      ])
      (λ i. elim (Bool-cases (node_id == i)) [
        | inl same ↦ rw same refl
        | inr other ↦ rw other refl
      ])
      cluster_id n

-- A message changes what is known of the members as it says, and nothing else.
pub view-process_discovery_message :
    (now : ℕ) (d : ClusterDiscovery) (message : DiscoveryMessage) (cluster_id : String) (n : ℕ)
    → view (process_discovery_message now d message).0 cluster_id n
      ≡ effect now message (view d) cluster_id n
unfolding view process_discovery_message update_member_info update_member_health remove_member
    store_info
view-process_discovery_message now d (announce node_id c role v endpoints status r) cluster_id n =
    view-update_member_info now d c node_id endpoints role status cluster_id n
view-process_discovery_message now d (cluster_info c members leader r) cluster_id n =
    inserted c _ d.clusters cluster_id n
view-process_discovery_message now d (heartbeat node_id c status t) cluster_id n =
    updated c
      (λ ms.
        or_unchanged ms
          (change_member node_id (λ m. record m { health = status; last_seen = now }) ms))
      (λ i found.
        if node_id == i
        then map_member (λ m. record m { health = status; last_seen = now }) found
        else found)
      d.clusters
      (λ i ms.
        find_member-change_member node_id (λ m. record m { health = status; last_seen = now })
          (λ m. refl) i ms)
      (λ i. elim (Bool-cases (node_id == i)) [
        | inl same ↦ rw same refl
        | inr other ↦ rw other refl
      ])
      cluster_id n
view-process_discovery_message now d (departure node_id c reason) cluster_id n =
    view-remove_member d c node_id cluster_id n
view-process_discovery_message now d (query_cluster c r) cluster_id n = refl
view-process_discovery_message now d (bootstrap_request x c e v) cluster_id n = refl
view-process_discovery_message now d (bootstrap_response s m l e) cluster_id n = refl

-- The messages one after the other, each with the time at which it is processed.
unfoldable pub process_all : List (ℕ × DiscoveryMessage) → ClusterDiscovery → ClusterDiscovery
process_all [] d = d
process_all ((now, message) ∷ rest) d = process_all rest (process_discovery_message now d message).0

abbrev pub effects : List (ℕ × DiscoveryMessage) → View → View
effects [] known = known
effects ((now, message) ∷ rest) known = effects rest (effect now message known)

-- After any messages, what is known of the member of a node in a cluster is what the messages say, one after the other:
-- an announcement adds or replaces it, news of a cluster replace all its members, a heartbeat
-- changes the health of a known one, and a departure removes it.
pub process_all-effects :
    (messages : List (ℕ × DiscoveryMessage)) (d : ClusterDiscovery) (cluster_id : String) (n : ℕ)
    → view (process_all messages d) cluster_id n ≡ effects messages (view d) cluster_id n
unfolding process_all
process_all-effects [] d cluster_id n = refl
process_all-effects ((now, message) ∷ rest) d cluster_id n =
    let d' = (process_discovery_message now d message).0 in
    process_all-effects rest d' cluster_id n
    ∙ ap (λ v. effects rest v cluster_id n)
        (fun_ext (λ c. fun_ext (λ m. view-process_discovery_message now d message c m)))
