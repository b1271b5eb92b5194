-- ===== src/Transport/Shared.antt =====
-- src/transport/shared.rs: what a node knows of its peers. The channel of `raft_tx`, which only passes messages on, is
-- left out.
use Prim.Native.String.{String}
use iroh_raft.Common.{ℕ, Bool, true, List, [], Option, none, some, map, Outcome}
use iroh_raft.Common.Equality.{nat_eq}
use iroh_raft.Common.Maps.{lookup, insert, remove}
use iroh_raft.Common.Display.{show}

-- What the sources use of iroh. Text parses to a node's identifier, an address of a socket, or the URL of a relay, or it
-- does not.
pub record Iroh : Type 1 where
  pub NodeId : Type 0
  pub SocketAddr : Type 0
  pub RelayUrl : Type 0
  pub NodeAddr : Type 0
  pub PublicKey : Type 0
  pub Connection : Type 0
  pub parse_node_id : String → Outcome String NodeId
  pub parse_socket_addr : String → Outcome String SocketAddr
  pub parse_relay_url : String → Outcome String RelayUrl
  pub node_addr : NodeId → NodeAddr
  pub with_direct_addresses : NodeAddr → List SocketAddr → NodeAddr
  pub with_relay_url : NodeAddr → RelayUrl → NodeAddr
  pub node_id : NodeAddr → NodeId

pub record NodeEntry : Type 0 where
  pub cluster_node_id : ℕ
  pub iroh_node_id : String

module _ (iroh : Iroh) where
  pub record PeerInfo : Type 0 where
    pub node_id : ℕ
    pub public_key : iroh.PublicKey
    pub address : Option String
    pub p2p_node_id : Option String
    pub p2p_addresses : List String
    pub p2p_relay_url : Option String

  pub record SharedNodeState : Type 0 where
    pub node_id : ℕ
    pub is_running : Bool
    pub peers : List (ℕ × PeerInfo)

  unfoldable pub new : ℕ → SharedNodeState
  new node_id = record { node_id = node_id; is_running = true; peers = [] }

  unfoldable pub get_peer : SharedNodeState → ℕ → Option PeerInfo
  unfolding lookup
  get_peer node peer_id = lookup peer_id node.peers

  unfoldable pub get_peers : SharedNodeState → List PeerInfo
  get_peers node = map (λ (p : ℕ × PeerInfo). p.1) node.peers

  unfoldable pub add_peer : SharedNodeState → PeerInfo → SharedNodeState
  unfolding insert
  add_peer node peer_info = record node { peers = insert peer_info.node_id peer_info node.peers }

  unfoldable pub remove_peer : SharedNodeState → ℕ → SharedNodeState × Option PeerInfo
  unfolding remove lookup
  remove_peer node peer_id =
      (record node { peers = remove peer_id node.peers }, lookup peer_id node.peers)

  -- The registry is the state itself.
  unfoldable pub node_registry : SharedNodeState → SharedNodeState
  node_registry node = node

  unfoldable pub list_nodes : SharedNodeState → List NodeEntry
  unfolding show
  list_nodes node =
      map
        (λ (p : ℕ × PeerInfo). record {
          cluster_node_id = p.0;
          iroh_node_id = elim p.1.p2p_node_id [ some id ↦ id | none ↦ show p.0 ];
        })
        node.peers

  unfoldable pub register_node : SharedNodeState → ℕ → String → SharedNodeState
  unfolding lookup insert
  register_node node cluster_id iroh_id = elim (lookup cluster_id node.peers) [
    | none ↦ node
    | some peer ↦ record node {
      peers = insert cluster_id (record peer { p2p_node_id = some iroh_id }) node.peers;
    }
  ]

  -- A placeholder of the source.
  unfoldable pub get_node_addr : SharedNodeState → ℕ → Option iroh.NodeAddr
  get_node_addr node peer_id = none
