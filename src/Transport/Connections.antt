-- ===== src/Transport/Connections.antt =====
-- The connections of IrohRaftTransport in src/transport/iroh.rs: get_or_create_connection and
-- check_connection_health.
use Prim.Native.String.{String, ◌++◌ as concat}
use iroh_raft.Common.{
  ℕ, ◌*◌, ◌-◌, List, [], ◌∷◌, Option, none, some, ltb, if◌then◌else◌, Outcome, ok, err, map_err,
  ◌>>=◌,
}
use iroh_raft.Common.Equality.{nat_eq}
use iroh_raft.Common.Maps.{lookup, insert, remove}
use iroh_raft.Common.Display.{show}
use iroh_raft.Error.{RaftError}
use iroh_raft.Transport.Shared.{
  Iroh, PeerInfo, SharedNodeState, get_peer, node_registry, get_node_addr,
}

-- Five minutes, and ten seconds.
abbrev pub idle_limit : ℕ
idle_limit = 300 * 1000

abbrev pub connect_limit : ℕ
connect_limit = 10 * 1000

-- How `connect` under a timeout ends.
pub data Connecting (C : Type 0) : Type 0 where
  connected : C → Connecting C
  refused : String → Connecting C
  timed_out : Connecting C

module _ (iroh : Iroh) where
  pub record PeerConnection : Type 0 where
    pub node_id : ℕ
    pub iroh_node_id : iroh.NodeId
    pub connection : iroh.Connection
    pub last_activity : ℕ

  abbrev pub Connections : Type 0
  Connections = List (ℕ × PeerConnection)

  -- The addresses of a peer that parse.
  unfoldable pub parsed_addresses : List String → List iroh.SocketAddr
  parsed_addresses [] = []
  parsed_addresses (a ∷ rest) =
      let others = parsed_addresses rest in
      elim (iroh.parse_socket_addr a) [ ok addr ↦ addr ∷ others | err _ ↦ others ]

  abbrev pub add_addresses : iroh.NodeAddr → List iroh.SocketAddr → iroh.NodeAddr
  add_addresses addr [] = addr
  add_addresses addr (a ∷ rest) = iroh.with_direct_addresses addr (a ∷ rest)

  abbrev pub add_relay : iroh.NodeAddr → Option String → iroh.NodeAddr
  add_relay addr none = addr
  add_relay addr (some relay) = elim (iroh.parse_relay_url relay) [
    | ok url ↦ iroh.with_relay_url addr url
    | err _ ↦ addr
  ]

  -- The address made from the information on a peer, where the registry has none.
  unfoldable pub fallback_addr : ℕ → PeerInfo iroh → Outcome RaftError iroh.NodeAddr
  unfolding parsed_addresses show
  fallback_addr peer_id peer_info = elim peer_info.p2p_node_id [
    | none ↦
        err (RaftError.cluster_error (concat "Peer " (concat (show peer_id) " has no P2P node ID")))
    | some text ↦ do
      iroh_node_id ←
          map_err (λ why. RaftError.internal (concat "Invalid Iroh node ID: " why))
            (iroh.parse_node_id text)
      let direct =
          add_addresses (iroh.node_addr iroh_node_id) (parsed_addresses peer_info.p2p_addresses)
      ok (add_relay direct peer_info.p2p_relay_url)
  ]

  unfoldable pub addr_of_peer : SharedNodeState iroh → ℕ → Outcome RaftError iroh.NodeAddr
  unfolding get_peer node_registry get_node_addr fallback_addr show
  addr_of_peer node peer_id = elim (get_peer iroh node peer_id) [
    | none ↦ err (RaftError.cluster_error (concat "Unknown peer " (show peer_id)))
    | some peer_info ↦ elim (get_node_addr iroh (node_registry iroh node) peer_id) [
      | some addr ↦ ok addr
      | none ↦ fallback_addr peer_id peer_info
    ]
  ]

  abbrev pub connecting_error : ℕ → Connecting iroh.Connection → Outcome RaftError iroh.Connection
  connecting_error peer_id (connected c) = ok c
  connecting_error peer_id timed_out =
      err (RaftError.timeout (concat "connect to peer " (show peer_id)) connect_limit)
  connecting_error peer_id (refused why) = err (
      RaftError.internal
        (concat "Connection error to peer " (concat (show peer_id) (concat ": " why))))

  -- A new connection, stored at the time `now`; the two readings of the clock are taken as one. The outcome of `connect`, which
  -- is asked with the address, is given.
  unfoldable pub create_connection :
      (iroh.NodeAddr → Connecting iroh.Connection)
      → ℕ
      → SharedNodeState iroh
      → ℕ
      → Connections
      → Connections × Outcome RaftError PeerConnection
  unfolding addr_of_peer insert
  create_connection connect now node peer_id connections =
      let reached = (do
        addr ← addr_of_peer node peer_id
        connection ← connecting_error peer_id (connect addr)
        let peer_conn : PeerConnection = record {
          node_id = peer_id;
          iroh_node_id = iroh.node_id addr;
          connection = connection;
          last_activity = now;
        }
        ok peer_conn) in
      elim reached [
        | err why ↦ (connections, err why)
        | ok peer_conn ↦ (insert peer_id peer_conn connections, ok peer_conn)
      ]

  unfoldable pub get_or_create_connection :
      (iroh.NodeAddr → Connecting iroh.Connection)
      → ℕ
      → SharedNodeState iroh
      → ℕ
      → Connections
      → Connections × Outcome RaftError PeerConnection
  unfolding create_connection lookup
  get_or_create_connection connect now node peer_id connections =
      let fresh = create_connection connect now node peer_id connections in
      elim (lookup peer_id connections) [
        | none ↦ fresh
        | some conn ↦
            if ltb (now - conn.last_activity) idle_limit then (connections, ok conn) else fresh
      ]

  -- The peers whose connection is to be removed.
  unfoldable pub stale_peers : ℕ → Connections → List ℕ
  stale_peers now [] = []
  stale_peers now ((peer_id, conn) ∷ rest) =
      let others = stale_peers now rest in
      if ltb idle_limit (now - conn.last_activity) then peer_id ∷ others else others

  unfoldable pub remove_all : List ℕ → Connections → Connections
  unfolding remove
  remove_all [] connections = connections
  remove_all (peer_id ∷ rest) connections = remove_all rest (remove peer_id connections)

  unfoldable pub check_connection_health : ℕ → Connections → Connections
  unfolding stale_peers remove_all
  check_connection_health now connections = remove_all (stale_peers now connections) connections
