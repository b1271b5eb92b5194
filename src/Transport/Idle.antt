-- ===== src/Transport/Idle.antt =====
-- How long a pooled connection of src/transport/iroh.rs stays, while it is used.
use iroh_raft.Common.{
  ℕ, ◌-◌, ◌<◌, ◌≡◌, refl, ap, ◌∙◌, inl, inr, some, none, ok, Bool-cases, Outcome-cases, lt→ltb,
}
use iroh_raft.Common.Equality.{nat_eq}
use iroh_raft.Common.Maps.{lookup}
use iroh_raft.Common.Distinct.{Distinct}
use iroh_raft.Raft.{RaftCrate}
use iroh_raft.Protocol.{Wire}
use iroh_raft.Protocol.Rpc.{RpcCodec}
use iroh_raft.Transport.{from_raft_message}
use iroh_raft.Transport.Shared.{Iroh}
use iroh_raft.Transport.Connections.{
  PeerConnection, idle_limit, get_or_create_connection, check_connection_health,
}
use iroh_raft.Transport.Pool.{lookup-check_connection_health}
use iroh_raft.Transport.Sending.{
  Surroundings, IrohRaftTransport, send_single_message, try_send_immediate, send_message,
  is_immediate, record_raft_message_sent,
}

module _ (wire : Wire) (codec : RpcCodec) (raft : RaftCrate) (iroh : Iroh) where
  module _ (s : Surroundings wire codec raft iroh) (to : ℕ) (message : raft.Message)
      (t : IrohRaftTransport wire codec raft iroh) (conn : PeerConnection iroh) where
    reused :
        lookup to t.connections ≡ some conn
        → s.connected_at - conn.last_activity < idle_limit
        → get_or_create_connection iroh s.connect s.connected_at t.node to t.connections
          ≡ (t.connections, ok conn)
    unfolding get_or_create_connection
    reused here recent = rw (get_or_create_connection, here, lt→ltb _ _ recent) refl

    pool_untouched :
        lookup to t.connections ≡ some conn
        → s.connected_at - conn.last_activity < idle_limit
        → (try_send_immediate wire codec raft iroh s to message t).0.connections ≡ t.connections
    unfolding try_send_immediate record_raft_message_sent
    pool_untouched here recent =
        let same = reused here recent in
        let pool = ap (λ (p : _). p.0) same in
        elim (Outcome-cases
          (send_single_message wire codec raft (s.open_stream conn.connection) message)) [
            | inr (why, failed) ↦ rw (try_send_immediate, same, failed) pool
            | inl (w, done) ↦ elim (Bool-cases s.counts_free) [
              | inl free ↦ rw (try_send_immediate, same, done, free) pool
              | inr held ↦ rw (try_send_immediate, same, done, held) pool
            ]
          ]

    sent_over_pool :
        lookup to t.connections ≡ some conn
        → s.connected_at - conn.last_activity < idle_limit
        → (send_message wire codec raft iroh s to message t).0.connections ≡ t.connections
    unfolding send_message
    sent_over_pool here recent = elim (Bool-cases t.is_shutting_down) [
      | inl down ↦ rw (send_message, down) refl
      | inr running ↦
          elim (Bool-cases (is_immediate wire codec raft iroh (from_raft_message raft message))) [
            | inr later ↦ rw (send_message, running, later) refl
            | inl now ↦
                elim (Outcome-cases (try_send_immediate wire codec raft iroh s to message t).1) [
                  | inl (w, done) ↦
                      rw (send_message, running, now, done) (pool_untouched here recent)
                  | inr (why, failed) ↦
                      rw (send_message, running, now, failed) (pool_untouched here recent)
                ]
          ]
    ]

    -- A use does not keep a connection: if a message is sent over a pooled connection within five minutes of
    -- its last recorded activity, a health check at any time more than five minutes after that activity removes
    -- it, however soon it comes after the use; the pooled connections have different peers.
    pub check_connection_health-send_message :
        (checked_at : ℕ)
        → Distinct t.connections
        → lookup to t.connections ≡ some conn
        → s.connected_at - conn.last_activity < idle_limit
        → idle_limit < checked_at - conn.last_activity
        → lookup to (
            check_connection_health iroh checked_at
              (send_message wire codec raft iroh s to message t).0.connections)
          ≡ none
    check_connection_health-send_message checked_at distinct here recent late =
        ap (λ pool. lookup to (check_connection_health iroh checked_at pool))
          (sent_over_pool here recent)
        ∙ lookup-check_connection_health iroh checked_at to t.connections distinct
        ∙ rw (here, lt→ltb _ _ late) refl
