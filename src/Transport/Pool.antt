-- ===== src/Transport/Pool.antt =====
-- The pool of connections of src/transport/iroh.rs: what get_or_create_connection answers and leaves, and what
-- check_connection_health removes.
use iroh_raft.Common.{
  ℕ, ◌-◌, ◌<◌, ◌≡◌, ◌⊎◌, refl, ap, ◌∙◌, subst, inl, inr, Bool, false, [], ◌∷◌, Option, none, some,
  ltb, if◌then◌else◌, arith, Outcome, ok, err, Bool-cases, Option-cases, Outcome-cases, ltb→lt,
  ==→eq, eq→==, ◌==◌,
}
use iroh_raft.Common.Equality.{nat_eq}
use iroh_raft.Common.Maps.{lookup, insert, remove, lookup-insert, lookup-remove, some_injective}
use iroh_raft.Common.Distinct.{Distinct}
use iroh_raft.Error.{RaftError}
use iroh_raft.Transport.Shared.{Iroh, SharedNodeState}
use iroh_raft.Transport.Connections.{
  Connecting, PeerConnection, Connections, idle_limit, addr_of_peer, connecting_error,
  create_connection, get_or_create_connection, stale_peers, remove_all, check_connection_health,
}

module _ (iroh : Iroh) where
  -- A connection whose last activity is more than five minutes ago.
  abbrev pub is_stale : ℕ → PeerConnection iroh → Bool
  is_stale now conn = ltb idle_limit (now - conn.last_activity)

  abbrev pub keep_recent : ℕ → Option (PeerConnection iroh) → Option (PeerConnection iroh)
  keep_recent now none = none
  keep_recent now (some conn) = if is_stale now conn then none else some conn

  stale_absent :
      (now p : ℕ) (m : Connections iroh)
      → lookup p m ≡ none
      → (other : Connections iroh)
      → lookup p (remove_all iroh (stale_peers iroh now m) other) ≡ lookup p other
  unfolding stale_peers remove_all lookup
  stale_absent now p [] h other = refl
  stale_absent now p ((j, c) ∷ m) h other = elim (Bool-cases (j == p)) [
    | inl same ↦ absurd (let found : some c ≡ none = rw same at h in cc)
    | inr differ ↦
        let later : lookup p m ≡ none = rw differ at h in
        elim (Bool-cases (is_stale now c)) [
          | inl old ↦ rw old (
              stale_absent now p m later (remove j other)
              ∙ lookup-remove j p other
              ∙ rw differ refl)
          | inr young ↦ rw young (stale_absent now p m later other)
        ]
  ]

  stale_present :
      (now p : ℕ) (m : Connections iroh)
      → Distinct m
      → (other : Connections iroh) (conn : PeerConnection iroh) → lookup p m ≡ some conn
      → lookup p (remove_all iroh (stale_peers iroh now m) other)
        ≡ (if is_stale now conn then none else lookup p other)
  unfolding stale_peers remove_all lookup
  stale_present now p [] distinct other conn h = absurd cc
  stale_present now p ((j, c) ∷ m) distinct other conn h = elim (Bool-cases (j == p)) [
    | inl same ↦
        let absent : lookup p m ≡ none =
          subst (λ i. lookup i m ≡ none) (==→eq j p same) distinct.0 in
        let here : c ≡ conn = some_injective (rw same at h) in
        subst
          (λ (w : PeerConnection iroh).
            lookup p (remove_all iroh (stale_peers iroh now ((j, c) ∷ m)) other)
            ≡ (if is_stale now w then none else lookup p other))
          here
          (elim (Bool-cases (is_stale now c)) [
            | inl old ↦ rw old (
                stale_absent now p m absent (remove j other)
                ∙ lookup-remove j p other
                ∙ rw same refl)
            | inr young ↦ rw young (stale_absent now p m absent other)
          ])
    | inr differ ↦
        let later : lookup p m ≡ some conn = rw differ at h in
        elim (Bool-cases (is_stale now c)) [
          | inl old ↦ rw old (
              stale_present now p m distinct.1 (remove j other) conn later
              ∙ ap (λ o. if is_stale now conn then none else o)
                  (lookup-remove j p other ∙ rw differ refl))
          | inr young ↦ rw young (stale_present now p m distinct.1 other conn later)
        ]
  ]

  -- A round of the health checker removes exactly the connections whose last activity is more than
  -- five minutes ago; the connections have different peers.
  pub lookup-check_connection_health :
      (now p : ℕ) (connections : Connections iroh)
      → Distinct connections
      → lookup p (check_connection_health iroh now connections)
        ≡ keep_recent now (lookup p connections)
  unfolding check_connection_health
  lookup-check_connection_health now p connections distinct =
      elim (Option-cases (lookup p connections)) [
        | inl nothing ↦ rw nothing (stale_absent now p connections nothing connections ∙ nothing)
        | inr (conn, here) ↦ rw here (
            stale_present now p connections distinct connections conn here
            ∙ ap (λ o. if is_stale now conn then none else o) here)
      ]

  -- The pool holds the connection for the peer, active within five minutes, and has not changed
  -- for other peers.
  abbrev pub IsPooled : ℕ → ℕ → Connections iroh → Connections iroh → PeerConnection iroh → Type 0
  IsPooled now peer_id before after conn =
      (lookup peer_id after ≡ some conn)
      × (now - conn.last_activity < idle_limit)
      × ((j : ℕ) → (peer_id == j) ≡ false → lookup j after ≡ lookup j before)

  -- A call that answers a connection, or an error that leaves the pool as it was.
  abbrev pub IsAnswer :
      ℕ → ℕ → Connections iroh → Connections iroh × Outcome RaftError (PeerConnection iroh) → Type 0
  IsAnswer now peer_id before (after, got) =
      ((conn : PeerConnection iroh) × (got ≡ ok conn) × IsPooled now peer_id before after conn)
      ⊎ ((why : RaftError) × (got ≡ err why) × (after ≡ before))

  module _ (connect : iroh.NodeAddr → Connecting iroh.Connection) (now : ℕ)
      (node : SharedNodeState iroh) (peer_id : ℕ) (connections : Connections iroh) where
    inserted-IsPooled :
        (conn : PeerConnection iroh)
        → conn.last_activity ≡ now
        → IsPooled now peer_id connections (insert peer_id conn connections) conn
    inserted-IsPooled conn recent = (
      lookup-insert peer_id peer_id conn connections ∙ rw (eq→== peer_id peer_id refl) refl,
      rw recent (omega arith),
      (λ j other. lookup-insert peer_id j conn connections ∙ rw other refl),
    )

    created :
        IsAnswer now peer_id connections
          (create_connection iroh connect now node peer_id connections)
    unfolding create_connection
    created = elim (Outcome-cases (addr_of_peer iroh node peer_id)) [
      | inr (why, unknown) ↦ rw (create_connection, unknown) (inr (why, refl, refl))
      | inl (addr, known) ↦ elim (Outcome-cases (connecting_error iroh peer_id (connect addr))) [
        | inr (why, failed) ↦ rw (create_connection, known, failed) (inr (why, refl, refl))
        | inl (connection, done) ↦
            let conn : PeerConnection iroh = record {
              node_id = peer_id;
              iroh_node_id = iroh.node_id addr;
              connection = connection;
              last_activity = now;
            } in
            rw (create_connection, known, done) (inl (conn, refl, inserted-IsPooled conn refl))
      ]
    ]

    -- What a call of `get_or_create_connection` leaves in the pool, by what it answers: with a
    -- connection, the pool holds it for the peer, its last activity is less than five minutes ago, and
    -- other peers keep theirs; with an error, the pool is as it was.
    pub get_or_create_connection_answers :
        IsAnswer now peer_id connections
          (get_or_create_connection iroh connect now node peer_id connections)
    unfolding get_or_create_connection
    get_or_create_connection_answers = elim (Option-cases (lookup peer_id connections)) [
      | inl nothing ↦ rw (get_or_create_connection, nothing) created
      | inr (conn, here) ↦ elim (Bool-cases (ltb (now - conn.last_activity) idle_limit)) [
        | inl recent ↦
            rw (get_or_create_connection, here, recent)
              (inl (conn, refl, (here, ltb→lt _ _ recent, (λ j other. refl))))
        | inr idle ↦ rw (get_or_create_connection, here, idle) created
      ]
    ]
