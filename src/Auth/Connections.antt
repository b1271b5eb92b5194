-- ===== src/Auth/Connections.antt =====
-- src/management/auth.rs, `IrohAuth`: which peers may connect, and as whom.
use Prim.Native.String.{String}
use iroh_raft.Common.{
  ℕ, Bool, true, false, not, ◌||◌, List, [], ◌∷◌, ◌++◌, Option, none, some, if◌then◌else◌, Outcome,
  ok, fail_if, ◌>>=◌, ◌>>◌,
}
use iroh_raft.Common.Equality.{Eq, contains, nat_eq}
use iroh_raft.Error.{RaftError}
use iroh_raft.Auth.{AuthToken, AuthManager, validate_token, get_active_token}

-- `iroh::NodeId`: its equality and its display.
pub record Peers : Type 1 where
  pub NodeId : Type 0
  pub equality : Eq NodeId
  pub display : NodeId → String

module _ (peers : Peers) where
  open peers use {NodeId, display}

  pub record IrohAuth : Type 0 where
    pub auth_manager : AuthManager NodeId
    pub node_whitelist : List NodeId

  abbrev pub same : NodeId → NodeId → Bool
  same = peers.equality.beq

  abbrev pub whitelisted : NodeId → List NodeId → Bool
  whitelisted = contains ⦃e = peers.equality⦄

  unfoldable pub add_to_whitelist : IrohAuth → NodeId → IrohAuth
  add_to_whitelist a n =
      if whitelisted n a.node_whitelist
      then a
      else record a { node_whitelist = a.node_whitelist ++ (n ∷ []) }

  abbrev pub without_peer : NodeId → List NodeId → List NodeId
  without_peer n [] = []
  without_peer n (x ∷ xs) = let rest = without_peer n xs in if same x n then rest else x ∷ rest

  unfoldable pub remove_from_whitelist : IrohAuth → NodeId → IrohAuth
  remove_from_whitelist a n = record a { node_whitelist = without_peer n a.node_whitelist }

  abbrev pub is_nil : List NodeId → Bool
  is_nil [] = true
  is_nil (x ∷ xs) = false

  unfoldable pub is_node_allowed : IrohAuth → NodeId → Bool
  is_node_allowed a n = is_nil a.node_whitelist || whitelisted n a.node_whitelist

  -- The active token of the node, if the peer is the token's.
  abbrev pub accept_token :
      AuthManager NodeId
      → ℕ
      → NodeId
      → Option (AuthToken NodeId)
      → Outcome RaftError (Option (AuthToken NodeId))
  accept_token m now peer_id none = ok none
  accept_token m now peer_id (some token) =
      if same token.peer_id peer_id
      then validate_token m now token >>= (λ _. ok (some token))
      else ok none

  unfoldable pub authenticate_connection :
      IrohAuth → ℕ → NodeId → ℕ → Outcome RaftError (Option (AuthToken NodeId))
  authenticate_connection a now peer_id node_id = do
    fail_if (not (is_node_allowed a peer_id))
        (RaftError.authorization_denied "authenticate_connection" (display peer_id))
    accept_token a.auth_manager now peer_id (get_active_token a.auth_manager node_id)
