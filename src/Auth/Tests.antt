-- ===== src/Auth/Tests.antt =====
-- Tokens of a small cluster: each applies a result. A peer is a number here.
use iroh_raft.Common.{ℕ, ◌≡◌, ◌↔◌, ◌⊎◌, inl, refl, true, [], ◌∷◌, some, ok}
use iroh_raft.Common.Equality.{nat_eq, In}
use iroh_raft.Common.Display.{show}
use iroh_raft.Auth.{
  AuthToken, AuthManager, new, new_token, validate_token, check_permission, add_trusted_issuer,
  get_active_token,
}
use iroh_raft.Auth.Permissions.{Permission, setup_default_permissions}
use iroh_raft.Auth.Operations.{monitor, get_metrics, operation_to_string}
use iroh_raft.Auth.Connections.{Peers, IrohAuth, authenticate_connection}
use iroh_raft.Auth.Granted.{IsGenuine, Grants, check_permission_iff}
use iroh_raft.Auth.Roles.{fresh, trusting, check_permission-within_role, within_role}
use iroh_raft.Auth.Tokens.{authenticate_connection_iff}

abbrev peers : Peers
peers = record { NodeId = ℕ; equality = nat_eq; display = show }

abbrev manager : AuthManager ℕ
manager = add_trusted_issuer new 1

-- A token of the monitor 7, issued by node 1 at time 5 for 100 nanoseconds.
abbrev token : AuthToken ℕ
token = new_token manager 5 7 70 monitor 1 (some 100)

issuer_trusted : In 1 manager.trusted_issuers
unfolding new add_trusted_issuer
issuer_trusted = inl refl

check_permission_iff_example : (check_permission manager 50 51 token (get_metrics []) ≡ ok tt) ↔ (
    IsGenuine manager 50 token
    × ((p : Permission) × (manager.role_permissions monitor ≡ some p)
        × Grants p 51 (get_metrics [])))
check_permission_iff_example = check_permission_iff manager 50 51 token (get_metrics [])

token_checked : check_permission manager 50 51 token (get_metrics []) ≡ ok tt
unfolding new add_trusted_issuer check_permission validate_token setup_default_permissions
    operation_to_string show
token_checked = refl

check_permission-within_role_example : within_role monitor (get_metrics []) ≡ true
check_permission-within_role_example =
    check_permission-within_role manager 50 51 token (get_metrics []) (trusting new 1 fresh)
      token_checked

abbrev door : IrohAuth peers
door = record {
  auth_manager = record manager { active_tokens = (7, token) ∷ [] };
  node_whitelist = 70 ∷ [];
}

authenticate_connection_iff_example :
    (authenticate_connection peers door 50 70 7 ≡ ok (some token)) ↔ (
      ((door.node_whitelist ≡ []) ⊎ In 70 door.node_whitelist)
      × (get_active_token door.auth_manager 7 ≡ some token)
      × (token.peer_id ≡ 70)
      × IsGenuine door.auth_manager 50 token)
authenticate_connection_iff_example = authenticate_connection_iff peers door 50 70 7 token
