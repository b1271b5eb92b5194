-- ===== src/Auth.antt =====
-- src/management/auth.rs: tokens and role permissions. A time is a number of nanoseconds since the
-- Unix epoch, so no time lies before it and none overflows; a method gets the time of each reading of the
-- clock as an argument. A `HashMap` from roles is a function; that from nodes is a list of pairs.
-- The identifiers of Iroh's peers are a parameter.
pub mod Operations
pub mod Permissions
pub mod Connections
pub mod Granted
pub mod Roles
pub mod Tokens
mod Tests
use Prim.Native.String.{String, ◌++◌ as concat}
use text.Mathlib.Text.{◌==◌ as str_eq}
use iroh_raft.Common.{
  ℕ, ◌+◌, ◌*◌, ◌/◌, ◌≡◌, ◌↔◌, ◌==◌, Bool, true, false, not, ◌&&◌, ◌||◌, ltb, List, [], ◌∷◌, ◌++◌,
  Option, none, some, if◌then◌else◌, Outcome, ok, err, fail_if, ◌>>=◌, ◌>>◌,
}
use iroh_raft.Common.Maps.{lookup, insert, remove, retain}
use iroh_raft.Common.Equality.{contains, nat_eq, string_eq}
use iroh_raft.Common.Display.{show}
use iroh_raft.Error.{RaftError}
use Operations.{
  ManagementRole, admin, observer, member_manager, monitor, ManagementOperation,
  operation_to_string, operation_target_node,
}
use Permissions.{
  Permission, TimeRestriction, ResourceRestriction, unrestricted, setup_default_permissions,
  outside_time, outside_resources, role_permission, denied, not_allowed_node, denied_node,
}

pub record AuthToken (NodeId : Type 0) : Type 0 where
  pub node_id : ℕ
  pub peer_id : NodeId
  pub role : ManagementRole
  pub expires_at : ℕ
  pub issued_by : ℕ
  pub signature : String

pub record AuthManager (NodeId : Type 0) : Type 0 where
  pub role_permissions : ManagementRole → Option Permission
  pub active_tokens : List (ℕ × AuthToken NodeId)
  pub trusted_issuers : List ℕ
  pub default_token_lifetime : ℕ

-- `as u32` of the role.
abbrev pub role_number : ManagementRole → ℕ
role_number admin = 0
role_number observer = 1
role_number member_manager = 2
role_number monitor = 3

abbrev pub role_eq : ManagementRole → ManagementRole → Bool
role_eq a b = role_number a == role_number b

-- `format!("sig_{}_{}_{}_{}", …)`; the time is in whole seconds.
abbrev pub signature_of : ℕ → ManagementRole → ℕ → ℕ → String
signature_of node_id role expires_at issuer = concat "sig_" (
    concat (show node_id) (
      concat "_" (
        concat (show (role_number role))
          (concat "_" (concat (show (expires_at / 1000000000)) (concat "_" (show issuer)))))))

-- `retain(|&id| id != issuer_node_id)`.
abbrev pub without : ℕ → List ℕ → List ℕ
without n [] = []
without n (x ∷ xs) = let rest = without n xs in if x == n then rest else x ∷ rest

abbrev pub unwrap_lifetime : Option ℕ → ℕ → ℕ
unwrap_lifetime none lifetime = lifetime
unwrap_lifetime (some duration) lifetime = duration

module _ {NodeId : Type 0} where
  unfoldable pub new : AuthManager NodeId
  new = record {
    role_permissions = setup_default_permissions;
    active_tokens = [];
    trusted_issuers = [];
    default_token_lifetime = 8 * 60 * 60 * 1000000000;
  }

  unfoldable pub add_trusted_issuer : AuthManager NodeId → ℕ → AuthManager NodeId
  add_trusted_issuer m issuer =
      if contains issuer m.trusted_issuers
      then m
      else record m { trusted_issuers = m.trusted_issuers ++ (issuer ∷ []) }

  unfoldable pub remove_trusted_issuer : AuthManager NodeId → ℕ → AuthManager NodeId
  remove_trusted_issuer m issuer = record m { trusted_issuers = without issuer m.trusted_issuers }

  -- The token that `issue_token` makes.
  abbrev pub new_token :
      AuthManager NodeId → ℕ → ℕ → NodeId → ManagementRole → ℕ → Option ℕ → AuthToken NodeId
  new_token m now node_id peer_id role issuer duration =
      let expires_at = now + unwrap_lifetime duration m.default_token_lifetime in
      record {
        node_id = node_id;
        peer_id = peer_id;
        role = role;
        expires_at = expires_at;
        issued_by = issuer;
        signature = signature_of node_id role expires_at issuer;
      }

  unfoldable pub issue_token :
      AuthManager NodeId
      → ℕ
      → ℕ
      → NodeId
      → ManagementRole
      → ℕ
      → Option ℕ
      → Outcome RaftError (AuthManager NodeId × AuthToken NodeId)
  issue_token m now node_id peer_id role issuer duration = do
    fail_if (not (contains issuer m.trusted_issuers)) (denied "issue_token" issuer)
    let token = new_token m now node_id peer_id role issuer duration
    ok (record m { active_tokens = insert node_id token m.active_tokens }, token)

  unfoldable pub validate_token :
      AuthManager NodeId → ℕ → AuthToken NodeId → Outcome RaftError (Unit {0})
  validate_token m now token = do
    fail_if (ltb token.expires_at now) (denied "validate_token" token.node_id)
    fail_if (not (contains token.issued_by m.trusted_issuers))
        (denied "validate_token" token.issued_by)
    let expected = signature_of token.node_id token.role token.expires_at token.issued_by
    fail_if (not (str_eq token.signature expected)) (denied "validate_token" token.node_id)
    ok tt

  -- The clock is read by `validate_token`, and again where a time restriction is tested.
  unfoldable pub check_permission :
      AuthManager NodeId
      → ℕ
      → ℕ
      → AuthToken NodeId
      → ManagementOperation
      → Outcome RaftError (Unit {0})
  check_permission m now later token operation = do
    _ ← validate_token m now token
    permission ← role_permission (m.role_permissions token.role) token.node_id
    let name = operation_to_string operation
    fail_if
        (not (
          contains "*" permission.allowed_operations
          || contains name permission.allowed_operations))
        (denied name token.node_id)
    fail_if (outside_time permission.time_restrictions later) (denied name token.node_id)
    fail_if (outside_resources permission.resource_restrictions (operation_target_node operation))
        (denied name token.node_id)
    ok tt

  unfoldable pub revoke_token : AuthManager NodeId → ℕ → AuthManager NodeId
  revoke_token m node_id = record m { active_tokens = remove node_id m.active_tokens }

  unfoldable pub cleanup_expired_tokens : AuthManager NodeId → ℕ → AuthManager NodeId
  cleanup_expired_tokens m now = record m {
    active_tokens = retain (λ token. ltb now token.expires_at) m.active_tokens;
  }

  unfoldable pub get_active_token : AuthManager NodeId → ℕ → Option (AuthToken NodeId)
  get_active_token m node_id = lookup node_id m.active_tokens

  abbrev pub values : List (ℕ × AuthToken NodeId) → List (AuthToken NodeId)
  values [] = []
  values ((node_id, token) ∷ rest) = token ∷ values rest

  unfoldable pub list_active_tokens : AuthManager NodeId → List (AuthToken NodeId)
  list_active_tokens m = values m.active_tokens

  unfoldable pub update_role_permission :
      AuthManager NodeId → ManagementRole → Permission → AuthManager NodeId
  update_role_permission m role permission = record m {
    role_permissions = λ r. if role_eq role r then some permission else m.role_permissions r;
  }

  unfoldable pub get_role_permission : AuthManager NodeId → ManagementRole → Option Permission
  get_role_permission m role = m.role_permissions role
