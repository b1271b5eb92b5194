-- ===== src/Auth/Permissions.antt =====
-- src/management/auth.rs: what a role may do, and the tests of one permission.
use Prim.Native.String.{String}
use iroh_raft.Common.{
  ℕ, Bool, false, not, ◌||◌, ltb, List, [], ◌∷◌, Option, none, some, Outcome, ok, err,
}
use iroh_raft.Common.Equality.{contains, nat_eq}
use iroh_raft.Common.Display.{show}
use iroh_raft.Error.{RaftError}
use iroh_raft.Auth.Operations.{ManagementRole, admin, observer, member_manager, monitor}

pub record TimeRestriction : Type 0 where
  pub valid_from : ℕ
  pub valid_until : ℕ
  pub max_session_duration : ℕ

pub record ResourceRestriction : Type 0 where
  pub allowed_nodes : List ℕ
  pub denied_nodes : List ℕ
  pub operation_limits : List (String × ℕ)

pub record Permission : Type 0 where
  pub allowed_operations : List String
  pub time_restrictions : Option TimeRestriction
  pub resource_restrictions : Option ResourceRestriction

abbrev pub unrestricted : List String → Permission
unrestricted operations = record {
  allowed_operations = operations;
  time_restrictions = none;
  resource_restrictions = none;
}

unfoldable pub setup_default_permissions : ManagementRole → Option Permission
setup_default_permissions admin = some (unrestricted ("*" ∷ []))
setup_default_permissions observer = some (
    unrestricted (
      "get_cluster_status" ∷ "get_configuration" ∷ "get_metrics" ∷ "get_health_status"
      ∷ "get_log_info" ∷ "get_log_entries" ∷ "get_snapshot_info" ∷ "list_backups" ∷ []))
setup_default_permissions member_manager = some (
    unrestricted (
      "get_cluster_status" ∷ "get_configuration" ∷ "get_health_status" ∷ "add_member"
      ∷ "remove_member" ∷ "update_member_role" ∷ []))
setup_default_permissions monitor =
    some (unrestricted ("get_cluster_status" ∷ "get_metrics" ∷ "get_health_status" ∷ []))

abbrev pub denied : String → ℕ → RaftError
denied operation node = RaftError.authorization_denied operation (show node)

-- The tests on one restriction each; `true` is a denial.
abbrev pub outside_time : Option TimeRestriction → ℕ → Bool
outside_time none now = false
outside_time (some t) now = ltb now t.valid_from || ltb t.valid_until now

abbrev pub not_allowed_node : List ℕ → Option ℕ → Bool
not_allowed_node [] target = false
not_allowed_node (n ∷ ns) none = false
not_allowed_node (n ∷ ns) (some target) = not (contains target (n ∷ ns))

abbrev pub denied_node : List ℕ → Option ℕ → Bool
denied_node nodes none = false
denied_node nodes (some target) = contains target nodes

abbrev pub outside_resources : Option ResourceRestriction → Option ℕ → Bool
outside_resources none target = false
outside_resources (some r) target =
    not_allowed_node r.allowed_nodes target || denied_node r.denied_nodes target

abbrev pub role_permission : Option Permission → ℕ → Outcome RaftError Permission
role_permission none node_id = err (denied "check_permission" node_id)
role_permission (some permission) node_id = ok permission
