-- ===== src/Auth/Roles.antt =====
-- What the default permissions let each role do.
use Prim.Native.String.{String}
use iroh_raft.Common.{
  ℕ, ◌≡◌, ◌⊎◌, inl, inr, refl, ◌∙◌, Bool, true, false, ◌||◌, ◌&&◌, not, Bool-cases, List, [],
  Option, none, some, ok, arith,
}
use iroh_raft.Common.Equality.{In, contains, contains-In, string_eq}
use iroh_raft.Auth.{
  AuthToken, AuthManager, new, add_trusted_issuer, remove_trusted_issuer, issue_token, revoke_token,
  cleanup_expired_tokens, check_permission,
}
use iroh_raft.Auth.Permissions.{setup_default_permissions, Permission}
use iroh_raft.Auth.Granted.{check_permission_iff}
use iroh_raft.Auth.Operations.{
  ManagementRole, admin, observer, member_manager, monitor, ManagementOperation,
  operation_to_string, get_cluster_status, add_member, remove_member, update_member_role,
  transfer_leadership, step_down, get_configuration, update_configuration, get_metrics,
  get_health_status, get_log_info, compact_log, get_log_entries, trigger_snapshot,
  get_snapshot_info, create_backup, restore_backup, list_backups,
}

-- Operations that change the members of the cluster.
abbrev pub changes_members : ManagementOperation → Bool
changes_members (add_member _ _ _) = true
changes_members (remove_member _) = true
changes_members (update_member_role _ _) = true
changes_members _ = false

-- Operations that only read: `is_read_only`.
abbrev pub only_reads : ManagementOperation → Bool
only_reads get_cluster_status = true
only_reads get_configuration = true
only_reads (get_metrics _) = true
only_reads get_health_status = true
only_reads get_log_info = true
only_reads (get_log_entries _ _) = true
only_reads get_snapshot_info = true
only_reads list_backups = true
only_reads _ = false

-- The least that each role is meant to be kept to.
abbrev pub within_role : ManagementRole → ManagementOperation → Bool
within_role admin operation = true
within_role observer operation = only_reads operation
within_role member_manager operation = only_reads operation || changes_members operation
within_role monitor operation = only_reads operation

-- The managers that arise from a new one without `update_role_permission`.
pub data Managed (NodeId : Type 0) : AuthManager NodeId → Type 0 where
  fresh : Managed NodeId new
  trusting :
      (m : AuthManager NodeId) (issuer : ℕ)
      → Managed NodeId m
      → Managed NodeId (add_trusted_issuer m issuer)
  distrusting :
      (m : AuthManager NodeId) (issuer : ℕ)
      → Managed NodeId m
      → Managed NodeId (remove_trusted_issuer m issuer)
  issuing :
      (m m' : AuthManager NodeId) (now node : ℕ) (peer : NodeId) (role : ManagementRole)
      (issuer : ℕ) (duration : Option ℕ) (token : AuthToken NodeId)
      → Managed NodeId m
      → issue_token m now node peer role issuer duration ≡ ok (m', token)
      → Managed NodeId m'
  revoking :
      (m : AuthManager NodeId) (node : ℕ) → Managed NodeId m → Managed NodeId (revoke_token m node)
  cleaning :
      (m : AuthManager NodeId) (now : ℕ)
      → Managed NodeId m
      → Managed NodeId (cleanup_expired_tokens m now)

role_permissions-issue_token :
    {NodeId : Type 0} (m m' : AuthManager NodeId) (now node : ℕ) (peer : NodeId)
    (role : ManagementRole) (issuer : ℕ) (duration : Option ℕ) (token : AuthToken NodeId)
    → issue_token m now node peer role issuer duration ≡ ok (m', token)
    → m'.role_permissions ≡ m.role_permissions
unfolding issue_token
role_permissions-issue_token m m' now node peer role issuer duration token h = ground arith

pub Managed_permissions :
    {NodeId : Type 0} (m : AuthManager NodeId)
    → Managed NodeId m
    → m.role_permissions ≡ setup_default_permissions
unfolding new add_trusted_issuer remove_trusted_issuer revoke_token cleanup_expired_tokens
Managed_permissions m fresh = refl
Managed_permissions _ (trusting m issuer h) = let ih = Managed_permissions m h in ground arith
Managed_permissions _ (distrusting m issuer h) = Managed_permissions m h
Managed_permissions _ (issuing m m' now node peer role issuer duration token h issued) =
    role_permissions-issue_token m m' now node peer role issuer duration token issued
    ∙ Managed_permissions m h
Managed_permissions _ (revoking m node h) = Managed_permissions m h
Managed_permissions _ (cleaning m now h) = Managed_permissions m h

abbrev named_by : List String → ManagementOperation → Bool
named_by names operation = contains "*" names || contains (operation_to_string operation) names

abbrev default_names : ManagementRole → List String
default_names role = elim (setup_default_permissions role) [
  | none ↦ []
  | some p ↦ p.allowed_operations
]

-- The names that a role other than the administrator's lists stay within it.
stays_within : (operation : ManagementOperation) → record {
  observes :
      (named_by (default_names observer) operation && not (within_role observer operation)) ≡ false;
  manages :
      (named_by (default_names member_manager) operation
        && not (within_role member_manager operation))
      ≡ false;
  monitors :
      (named_by (default_names monitor) operation && not (within_role monitor operation)) ≡ false;
}
unfolding setup_default_permissions operation_to_string
stays_within get_cluster_status = record { observes = refl; manages = refl; monitors = refl }
stays_within (add_member _ _ _) = record { observes = refl; manages = refl; monitors = refl }
stays_within (remove_member _) = record { observes = refl; manages = refl; monitors = refl }
stays_within (update_member_role _ _) = record { observes = refl; manages = refl; monitors = refl }
stays_within (transfer_leadership _) = record { observes = refl; manages = refl; monitors = refl }
stays_within step_down = record { observes = refl; manages = refl; monitors = refl }
stays_within get_configuration = record { observes = refl; manages = refl; monitors = refl }
stays_within (update_configuration _) = record { observes = refl; manages = refl; monitors = refl }
stays_within (get_metrics _) = record { observes = refl; manages = refl; monitors = refl }
stays_within get_health_status = record { observes = refl; manages = refl; monitors = refl }
stays_within get_log_info = record { observes = refl; manages = refl; monitors = refl }
stays_within (compact_log _) = record { observes = refl; manages = refl; monitors = refl }
stays_within (get_log_entries _ _) = record { observes = refl; manages = refl; monitors = refl }
stays_within trigger_snapshot = record { observes = refl; manages = refl; monitors = refl }
stays_within get_snapshot_info = record { observes = refl; manages = refl; monitors = refl }
stays_within (create_backup _) = record { observes = refl; manages = refl; monitors = refl }
stays_within (restore_backup _) = record { observes = refl; manages = refl; monitors = refl }
stays_within list_backups = record { observes = refl; manages = refl; monitors = refl }

and_not : (a b : Bool) → (a && not b) ≡ false → a ≡ true → b ≡ true
and_not true true h k = refl
and_not true false h k = absurd cc
and_not false b h k = absurd cc

within :
    (role : ManagementRole) (operation : ManagementOperation)
    → named_by (default_names role) operation ≡ true
    → within_role role operation ≡ true
within admin operation h = refl
within observer operation h = and_not _ _ (stays_within operation).observes h
within member_manager operation h = and_not _ _ (stays_within operation).manages h
within monitor operation h = and_not _ _ (stays_within operation).monitors h

named_text :
    (names : List String) (operation : ManagementOperation)
    → In "*" names ⊎ In (operation_to_string operation) names
    → named_by names operation ≡ true
named_text names operation (inl all) = rw ((contains-In "*" names).1 all) refl
named_text names operation (inr one) = elim (Bool-cases (contains "*" names)) [
  | inl all ↦ rw all refl
  | inr other ↦ rw (other, (contains-In (operation_to_string operation) names).1 one) refl
]

default_names_lem :
    (role : ManagementRole) (p : Permission)
    → setup_default_permissions role ≡ some p
    → default_names role ≡ p.allowed_operations
default_names_lem role p h = rw (h, default_names) refl

-- With a manager that arises from a new one without `update_role_permission`, an observer and a
-- monitor are let do only operations that read, a member manager only these and those that change the
-- members, whatever their tokens say.
pub check_permission-within_role :
    {NodeId : Type 0} (m : AuthManager NodeId) (now later : ℕ) (token : AuthToken NodeId)
    (operation : ManagementOperation)
    → Managed NodeId m
    → check_permission m now later token operation ≡ ok tt
    → within_role token.role operation ≡ true
check_permission-within_role m now later token operation managed granted =
    let (_, (p, known, grants)) = (check_permission_iff m now later token operation).0 granted in
    let known' : setup_default_permissions token.role ≡ some p =
      rw (Managed_permissions m managed) at known in
    within token.role operation (
      rw (default_names_lem token.role p known')
        (named_text p.allowed_operations operation grants.named))
