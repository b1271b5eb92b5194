-- ===== src/Error.antt =====
-- src/error.rs: the error type of the crate, its classification, and the constructor of storage
-- errors. A backtrace and a foreign error inside a variant (of redb, raft-rs, std::io or serde) are
-- left out; the text that the sources write for the `source` of a serialisation error is kept.
-- Durations are milliseconds.
pub mod Classes
use Prim.Native.String.{String}
use iroh_raft.Common.{ℕ, Bool, true, false, ◌&&◌, ◌||◌, Option}

-- The text under a `Serialization` error: a literal, or one of the two `format!`s of the codec.
pub data Cause : Type 0 where
  text : String → Cause
  need_have : String → ℕ → ℕ → Cause
  foreign : Cause

mutual
  pub data RaftError : Type 0 where
    not_leader : String → Option ℕ → RaftError
    node_not_found : ℕ → RaftError
    consensus : String → RaftError
    database : String → RaftError
    storage : String → RaftError
    transport : String → RaftError
    not_ready : ℕ → String → String → RaftError
    proposal_rejected : String → String → RaftError
    configuration_change : String → String → RaftError
    snapshot : String → String → RaftError
    timeout : String → ℕ → RaftError
    circuit_breaker_open : String → RaftError
    backpressure : String → String → RaftError
    resource_exhausted : String → String → RaftError
    transaction : String → String → RaftError
    storage_corruption : String → String → RaftError
    insufficient_space : String → ℕ → ℕ → RaftError
    connection_failed : String → String → RaftError
    network_partition : String → RaftError
    serialization : String → Cause → RaftError
    protocol_mismatch : String → String → String → RaftError
    network_timeout : String → String → ℕ → RaftError
    invalid_configuration : String → String → RaftError
    missing_configuration : String → String → RaftError
    configuration_validation : String → String → RaftError
    service_unavailable : String → String → RaftError
    authentication_failed : String → String → RaftError
    authorization_denied : String → String → RaftError
    cryptographic : String → String → RaftError
    invariant_violation : String → RaftError
    not_implemented : String → RaftError
    invalid_state : String → String → String → RaftError
    lock_poisoned : String → String → RaftError
    invalid_input : String → String → RaftError
    validation : String → String → RaftError
    constraint_violation : String → String → String → RaftError
    io : String → RaftError
    system : String → String → RaftError
    internal : String → RaftError
    cluster_error : String → RaftError
    multiple : String → Errors → RaftError

  -- The `Vec<RaftError>` of a `Multiple`.
  pub data Errors : Type 0 where
    nil : Errors
    cons : RaftError → Errors → Errors

unfoldable mutual
  pub is_transient : RaftError → Bool
  is_transient (network_timeout _ _ _) = true
  is_transient (connection_failed _ _) = true
  is_transient (transport _) = true
  is_transient (service_unavailable _ _) = true
  is_transient (resource_exhausted _ _) = true
  is_transient (not_ready _ _ _) = true
  is_transient (multiple _ es) = all_transient es
  is_transient _ = false

  pub all_transient : Errors → Bool
  all_transient nil = true
  all_transient (cons e es) = is_transient e && all_transient es

unfoldable mutual
  pub should_step_down : RaftError → Bool
  should_step_down (network_partition _) = true
  should_step_down (storage_corruption _ _) = true
  should_step_down (insufficient_space _ _ _) = true
  should_step_down (multiple _ es) = any_step_down es
  should_step_down _ = false

  pub any_step_down : Errors → Bool
  any_step_down nil = false
  any_step_down (cons e es) = should_step_down e || any_step_down es

unfoldable pub category : RaftError → String
category (not_leader _ _) = "raft"
category (consensus _) = "raft"
category (not_ready _ _ _) = "raft"
category (node_not_found _) = "raft"
category (proposal_rejected _ _) = "raft"
category (configuration_change _ _) = "raft"
category (snapshot _ _) = "raft"
category (storage _) = "storage"
category (database _) = "storage"
category (transaction _ _) = "storage"
category (storage_corruption _ _) = "storage"
category (insufficient_space _ _ _) = "storage"
category (transport _) = "transport"
category (connection_failed _ _) = "transport"
category (network_partition _) = "transport"
category (serialization _ _) = "transport"
category (protocol_mismatch _ _ _) = "transport"
category (network_timeout _ _ _) = "transport"
category (invalid_configuration _ _) = "configuration"
category (missing_configuration _ _) = "configuration"
category (configuration_validation _ _) = "configuration"
category (authentication_failed _ _) = "security"
category (authorization_denied _ _) = "security"
category (cryptographic _ _) = "security"
category (invariant_violation _) = "internal"
category (not_implemented _) = "internal"
category (invalid_state _ _ _) = "internal"
category (lock_poisoned _ _) = "internal"
category (invalid_input _ _) = "validation"
category (validation _ _) = "validation"
category (constraint_violation _ _ _) = "validation"
category (resource_exhausted _ _) = "system"
category (timeout _ _) = "system"
category (service_unavailable _ _) = "system"
category (io _) = "system"
category (system _ _) = "system"
category (internal _) = "internal"
category (cluster_error _) = "cluster"
category (multiple _ _) = "multiple"
category (circuit_breaker_open _) = "circuit_breaker"
category (backpressure _ _) = "backpressure"

-- `RaftError::storage_error`: the operation's name, and the foreign error that is left out here.
abbrev pub storage_error : String → RaftError
storage_error operation = storage operation
