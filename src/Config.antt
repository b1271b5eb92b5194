-- ===== src/Config.antt =====
-- src/config.rs: validation, the environment variables and the builder. The environment is a function from
-- names to values; the reading and parsing of a TOML file is given by its result.
pub mod Outside
pub mod Types
pub mod Defaults
pub mod Builder
pub mod Validity
mod Tests
use Prim.Native.String.{String, ◌++◌ as concat}
use text.Mathlib.Text.{◌==◌ as str_eq}
use iroh_raft.Common.{
  ℕ, ◌+◌, ◌%◌, leb, not, Bool, true, false, List, [], ◌∷◌, Option, none, some, Outcome, ok, err,
  map_err, fail_if, ◌>>=◌, ◌>>◌, if◌then◌else◌,
}
use iroh_raft.Common.Bytes.{u64_mod}
use iroh_raft.Common.Equality.{string_eq, contains}
use Outside.{Host}
use Types.{Config}
use Defaults.{default}

pub data ConfigError : Type 0 where
  invalid : String → String → ConfigError
  missing : String → ConfigError
  io : String → ConfigError
  serialization : String → ConfigError
  environment : String → ConfigError
  address_parse : String → ConfigError

abbrev pub is_none : {A : Type 0} → Option A → Bool
is_none none = true
is_none (some a) = false

abbrev pub log_levels : List String
log_levels = "trace" ∷ "debug" ∷ "info" ∷ "warn" ∷ "error" ∷ []

abbrev pub unwrap_or : {A : Type 0} → Option A → A → A
unwrap_or none d = d
unwrap_or (some a) d = a

module _ (host : Host) where
  -- The loop over the peers, with the set of those seen.
  unfoldable pub check_peers :
      List host.SocketAddr → List host.SocketAddr → Outcome ConfigError (Unit {0})
  check_peers seen [] = ok tt
  check_peers seen (peer ∷ peers) =
      let rest = check_peers (peer ∷ seen) peers in
      if contains ⦃e = host.address_eq⦄ peer seen
      then err (invalid "transport.peers" (concat "Duplicate peer address: " (host.display peer)))
      else rest

  unfoldable pub validate : Config host → Outcome ConfigError (Unit {0})
  unfolding check_peers
  validate c = do
    fail_if (is_none c.node.id) (missing "node.id")
    fail_if (str_eq c.node.data_dir "") (invalid "node.data_dir" "Data directory cannot be empty")
    fail_if (leb c.raft.election_timeout_min c.raft.heartbeat_interval)
        (invalid "raft.heartbeat_interval" "Heartbeat interval must be less than election timeout")
    fail_if (leb c.raft.election_timeout_max c.raft.election_timeout_min)
        (invalid "raft.election_timeout" "Election timeout min must be less than max")
    check_peers [] c.transport.peers
    fail_if (not (contains c.observability.logging.level log_levels)) (
        invalid "observability.logging.level"
          (concat "Invalid log level: " c.observability.logging.level))
    fail_if (not (host.in_unit_interval c.observability.tracing.sample_rate))
        (invalid "observability.tracing.sample_rate" "Sample rate must be between 0.0 and 1.0")
    ok tt

  -- Where the variable is set, its value goes into the settings.
  abbrev pub override :
      (String → Option String)
      → String
      → (String → Config host → Outcome ConfigError (Config host))
      → Config host
      → Outcome ConfigError (Config host)
  override env name put c = elim (env name) [ none ↦ ok c | some value ↦ put value c ]

  abbrev pub put_node_id : String → Config host → Outcome ConfigError (Config host)
  put_node_id value c = do
    id ← map_err (λ (e : String). environment (concat "Invalid node ID: " e)) (host.parse_u64 value)
    ok (record c { node = record c.node { id = some id } })

  abbrev pub put_data_dir : String → Config host → Outcome ConfigError (Config host)
  put_data_dir value c = ok (record c { node = record c.node { data_dir = value } })

  abbrev pub put_debug : String → Config host → Outcome ConfigError (Config host)
  put_debug value c =
      ok (record c { node = record c.node { debug = unwrap_or (host.parse_bool value) false } })

  abbrev pub put_bind_address : String → Config host → Outcome ConfigError (Config host)
  put_bind_address value c = do
    address ← map_err address_parse (host.parse_address value)
    ok (record c { transport = record c.transport { bind_address = address } })

  -- `collect` into a `Result` stops at the first error.
  unfoldable pub parse_all : List String → Outcome ConfigError (List host.SocketAddr)
  parse_all [] = ok []
  parse_all (text ∷ texts) =
      let rest = parse_all texts in
      do
        address ← map_err address_parse (host.parse_address text)
        addresses ← rest
        ok (address ∷ addresses)

  unfoldable pub put_peers : String → Config host → Outcome ConfigError (Config host)
  unfolding parse_all
  put_peers value c = do
    peers ← parse_all (host.split_trimmed value)
    ok (record c { transport = record c.transport { peers = peers } })

  abbrev pub put_election_timeout : String → Config host → Outcome ConfigError (Config host)
  put_election_timeout value c = do
    ms ←
        map_err (λ (e : String). environment (concat "Invalid election timeout: " e))
          (host.parse_u64 value)
    ok (record c {
      raft = record c.raft {
        election_timeout_min = ms;
        election_timeout_max = (ms + 2000) % u64_mod;
      };
    })

  abbrev pub put_heartbeat : String → Config host → Outcome ConfigError (Config host)
  put_heartbeat value c = do
    ms ←
        map_err (λ (e : String). environment (concat "Invalid heartbeat interval: " e))
          (host.parse_u64 value)
    ok (record c { raft = record c.raft { heartbeat_interval = ms } })

  abbrev pub put_log_level : String → Config host → Outcome ConfigError (Config host)
  put_log_level value c = ok (record c {
    observability = record c.observability {
      logging = record c.observability.logging { level = value };
    };
  })

  abbrev pub put_metrics_enabled : String → Config host → Outcome ConfigError (Config host)
  put_metrics_enabled value c = ok (record c {
    observability = record c.observability {
      metrics = record c.observability.metrics { enabled = unwrap_or (host.parse_bool value) true };
    };
  })

  abbrev pub put_otlp_endpoint : String → Config host → Outcome ConfigError (Config host)
  put_otlp_endpoint value c = ok (record c {
    observability = record c.observability {
      tracing = record c.observability.tracing { enabled = true; otlp_endpoint = some value };
    };
  })

  unfoldable pub apply_env_overrides :
      (String → Option String) → Config host → Outcome ConfigError (Config host)
  unfolding put_peers
  apply_env_overrides env c = do
    c ← override env "IROH_RAFT_NODE_ID" put_node_id c
    c ← override env "IROH_RAFT_DATA_DIR" put_data_dir c
    c ← override env "IROH_RAFT_DEBUG" put_debug c
    c ← override env "IROH_RAFT_BIND_ADDRESS" put_bind_address c
    c ← override env "IROH_RAFT_PEERS" put_peers c
    c ← override env "IROH_RAFT_ELECTION_TIMEOUT_MS" put_election_timeout c
    c ← override env "IROH_RAFT_HEARTBEAT_INTERVAL_MS" put_heartbeat c
    c ← override env "IROH_RAFT_LOG_LEVEL" put_log_level c
    c ← override env "IROH_RAFT_METRICS_ENABLED" put_metrics_enabled c
    override env "OTEL_EXPORTER_OTLP_ENDPOINT" put_otlp_endpoint c

  unfoldable pub from_env : (String → Option String) → Outcome ConfigError (Config host)
  unfolding apply_env_overrides validate
  from_env env = do c ← apply_env_overrides env (default host); _ ← validate c; ok c

  -- `read` is what the reading and parsing of the file gives.
  unfoldable pub from_file :
      Outcome ConfigError (Config host)
      → (String → Option String)
      → Outcome ConfigError (Config host)
  unfolding apply_env_overrides validate
  from_file read env = do c ← read; c ← apply_env_overrides env c; _ ← validate c; ok c
