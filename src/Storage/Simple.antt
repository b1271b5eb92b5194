-- ===== src/Storage/Simple.antt =====
-- src/storage/simple.rs: `RaftStorage`, the store of a Raft node over four redb tables: its state and
-- the operations that write. A write transaction that is dropped before
-- `commit` leaves the database as it was: an operation returns the new database, or an error alone.
pub mod Queries
pub mod Appending
pub mod Pruning
pub mod Answers
pub mod Ranges
use Prim.Native.String.{String}
use iroh_raft.Common.{
  ℕ, zero, suc, ◌+◌, ◌-◌, ◌*◌, ◌^◌, ◌==◌, Bool, true, false, List, [], ◌∷◌, ◌++◌, Option, none,
  some, length, ltb, leb, if◌then◌else◌, Outcome, ok, err, ◌>>=◌, ◌>>◌, fail_if, map_err,
}
use iroh_raft.Error.{RaftError, Cause, storage_error}
use iroh_raft.Storage.Codec.{
  Bytes, Entry, HardState, ConfState, serialize_entry, deserialize_entry, serialize_hard_state,
  deserialize_hard_state, serialize_conf_state, deserialize_conf_state,
}
use iroh_raft.Storage.Redb.{Crates, SnapshotMetadata, Snapshot}

-- `raft::Error::Store(raft::StorageError)`.
pub data StoreError : Type 0 where
  other : RaftError → StoreError
  unavailable : StoreError
  snapshot_temporarily_unavailable : StoreError

-- `raft::RaftState`.
pub record RaftState : Type 0 where
  pub hard_state : HardState
  pub conf_state : ConfState

-- `HardState::default()` and `ConfState::default()`.
abbrev pub default_hard_state : HardState
default_hard_state = record { term = 0; vote = 0; commit = 0 }

abbrev pub default_conf_state : ConfState
default_conf_state = record {
  voters = [];
  learners = [];
  voters_outgoing = [];
  learners_next = [];
  auto_leave = false;
}

abbrev pub hard_state_key : String
hard_state_key = "hard_state"

abbrev pub u64_max : ℕ
u64_max = 2 ^ 64 - 1

abbrev pub unwrap_or : Option ℕ → ℕ → ℕ
unwrap_or none d = d
unwrap_or (some n) d = n

abbrev pub conf_state_key : String
conf_state_key = "conf_state"

abbrev pub snapshot_key : String
snapshot_key = "snapshot"

-- The four tables: `raft_log`, `hard_state`, `conf_state` and `snapshot`.
pub record Database (c : Crates) : Type 0 where
  pub raft_log : c.log.Content
  pub hard_state : c.slots.Content
  pub conf_state : c.slots.Content
  pub snapshot : c.slots.Content

module _ (c : Crates) where
  open c use {log, slots, snapshots, faults}

  -- A step of a write operation: `.map_err(|e| Error::storage_error(op, e))?`.
  abbrev pub step : String → ℕ → Outcome RaftError (Unit {0})
  step op key = fail_if (faults op key) (storage_error op)

  -- A step of a read operation: `.map_err(|e| StorageError::Other(Box::new(e)))?`.
  abbrev pub read_step : String → ℕ → Outcome StoreError (Unit {0})
  read_step op key = fail_if (faults op key) (other (storage_error op))

  -- An existing file keeps its tables; those of a new file are empty.
  unfoldable pub new : Database c → Outcome RaftError (Database c)
  new db = do
    fail_if (faults "create data directory" 0) (RaftError.io "create data directory")
    step "create database" 0
    step "begin write transaction" 0
    step "open raft_log table" 0
    step "open hard_state table" 0
    step "open conf_state table" 0
    step "open snapshot table" 0
    step "commit table initialization" 0
    ok db

  unfoldable pub applied_index : Database c → Outcome RaftError ℕ
  applied_index db = do
    step "begin read transaction" 0
    step "open hard_state table" 0
    step "get hard state" 0
    elim (slots.get db.hard_state hard_state_key) [
      | none ↦ ok 0
      | some bytes ↦ do hs ← deserialize_hard_state bytes; ok hs.commit
    ]

  unfoldable pub save_hard_state : Database c → HardState → Outcome RaftError (Database c)
  save_hard_state db hs = do
    step "begin write transaction" 0
    step "open hard_state table" 0
    bytes ← serialize_hard_state hs
    step "insert hard state" 0
    step "commit hard state" 0
    ok (record db { hard_state = slots.insert db.hard_state hard_state_key bytes })

  -- The loop of `append` over the entries.
  unfoldable pub insert_entries : log.Content → List Entry → Outcome RaftError log.Content
  insert_entries table [] = ok table
  insert_entries table (e ∷ es) = do
    bytes ← serialize_entry e
    step "insert log entry" e.index
    insert_entries (log.insert table e.index bytes) es

  unfoldable pub append : Database c → List Entry → Outcome RaftError (Database c)
  append db [] = ok db
  append db (e ∷ es) = do
    step "begin write transaction" 0
    step "open raft_log table" 0
    table ← insert_entries db.raft_log (e ∷ es)
    step "commit entries" 0
    ok (record db { raft_log = table })

  -- The keys of a range, read one after another: `collect::<Result<Vec<_>>>()?`.
  unfoldable pub collect_keys : (ℕ → Bool) → List ℕ → Outcome RaftError (List ℕ)
  collect_keys in_range [] = ok []
  collect_keys in_range (k ∷ ks) =
      let rest = collect_keys in_range ks in
      if in_range k then (do step "read log key" k; found ← rest; ok (k ∷ found)) else rest

  -- `for index in entries_to_remove { log_table.remove(index)?; }`
  unfoldable pub remove_entries : log.Content → List ℕ → Outcome RaftError log.Content
  remove_entries table [] = ok table
  remove_entries table (k ∷ ks) = do
    step "remove log entry" k
    remove_entries (log.remove table k) ks

  unfoldable pub save_conf : slots.Content → Option ConfState → Outcome RaftError slots.Content
  save_conf table none = ok table
  save_conf table (some cs) = do
    step "open conf_state table" 0
    bytes ← serialize_conf_state cs
    step "insert conf state" 0
    ok (slots.insert table conf_state_key bytes)

  -- What the transaction of `apply_snapshot` does before its commit.
  unfoldable pub install :
      Database c → Snapshot → Option SnapshotMetadata → Outcome RaftError (Database c)
  install db snap none = ok db
  install db snap (some metadata) = do
    step "open raft_log table" 0
    step "range log entries" 0
    covered ← collect_keys (λ k. leb k metadata.index) (log.keys db.raft_log)
    table ← remove_entries db.raft_log covered
    step "open snapshot table" 0
    step "insert snapshot" 0
    conf ← save_conf db.conf_state metadata.conf_state
    ok (record db {
      raft_log = table;
      snapshot = slots.insert db.snapshot snapshot_key (snapshots.encode snap);
      conf_state = conf;
    })

  unfoldable pub apply_snapshot : Database c → Snapshot → Outcome RaftError (Database c)
  apply_snapshot db snap = do
    step "begin write transaction" 0
    changed ← install db snap snap.metadata
    step "commit snapshot" 0
    ok changed

  unfoldable pub compact : Database c → ℕ → Outcome RaftError (Database c)
  compact db compact_index = do
    step "begin write transaction" 0
    step "open raft_log table" 0
    step "range log entries" 0
    old ← collect_keys (λ k. ltb k compact_index) (log.keys db.raft_log)
    table ← remove_entries db.raft_log old
    step "commit compaction" 0
    ok (record db { raft_log = table })
