-- ===== src/Storage/Simple/Queries.antt =====
-- src/storage/simple.rs: `impl Storage for RaftStorage`, what raft-rs reads from the store.
use iroh_raft.Common.{
  ℕ, zero, suc, ◌+◌, ◌-◌, ◌%◌, ◌==◌, List, [], ◌∷◌, Option, none, some, length, ltb, leb,
  if◌then◌else◌, Outcome, ok, err, ◌>>=◌, ◌>>◌, map_err,
}
use iroh_raft.Common.Bytes.{u64_mod}
use iroh_raft.Error.{RaftError, Cause}
use iroh_raft.Storage.Codec.{
  Bytes, Entry, deserialize_entry, deserialize_hard_state, deserialize_conf_state,
}
use iroh_raft.Storage.Redb.{Crates, SnapshotMetadata, Snapshot}
use iroh_raft.Storage.Simple.{
  Database, StoreError, other, unavailable, snapshot_temporarily_unavailable, RaftState, read_step,
  default_hard_state, default_conf_state, hard_state_key, conf_state_key, snapshot_key, u64_max,
  unwrap_or,
}

-- A value of the store, or the default where the table has none.
abbrev pub stored_or {ℓ} :
    {A : Type ℓ} → (Bytes → Outcome RaftError A) → A → Option Bytes → Outcome StoreError A
stored_or decode default none = ok default
stored_or decode default (some bytes) = map_err other (decode bytes)

-- The first and the last key of a range.
abbrev pub first : List ℕ → Option ℕ
first [] = none
first (k ∷ ks) = some k

abbrev pub last : List ℕ → Option ℕ
last [] = none
last (k ∷ []) = some k
last (k ∷ j ∷ ks) = last (j ∷ ks)

abbrev pub metadata_of : Option Snapshot → Option SnapshotMetadata
metadata_of none = none
metadata_of (some snap) = snap.metadata

module _ (c : Crates) where
  open c use {log, slots, snapshots, faults}

  unfoldable pub initial_state : Database c → Outcome StoreError RaftState
  initial_state db = do
    read_step c "begin read transaction" 0
    read_step c "open hard_state table" 0
    read_step c "get hard state" 0
    hs ←
        stored_or deserialize_hard_state default_hard_state (slots.get db.hard_state hard_state_key)
    read_step c "open conf_state table" 0
    read_step c "get conf state" 0
    cs ←
        stored_or deserialize_conf_state default_conf_state (slots.get db.conf_state conf_state_key)
    ok (record { hard_state = hs; conf_state = cs })

  -- `for index in low..high`, with `left` indices to go: `total_size` bytes were taken so far.
  unfoldable pub read_entries : log.Content → ℕ → ℕ → ℕ → ℕ → Outcome StoreError (List Entry)
  read_entries table max_size zero index total_size = ok []
  read_entries table max_size (suc left) index total_size = do
    read_step c "get log entry" index
    elim (log.get table index) [
      | none ↦ err unavailable
      | some bytes ↦ if ltb max_size (total_size + length bytes) then ok [] else do
        entry ← map_err other (deserialize_entry bytes)
        rest ← read_entries table max_size left (suc index) (total_size + length bytes)
        ok (entry ∷ rest)
    ]

  unfoldable pub entries : Database c → ℕ → ℕ → Option ℕ → Outcome StoreError (List Entry)
  entries db low high max_size = do
    read_step c "begin read transaction" 0
    read_step c "open raft_log table" 0
    read_entries db.raft_log (unwrap_or max_size u64_max) (high - low) low 0

  -- `snapshot_table.get(SNAPSHOT_KEY)` and its decoding: the snapshot, if one is stored.
  unfoldable pub stored_snapshot : Database c → Outcome StoreError (Option Snapshot)
  stored_snapshot db = do
    read_step c "open snapshot table" 0
    read_step c "get snapshot" 0
    elim (slots.get db.snapshot snapshot_key) [
      | none ↦ ok none
      | some bytes ↦ elim (snapshots.decode bytes) [
        | none ↦ err (other (RaftError.serialization "Snapshot" Cause.foreign))
        | some snap ↦ ok (some snap)
      ]
    ]

  -- The log's part of `term`.
  unfoldable pub log_term : Database c → ℕ → Outcome StoreError ℕ
  log_term db index = do
    read_step c "open raft_log table" 0
    read_step c "get log entry" index
    elim (log.get db.raft_log index) [
      | none ↦ err unavailable
      | some bytes ↦ do entry ← map_err other (deserialize_entry bytes); ok entry.term
    ]

  unfoldable pub term : Database c → ℕ → Outcome StoreError ℕ
  term db index = if index == 0 then ok 0 else do
    read_step c "begin read transaction" 0
    snap ← stored_snapshot db
    elim (metadata_of snap) [
      | none ↦ log_term db index
      | some m ↦ if index == m.index then ok m.term else log_term db index
    ]

  -- `metadata.index + 1` is an addition of `u64`, which wraps where overflow is not checked.
  unfoldable pub first_index : Database c → Outcome StoreError ℕ
  first_index db = do
    read_step c "begin read transaction" 0
    snap ← stored_snapshot db
    elim (metadata_of snap) [
      | some m ↦ ok ((m.index + 1) % u64_mod)
      | none ↦ do
        read_step c "open raft_log table" 0
        read_step c "range log entries" 0
        ok (unwrap_or (first (log.keys db.raft_log)) 1)
    ]

  unfoldable pub last_index : Database c → Outcome StoreError ℕ
  last_index db = do
    read_step c "begin read transaction" 0
    read_step c "open raft_log table" 0
    read_step c "range log entries" 0
    elim (last (log.keys db.raft_log)) [
      | some k ↦ ok k
      | none ↦ do
        snap ← stored_snapshot db
        elim (metadata_of snap) [ none ↦ ok 0 | some m ↦ ok m.index ]
    ]

  -- `snapshot(request_index, _to)`: the stored snapshot if it reaches that far.
  unfoldable pub snapshot_from : Database c → ℕ → Outcome StoreError Snapshot
  snapshot_from db request_index = do
    read_step c "begin read transaction" 0
    snap ← stored_snapshot db
    elim snap [
      | none ↦ err snapshot_temporarily_unavailable
      | some s ↦ elim s.metadata [
        | none ↦ err snapshot_temporarily_unavailable
        | some m ↦ if leb request_index m.index then ok s else err snapshot_temporarily_unavailable
      ]
    ]
