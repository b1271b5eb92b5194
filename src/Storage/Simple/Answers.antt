-- ===== src/Storage/Simple/Answers.antt =====
-- What the store answers to raft-rs after `apply_snapshot`, `compact` and `save_hard_state`.
use iroh_raft.Common.{
  ℕ, suc, ◌+◌, ◌-◌, ◌%◌, ◌<◌, ◌≤◌, ◌≡◌, refl, ap, ◌∙◌, Bool, List, [], ◌∷◌, Option, none, some,
  arith, leb, ◌==◌, if◌then◌else◌, ok, err, lt→ltb,
}
use iroh_raft.Common.Bytes.{u64_mod}
use iroh_raft.Storage.Codec.{
  ConfState, HardState, serialize_conf_state, serialize_hard_state, hard_state_bytes,
}
use iroh_raft.Storage.Codec.States.{IsWideHard, deserialize_hard_state-serialize_hard_state}
use iroh_raft.Storage.Redb.{Crates, SnapshotMetadata, Snapshot}
use iroh_raft.Storage.Simple.{
  Database, collect_keys, remove_entries, save_conf, install, apply_snapshot, compact,
  save_hard_state, applied_index, snapshot_key, hard_state_key, unavailable,
}
use iroh_raft.Storage.Simple.Appending.{NoFaults}
use iroh_raft.Storage.Simple.Pruning.{apply_snapshot_prunes, compact_prunes}
use iroh_raft.Storage.Simple.Queries.{
  stored_snapshot, first_index, term, snapshot_from, entries, read_entries,
}

module _ (c : Crates) (calm : NoFaults c) where
  open c use {log, slots, snapshots}

  collect_keys_total :
      (p : ℕ → Bool) (ks : List ℕ) → (found : List ℕ) × (collect_keys c p ks ≡ ok found)
  unfolding collect_keys
  collect_keys_total p [] = ([], refl)
  collect_keys_total p (k ∷ ks) =
      let (rest, e) = collect_keys_total p ks in
      (if p k then k ∷ rest else rest, ground (arith, calm "read log key" k))

  remove_entries_total :
      (ks : List ℕ) (t : log.Content) → (t' : log.Content) × (remove_entries c t ks ≡ ok t')
  unfolding remove_entries
  remove_entries_total [] t = (t, refl)
  remove_entries_total (k ∷ ks) t =
      rw (calm "remove log entry" k) (remove_entries_total ks (log.remove t k))

  save_conf_total :
      (t : slots.Content) (cs : Option ConfState)
      → (t' : slots.Content) × (save_conf c t cs ≡ ok t')
  unfolding save_conf serialize_conf_state
  save_conf_total t none = (t, refl)
  save_conf_total t (some cs) =
      rw (calm "open conf_state table" 0, calm "insert conf state" 0) (_, refl)

  install_total :
      (db : Database c) (snap : Snapshot) (m : Option SnapshotMetadata)
      → (db' : Database c) × (install c db snap m ≡ ok db')
  unfolding install
  install_total db snap none = (db, refl)
  install_total db snap (some m) =
      let (found, e) = collect_keys_total (λ k. leb k m.index) (log.keys db.raft_log) in
      let (table, r) = remove_entries_total found db.raft_log in
      let (conf, s) = save_conf_total db.conf_state m.conf_state in
      rw
        (
          calm "open raft_log table" 0,
          calm "range log entries" 0,
          e,
          r,
          calm "open snapshot table" 0,
          calm "insert snapshot" 0,
          s,
        )
        (_, refl)

  apply_snapshot_total :
      (db : Database c) (snap : Snapshot) → (db' : Database c) × (apply_snapshot c db snap ≡ ok db')
  unfolding apply_snapshot
  apply_snapshot_total db snap =
      let (db', e) = install_total db snap snap.metadata in
      (db', rw (calm "begin write transaction" 0, e, calm "commit snapshot" 0))

  stored_snapshot_lem :
      (db : Database c) (snap : Snapshot)
      → slots.get db.snapshot snapshot_key ≡ some (snapshots.encode snap)
      → stored_snapshot c db ≡ ok (some snap)
  unfolding stored_snapshot
  stored_snapshot_lem db snap here =
      rw (calm "open snapshot table" 0, calm "get snapshot" 0, here, snapshots.decode-encode snap)

  -- If redb reports no error, a snapshot with metadata, whose index is below the largest 64-bit number, is applied, and the
  -- store then starts right after it, knows its term, and hands it out to whoever asks for no more than its index.
  pub apply_snapshot_answers :
      (db : Database c) (snap : Snapshot) (m : SnapshotMetadata)
      → snap.metadata ≡ some m
      → m.index + 1 < u64_mod
      → (db' : Database c) × (apply_snapshot c db snap ≡ ok db')
        × (first_index c db' ≡ ok (m.index + 1))
        × (term c db' m.index ≡ ok (if m.index == 0 then 0 else m.term))
        × ((r : ℕ) → r ≤ m.index → snapshot_from c db' r ≡ ok snap)
  unfolding first_index term snapshot_from
  apply_snapshot_answers db snap m given narrow =
      let next : (m.index + 1) % u64_mod ≡ m.index + 1 = omega arith in
      let (db', done) = apply_snapshot_total db snap in
      let stored =
        stored_snapshot_lem db' snap ((apply_snapshot_prunes c db db' snap m 0 given done).1) in
      (
        db',
        done,
        rw (calm "begin read transaction" 0, stored, given, next),
        ground (arith, calm "begin read transaction" 0, stored, given),
        λ r h. ground (arith, calm "begin read transaction" 0, stored, given),
      )

  -- If redb reports no error, a hard state of 64-bit fields is saved, its commit index is what
  -- `applied_index` then returns, and the log and the snapshot stay as they were.
  pub applied_index-save_hard_state :
      (db : Database c) (hs : HardState)
      → IsWideHard hs
      → (db' : Database c) × (save_hard_state c db hs ≡ ok db')
        × (applied_index c db' ≡ ok hs.commit)
        × (db'.raft_log ≡ db.raft_log)
        × (db'.snapshot ≡ db.snapshot)
  unfolding save_hard_state applied_index serialize_hard_state
  applied_index-save_hard_state db hs w = (
    record db { hard_state = slots.insert db.hard_state hard_state_key (hard_state_bytes hs) },
    rw (
      calm "begin write transaction" 0,
      calm "open hard_state table" 0,
      calm "insert hard state" 0,
      calm "commit hard state" 0,
    ),
    rw (
      calm "begin read transaction" 0,
      calm "open hard_state table" 0,
      calm "get hard state" 0,
      slots.get-insert_self db.hard_state hard_state_key (hard_state_bytes hs),
      deserialize_hard_state-serialize_hard_state hs w,
    ),
    refl,
    refl,
  )

  -- If redb reports no error, the store keeps announcing the index after its snapshot as its first
  -- one when a compaction has removed the entry there, and then answers a read from that index on
  -- by `unavailable`; the index of the compaction is a 64-bit number.
  pub first_index-compact_stale :
      (db db' : Database c) (snap : Snapshot) (m : SnapshotMetadata) (n high : ℕ)
      → snap.metadata ≡ some m
      → slots.get db.snapshot snapshot_key ≡ some (snapshots.encode snap)
      → compact c db n ≡ ok db'
      → n < u64_mod
      → m.index + 1 < n
      → m.index + 1 < high
      → (first_index c db' ≡ ok (m.index + 1))
        × (entries c db' (m.index + 1) high none ≡ err unavailable)
  unfolding first_index entries read_entries
  first_index-compact_stale db db' snap m n high given here done wide beyond inside =
      let next : (m.index + 1) % u64_mod ≡ m.index + 1 = omega arith in
      let kept : slots.get db'.snapshot snapshot_key ≡ some (snapshots.encode snap) =
        ap (λ t. slots.get t snapshot_key) ((compact_prunes c db db' n 0 done).1) ∙ here in
      let stored = stored_snapshot_lem db' snap kept in
      let gone : log.get db'.raft_log (m.index + 1) ≡ none =
        (compact_prunes c db db' n (m.index + 1) done).0 ∙ rw (lt→ltb (m.index + 1) n beyond) in
      let count : high - (m.index + 1) ≡ suc (high - (m.index + 1) - 1) = omega arith in
      (
        rw (calm "begin read transaction" 0, stored, given, next),
        rw (
          calm "begin read transaction" 0,
          calm "open raft_log table" 0,
          count,
          calm "get log entry" (m.index + 1),
          gone,
        ),
      )
