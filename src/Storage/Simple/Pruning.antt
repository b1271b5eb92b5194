-- ===== src/Storage/Simple/Pruning.antt =====
-- `compact` and `apply_snapshot`: which log entries go, and what the store answers afterwards.
use iroh_raft.Common.{
  ℕ, ◌≡◌, refl, ap, ◌∙◌, inl, inr, Bool, ◌&&◌, List, [], ◌∷◌, none, some, arith, ltb, leb, ◌==◌,
  if◌then◌else◌, ok, Bool-cases, Outcome-cases,
}
use iroh_raft.Storage.Redb.{Crates, SnapshotMetadata, Snapshot, has}
use iroh_raft.Storage.Simple.{
  Database, collect_keys, remove_entries, save_conf, install, apply_snapshot, compact, snapshot_key,
}

module _ (c : Crates) where
  open c use {log, slots, snapshots}

  has-collect_keys :
      (p : ℕ → Bool) (ks found : List ℕ) (k : ℕ)
      → collect_keys c p ks ≡ ok found
      → has found k ≡ (has ks k && p k)
  unfolding collect_keys
  has-collect_keys p [] found k h = ground arith
  has-collect_keys p (x ∷ ks) found k h = elim (Outcome-cases (collect_keys c p ks)) [
    | inl (rest, e) ↦ ground (arith, has-collect_keys p ks rest k e)
    | inr (x, e) ↦ absurd (ground arith)
  ]

  get-remove :
      (t : log.Content) (k j : ℕ)
      → log.get (log.remove t k) j ≡ (if k == j then none else log.get t j)
  get-remove t k j = elim (Bool-cases (k == j)) [
    | inl e ↦ rw e (ap (λ i. log.get (log.remove t k) i) (ground arith) ∙ log.get-remove_self t k)
    | inr e ↦ rw e (log.get-remove_ne t k j (ground arith))
  ]

  get-remove_entries :
      (ks : List ℕ) (t t' : log.Content) (k : ℕ)
      → remove_entries c t ks ≡ ok t'
      → log.get t' k ≡ (if has ks k then none else log.get t k)
  unfolding remove_entries
  get-remove_entries [] t t' k h = ground arith
  get-remove_entries (x ∷ ks) t t' k h =
      ground (arith, get-remove_entries ks (log.remove t x) t' k, get-remove t x k)

  -- The two loops together remove the keys in the range and no other.
  get_pruned :
      (p : ℕ → Bool) (t t' : log.Content) (found : List ℕ) (k : ℕ)
      → collect_keys c p (log.keys t) ≡ ok found
      → remove_entries c t found ≡ ok t'
      → log.get t' k ≡ (if p k then none else log.get t k)
  get_pruned p t t' found k h r = ground (
    arith,
    has-collect_keys p (log.keys t) found k h,
    get-remove_entries found t t' k r,
    log.has-keys t k,
  )

  -- A compaction that went through made both loops.
  compact_ok :
      (db db' : Database c) (n : ℕ)
      → compact c db n ≡ ok db'
      → (found : List ℕ) × (table : log.Content) × (collect_keys c
            (λ k. ltb k n)
            (log.keys db.raft_log)
          ≡ ok found)
        × (remove_entries c db.raft_log found ≡ ok table)
        × (db' ≡ record db { raft_log = table })
  unfolding compact
  compact_ok db db' n h =
      elim (Outcome-cases (collect_keys c (λ k. ltb k n) (log.keys db.raft_log))) [
        | inl (found, e) ↦ elim (Outcome-cases (remove_entries c db.raft_log found)) [
          | inl (table, r) ↦ (found, table, e, r, ground arith)
          | inr (x, r) ↦ absurd (ground arith)
        ]
        | inr (x, e) ↦ absurd (ground arith)
      ]

  -- Whatever redb does, a compaction that succeeds removes exactly the entries below its index, and
  -- leaves the other three tables as they were.
  pub compact_prunes :
      (db db' : Database c) (n k : ℕ)
      → compact c db n ≡ ok db'
      → (log.get db'.raft_log k ≡ (if ltb k n then none else log.get db.raft_log k))
        × (db'.snapshot ≡ db.snapshot)
        × (db'.hard_state ≡ db.hard_state)
        × (db'.conf_state ≡ db.conf_state)
  compact_prunes db db' n k h =
      let (found, table, e, r, same) = compact_ok db db' n h in
      rw same (get_pruned (λ j. ltb j n) db.raft_log table found k e r, refl, refl, refl)

  -- A snapshot with metadata that was installed went through both loops and wrote its tables.
  apply_snapshot_ok :
      (db db' : Database c) (snap : Snapshot) (m : SnapshotMetadata)
      → snap.metadata ≡ some m
      → apply_snapshot c db snap ≡ ok db'
      → (found : List ℕ) × (table : log.Content) × (conf : slots.Content) × (collect_keys c
            (λ k. leb k m.index)
            (log.keys db.raft_log)
          ≡ ok found)
        × (remove_entries c db.raft_log found ≡ ok table)
        × (save_conf c db.conf_state m.conf_state ≡ ok conf)
        × (db' ≡ record db {
          raft_log = table;
          snapshot = slots.insert db.snapshot snapshot_key (snapshots.encode snap);
          conf_state = conf;
        })
  unfolding apply_snapshot install
  apply_snapshot_ok db db' snap m given h =
      elim (Outcome-cases (collect_keys c (λ k. leb k m.index) (log.keys db.raft_log))) [
        | inl (found, e) ↦ elim (Outcome-cases (remove_entries c db.raft_log found)) [
          | inl (table, r) ↦ elim (Outcome-cases (save_conf c db.conf_state m.conf_state)) [
            | inl (conf, s) ↦ (found, table, conf, e, r, s, ground arith)
            | inr (x, s) ↦ absurd (ground arith)
          ]
          | inr (x, r) ↦ absurd (ground arith)
        ]
        | inr (x, e) ↦ absurd (ground arith)
      ]

  -- Whatever redb does, a snapshot with metadata that is applied removes exactly the entries up to
  -- its index, is the stored snapshot, and leaves the hard state as it was.
  pub apply_snapshot_prunes :
      (db db' : Database c) (snap : Snapshot) (m : SnapshotMetadata) (k : ℕ)
      → snap.metadata ≡ some m
      → apply_snapshot c db snap ≡ ok db'
      → (log.get db'.raft_log k ≡ (if leb k m.index then none else log.get db.raft_log k))
        × (slots.get db'.snapshot snapshot_key ≡ some (snapshots.encode snap))
        × (db'.hard_state ≡ db.hard_state)
  apply_snapshot_prunes db db' snap m k given h =
      let (found, table, conf, e, r, s, same) = apply_snapshot_ok db db' snap m given h in
      rw same (
        get_pruned (λ j. leb j m.index) db.raft_log table found k e r,
        slots.get-insert_self db.snapshot snapshot_key (snapshots.encode snap),
        refl,
      )
