-- ===== src/Storage/Tests/Stores.antt =====
-- src/storage/simple.rs at concrete inputs.
use iroh_raft.Common.{ℕ, ◌≡◌, refl, ◌+◌, arith, false, [], ◌∷◌, none, some, ok, err, ◌≤◌}
use iroh_raft.Common.Bytes.{to_le_bytes, from_le_bytes}
use iroh_raft.Storage.Codec.{Entry, entry_bytes, deserialize_entry, read_le}
use iroh_raft.Storage.Redb.{Snapshot, SnapshotMetadata}
use iroh_raft.Storage.Reference.{crates, put, pull}
use iroh_raft.Storage.Simple.{
  Database, append, apply_snapshot, install, collect_keys, remove_entries, save_conf, compact,
  snapshot_key, unavailable,
}
use iroh_raft.Storage.Simple.Queries.{
  entries, read_entries, first_index, last_index, stored_snapshot, term, snapshot_from,
}
use iroh_raft.Storage.Simple.Appending.{StoredFrom, entries-append, entries_sound}
use iroh_raft.Storage.Simple.Answers.{apply_snapshot_answers, first_index-compact_stale}
use iroh_raft.Storage.Simple.Ranges.{begin, then_step, applies, first_index-last_index}

abbrev entry : ℕ → Entry
entry i = record {
  entry_type = 0;
  term = 1;
  index = i;
  payload = 5 ∷ [];
  context = [];
  sync_log = false;
}

abbrev fresh : Database crates
fresh = record {
  raft_log = [];
  hard_state = λ k. none;
  conf_state = λ k. none;
  snapshot = λ k. none;
}

-- The log holds the entries 1, 2 and 3.
abbrev three : Database crates
three = record fresh {
  raft_log =
      none
      ∷ some (entry_bytes (entry 1))
      ∷ some (entry_bytes (entry 2))
      ∷ some (entry_bytes (entry 3))
      ∷ [];
}

abbrev at_one : SnapshotMetadata
at_one = record { conf_state = none; index = 1; term = 1 }

abbrev snap_one : Snapshot
snap_one = record { payload = 8 ∷ []; metadata = some at_one }

entries-append_example :
    (db' : Database crates) × (append crates fresh (entry 1 ∷ entry 2 ∷ []) ≡ ok db')
    × (entries crates db' 1 3 none ≡ ok (entry 1 ∷ entry 2 ∷ []))
entries-append_example =
    entries-append crates fresh (entry 1 ∷ entry 2 ∷ []) 1 none (λ op key. refl) (refl, (refl, tt))
      (omega arith) (unfold entry_bytes to_le_bytes in omega arith)

entries_sound_example : StoredFrom crates three.raft_log 2 (entry 2 ∷ []) × (1 ≤ 1)
entries_sound_example = entries_sound crates three 2 3 none (entry 2 ∷ []) (
    unfold entries read_entries entry_bytes to_le_bytes from_le_bytes deserialize_entry read_le in
    refl)

abbrev from_two : Database crates
from_two = record three {
  raft_log = none ∷ none ∷ some (entry_bytes (entry 2)) ∷ some (entry_bytes (entry 3)) ∷ [];
}

-- The store after `snap_one` was applied to it.
abbrev after_one : Database crates
after_one = record from_two {
  snapshot = crates.slots.insert (λ k. none) snapshot_key (crates.snapshots.encode snap_one);
}

one_applied : apply_snapshot crates three snap_one ≡ ok after_one
unfolding apply_snapshot install collect_keys remove_entries save_conf
one_applied = refl

apply_snapshot_answers_example :
    (db' : Database crates) × (apply_snapshot crates three snap_one ≡ ok db')
    × (first_index crates db' ≡ ok 2)
    × (term crates db' 1 ≡ ok 1)
    × ((r : ℕ) → r ≤ 1 → snapshot_from crates db' r ≡ ok snap_one)
apply_snapshot_answers_example =
    apply_snapshot_answers crates (λ op key. refl) three snap_one at_one refl (omega arith)

-- The entry at 2 is compacted away although the snapshot ends at 1.
abbrev overrun : Database crates
overrun = record after_one { raft_log = none ∷ none ∷ none ∷ some (entry_bytes (entry 3)) ∷ [] }

first_index-compact_stale_example :
    (first_index crates overrun ≡ ok 2) × (entries crates overrun 2 4 none ≡ err unavailable)
first_index-compact_stale_example =
    first_index-compact_stale crates (λ op key. refl) after_one overrun snap_one at_one 3 4 refl
      refl (unfold compact collect_keys remove_entries in refl) (omega arith) (omega arith)
      (omega arith)

first_index-last_index_example : 2 ≤ 3 + 1
first_index-last_index_example =
    first_index-last_index crates {start = three} {db = after_one} 2 3 refl
      (then_step begin (applies snap_one one_applied))
      (unfold first_index stored_snapshot put pull in refl) (unfold last_index in refl)
