-- ===== src/Storage/Simple/Ranges.antt =====
-- The index range that the store announces, over every history of its operations.
use iroh_raft.Common.{
  ℕ, ◌+◌, ◌<◌, ◌≤◌, ◌≡◌, ◌≢◌, refl, sym, ap, ◌∙◌, inl, inr, true, List, [], ◌∷◌, Option, none, some,
  arith, All, leb, ◌==◌, ok, Outcome-cases, Option-cases, Bool-cases,
}
use iroh_raft.Storage.Codec.{Bytes, Entry, HardState, serialize_hard_state, entry_bytes}
use iroh_raft.Storage.Redb.{Crates, SnapshotMetadata, Snapshot, has, IsAscending}
use iroh_raft.Storage.Simple.{
  Database, apply_snapshot, install, compact, append, insert_entries, save_hard_state, snapshot_key,
  unwrap_or,
}
use iroh_raft.Storage.Simple.Appending.{insert_entries_step}
use iroh_raft.Storage.Simple.Pruning.{apply_snapshot_prunes, compact_prunes}
use iroh_raft.Storage.Simple.Queries.{
  stored_snapshot, first_index, last_index, metadata_of, first, last,
}

-- The metadata of the snapshot that the database holds.
pub record Holds (c : Crates) (db : Database c) (m : SnapshotMetadata) : Type 0 where
  pub bytes : Bytes
  pub snap : Snapshot
  pub is_stored : c.slots.get db.snapshot snapshot_key ≡ some bytes
  pub is_decoded : c.snapshots.decode bytes ≡ some snap
  pub has_metadata : snap.metadata ≡ some m

-- Every entry in the log lies after the snapshot that the database holds.
abbrev pub IsTrimmed : (c : Crates) → Database c → Type 0
IsTrimmed c db =
    (m : SnapshotMetadata) → Holds c db m → (k : ℕ) → c.log.get db.raft_log k ≢ none → m.index < k

module _ (c : Crates) where
  open c use {log, slots, snapshots}

  apply_snapshot-IsTrimmed :
      (db db' : Database c) (snap : Snapshot) (m : SnapshotMetadata)
      → snap.metadata ≡ some m
      → apply_snapshot c db snap ≡ ok db'
      → IsTrimmed c db'
  apply_snapshot-IsTrimmed db db' snap m given done m' h k there =
      let (got, stored, _) = apply_snapshot_prunes c db db' snap m k given done in
      let same : m' ≡ m =
        cc (
          h.is_stored,
          h.is_decoded,
          h.has_metadata,
          stored,
          snapshots.decode-encode snap,
          given,
        ) in
      elim (Bool-cases (leb k m.index)) [
        | inl low ↦ absurd (there (got ∙ rw low))
        | inr high ↦ rw same (ground arith)
      ]

  Holds-keep :
      (db db' : Database c) (m : SnapshotMetadata)
      → db'.snapshot ≡ db.snapshot
      → Holds c db' m
      → Holds c db m
  Holds-keep db db' m kept h = record {
    bytes = h.bytes;
    snap = h.snap;
    is_stored = ap (λ t. slots.get t snapshot_key) (sym kept) ∙ h.is_stored;
    is_decoded = h.is_decoded;
    has_metadata = h.has_metadata;
  }

  compact-IsTrimmed :
      (db db' : Database c) (n : ℕ) → compact c db n ≡ ok db' → IsTrimmed c db → IsTrimmed c db'
  compact-IsTrimmed db db' n done trimmed m h k there =
      let (got, kept, _, _) = compact_prunes c db db' n k done in
      trimmed m (Holds-keep db db' m kept h) k (λ gone. there (got ∙ ground (arith, gone)))

  insert_entries_after :
      (es : List Entry) (table table' : log.Content) (n k : ℕ)
      → insert_entries c table es ≡ ok table'
      → All (λ e. n < e.index) es
      → (log.get table k ≢ none → n < k)
      → log.get table' k ≢ none
      → n < k
  unfolding insert_entries
  insert_entries_after [] table table' n k done after before there =
      before (λ gone. there (ground (arith, gone)))
  insert_entries_after (e ∷ es) table table' n k done after before there =
      insert_entries_after es _ table' n k (insert_entries_step c e es table table' done) after.1
        (λ stays. elim (Bool-cases (e.index == k)) [
          | inl here ↦ ground (arith, after.0)
          | inr off ↦ before (λ gone.
              stays (log.get-insert_ne table e.index k (entry_bytes e) (ground arith) ∙ gone))
        ])
        there

  first-le-last :
      (ks : List ℕ) (a b : ℕ) → IsAscending ks → first ks ≡ some a → last ks ≡ some b → a ≤ b
  first-le-last [] a b up f l = cc
  first-le-last (x ∷ []) a b up f l = ground arith
  first-le-last (x ∷ y ∷ ks) a b up f l = ground (arith, first-le-last (y ∷ ks) y b up.1 refl l)

  has-last : (ks : List ℕ) (b : ℕ) → last ks ≡ some b → has ks b ≡ true
  has-last [] b l = cc
  has-last (x ∷ []) b l = ground arith
  has-last (x ∷ y ∷ ks) b l = ground (arith, has-last (y ∷ ks) b l)

  first-none : (ks : List ℕ) → last ks ≡ none → first ks ≡ none
  first-none [] l = refl
  first-none (x ∷ []) l = cc
  first-none (x ∷ y ∷ ks) l = cc (first-none (y ∷ ks) l)

  stored_snapshot-Holds :
      (db : Database c) (o : Option Snapshot) (m : SnapshotMetadata)
      → stored_snapshot c db ≡ ok o
      → metadata_of o ≡ some m
      → Holds c db m
  unfolding stored_snapshot
  stored_snapshot-Holds db none m h e = absurd (ground arith)
  stored_snapshot-Holds db (some snap) m h e =
      elim (Option-cases (slots.get db.snapshot snapshot_key)) [
        | inl missing ↦ absurd (ground arith)
        | inr (bytes, there) ↦ elim (Option-cases (snapshots.decode bytes)) [
          | inl broken ↦ absurd (ground arith)
          | inr (snap', good) ↦ record {
            bytes = bytes;
            snap = snap;
            is_stored = there;
            is_decoded = ground (arith, good);
            has_metadata = e;
          }
        ]
      ]

  -- The last key lies after the snapshot.
  last_after :
      (db : Database c) (m : SnapshotMetadata) (b : ℕ)
      → IsTrimmed c db
      → Holds c db m
      → last (log.keys db.raft_log) ≡ some b
      → m.index < b
  last_after db m b trimmed h found = trimmed m h b λ gone.
      ground (arith, has-last (log.keys db.raft_log) b found, log.has-keys db.raft_log b, gone)

  first_index-le-last_index :
      (db : Database c) (f l : ℕ)
      → IsTrimmed c db
      → first_index c db ≡ ok f
      → last_index c db ≡ ok l
      → f ≤ l + 1
  unfolding first_index last_index
  first_index-le-last_index db f l trimmed hf hl =
      let ks = log.keys db.raft_log in
      elim (Outcome-cases (stored_snapshot c db)) [
        | inl (o, e) ↦ elim (Option-cases (metadata_of o)) [
          | inl bare ↦ ground (arith, first-none ks, first_le ks (log.keys-IsAscending db.raft_log))
          | inr (m, given) ↦
              let held = stored_snapshot-Holds db o m e given in
              elim (Option-cases (last ks)) [
                | inl empty ↦ ground arith
                | inr (b, found) ↦ ground (arith, last_after db m b trimmed held found)
              ]
        ]
        | inr (x, e) ↦ absurd (ground arith)
      ]
    where
      first_le : (ks : List ℕ) → IsAscending ks → unwrap_or (first ks) 1 ≤ unwrap_or (last ks) 0 + 1
      first_le ks up = elim (Option-cases (first ks)) [
        | inl e ↦ rw e (omega arith)
        | inr (a, e) ↦ elim (Option-cases (last ks)) [
          | inl e' ↦ ground (arith, first-none ks e')
          | inr (b, e') ↦ rw (e, e') (omega (arith, first-le-last ks a b up e e'))
        ]
      ]

-- What the caller may do with the store: append entries that lie after its snapshot, apply any
-- snapshot, compact at any index, save any hard state.
pub data StoreStep (c : Crates) : Database c → Database c → Type 0 where
  appends :
      {db db' : Database c} (es : List Entry)
      → ((m : SnapshotMetadata) → Holds c db m → All (λ e. m.index < e.index) es)
      → append c db es ≡ ok db'
      → StoreStep c db db'
  applies :
      {db db' : Database c} (snap : Snapshot)
      → apply_snapshot c db snap ≡ ok db'
      → StoreStep c db db'
  compacts : {db db' : Database c} (n : ℕ) → compact c db n ≡ ok db' → StoreStep c db db'
  saves :
      {db db' : Database c} (hs : HardState) → save_hard_state c db hs ≡ ok db' → StoreStep c db db'

pub data History (c : Crates) (start : Database c) : Database c → Type 0 where
  begin : History c start start
  then_step : {db db' : Database c} → History c start db → StoreStep c db db' → History c start db'

module _ (c : Crates) where
  open c use {slots}

  IsTrimmed-same :
      (db db' : Database c)
      → db'.snapshot ≡ db.snapshot
      → db'.raft_log ≡ db.raft_log
      → IsTrimmed c db
      → IsTrimmed c db'
  IsTrimmed-same db db' kept log_kept trimmed m h k there =
      trimmed m (Holds-keep c db db' m kept h) k
        (λ gone. there (ap (λ t. c.log.get t k) log_kept ∙ gone))

  append-IsTrimmed :
      (db db' : Database c) (es : List Entry)
      → ((m : SnapshotMetadata) → Holds c db m → All (λ e. m.index < e.index) es)
      → append c db es ≡ ok db'
      → IsTrimmed c db
      → IsTrimmed c db'
  unfolding append
  append-IsTrimmed db db' [] after done trimmed m h k there =
      IsTrimmed-same db db' (ground arith) (ground arith) trimmed m h k there
  append-IsTrimmed db db' (e ∷ es) after done trimmed m h k there =
      elim (Outcome-cases (insert_entries c db.raft_log (e ∷ es))) [
        | inl (table, stored) ↦
            let same : db' ≡ record db { raft_log = table } = ground arith in
            let held = Holds-keep c db db' m (ap (λ (d : Database c). d.snapshot) same) h in
            insert_entries_after c (e ∷ es) db.raft_log table m.index k stored (after m held)
              (trimmed m held k)
              (λ gone. there (ap (λ (d : Database c). c.log.get d.raft_log k) same ∙ gone))
        | inr (x, failed) ↦ absurd (ground arith)
      ]

  apply_any-IsTrimmed :
      (db db' : Database c) (snap : Snapshot)
      → apply_snapshot c db snap ≡ ok db'
      → IsTrimmed c db
      → IsTrimmed c db'
  unfolding apply_snapshot install
  apply_any-IsTrimmed db db' snap done trimmed = elim (Option-cases snap.metadata) [
    | inl bare ↦ IsTrimmed-same db db' (ground arith) (ground arith) trimmed
    | inr (m, given) ↦ apply_snapshot-IsTrimmed c db db' snap m given done
  ]

  save-IsTrimmed :
      (db db' : Database c) (hs : HardState)
      → save_hard_state c db hs ≡ ok db'
      → IsTrimmed c db
      → IsTrimmed c db'
  unfolding save_hard_state serialize_hard_state
  save-IsTrimmed db db' hs done trimmed =
      IsTrimmed-same db db' (ground arith) (ground arith) trimmed

  StoreStep-IsTrimmed :
      {db db' : Database c} → StoreStep c db db' → IsTrimmed c db → IsTrimmed c db'
  StoreStep-IsTrimmed (appends es after done) trimmed = append-IsTrimmed _ _ es after done trimmed
  StoreStep-IsTrimmed (applies snap done) trimmed = apply_any-IsTrimmed _ _ snap done trimmed
  StoreStep-IsTrimmed (compacts n done) trimmed = compact-IsTrimmed c _ _ n done trimmed
  StoreStep-IsTrimmed (saves hs done) trimmed = save-IsTrimmed _ _ hs done trimmed

  History-IsTrimmed :
      {start db : Database c} → IsTrimmed c start → History c start db → IsTrimmed c db
  History-IsTrimmed h begin = h
  History-IsTrimmed h (then_step past st) = StoreStep-IsTrimmed st (History-IsTrimmed h past)

  -- After any history of a store that started with no snapshot, whatever redb's errors, the first
  -- index that the store announces is at most one past its last index.
  pub first_index-last_index :
      {start db : Database c} (f l : ℕ)
      → slots.get start.snapshot snapshot_key ≡ none
      → History c start db
      → first_index c db ≡ ok f
      → last_index c db ≡ ok l
      → f ≤ l + 1
  first_index-last_index {db} f l fresh past hf hl =
      first_index-le-last_index c db f l
        (History-IsTrimmed (λ m h. absurd (unstored fresh h.is_stored)) past) hf hl
    where
      unstored : {o : Option Bytes} {b : Bytes} → o ≡ none → o ≡ some b → ⊥
      unstored e e' = cc
