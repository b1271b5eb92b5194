-- ===== src/Storage/Redb.antt =====
-- The crates under src/storage/simple.rs that are not part of the repository: redb's tables and
-- prost's encoding of snapshots. They are parameters; the laws are what their documentation says.
use Prim.Native.String.{String}
use iroh_raft.Common.{
  ℕ, ◌<◌, ◌≡◌, ◌≢◌, Bool, ◌||◌, false, true, List, [], ◌∷◌, Option, none, some, ◌==◌, All,
}
use iroh_raft.Storage.Codec.{Bytes, ConfState}

-- A table that maps keys to bytes: `TableDefinition<K, &[u8]>`.
pub record Table (K : Type 0) : Type 1 where
  pub Content : Type 0
  pub empty : Content
  pub get : Content → K → Option Bytes
  pub insert : Content → K → Bytes → Content
  pub remove : Content → K → Content
  pub get-empty : (k : K) → get empty k ≡ none
  pub get-insert_self : (t : Content) (k : K) (v : Bytes) → get (insert t k v) k ≡ some v
  pub get-insert_ne : (t : Content) (k j : K) (v : Bytes) → k ≢ j → get (insert t k v) j ≡ get t j
  pub get-remove_self : (t : Content) (k : K) → get (remove t k) k ≡ none
  pub get-remove_ne : (t : Content) (k j : K) → k ≢ j → get (remove t k) j ≡ get t j

abbrev pub has : List ℕ → ℕ → Bool
has [] k = false
has (x ∷ xs) k = (x == k) || has xs k

abbrev pub is_some {ℓ} : {A : Type ℓ} → Option A → Bool
is_some none = false
is_some (some a) = true

abbrev pub IsAscending : List ℕ → Type 0
IsAscending [] = Unit
IsAscending (x ∷ xs) = All (λ y. x < y) xs × IsAscending xs

-- A table with integer keys also gives a range over its keys, in ascending order.
pub record OrderedTable : Type 1 where
  pub table : Table ℕ
  pub open table use *
  pub keys : Content → List ℕ
  pub has-keys : (t : Content) (k : ℕ) → has (keys t) k ≡ is_some (get t k)
  pub keys-IsAscending : (t : Content) → IsAscending (keys t)

-- `eraftpb::SnapshotMetadata` and `eraftpb::Snapshot`.
pub record SnapshotMetadata : Type 0 where
  pub conf_state : Option ConfState
  pub index : ℕ
  pub term : ℕ

pub record Snapshot : Type 0 where
  pub payload : Bytes
  pub metadata : Option SnapshotMetadata

-- `encode_to_vec` and `decode` of prost; `none` is a `DecodeError`.
pub record SnapshotCodec : Type 0 where
  pub encode : Snapshot → Bytes
  pub decode : Bytes → Option Snapshot
  pub decode-encode : (s : Snapshot) → decode (encode s) ≡ some s

-- The crates together, and redb's errors: `faults op key` says whether redb reports an error at the
-- step that the source names `op`, at the key that the step touches (0 where it touches none).
pub record Crates : Type 1 where
  pub log : OrderedTable
  pub slots : Table String
  pub snapshots : SnapshotCodec
  pub faults : String → ℕ → Bool
