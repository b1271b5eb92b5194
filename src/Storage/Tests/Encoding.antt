-- ===== src/Storage/Tests/Encoding.antt =====
-- src/storage/codec.rs at concrete inputs.
use iroh_raft.Common.{◌≡◌, refl, arith, true, [], ◌∷◌, ◌++◌, ok, err, ◌>>=◌}
use iroh_raft.Common.Bytes.{to_le_bytes}
use iroh_raft.Error.{RaftError}
use iroh_raft.Storage.Codec.{Bytes, Entry, entry_bytes, serialize_entry, deserialize_entry}
use iroh_raft.Storage.Codec.Entries.{deserialize_entry-serialize_entry}
use iroh_raft.Storage.Codec.Entries.Truncation.{deserialize_entry_truncated}

abbrev put_x : Entry
put_x = record {
  entry_type = 0;
  term = 3;
  index = 515;
  payload = 120 ∷ 61 ∷ 49 ∷ [];
  context = 7 ∷ [];
  sync_log = true;
}

abbrev put_x_front : Bytes
put_x_front =
    3 ∷ 2 ∷ 0 ∷ 0 ∷ 0 ∷ 0 ∷ 0 ∷ 0 ∷ 3 ∷ 0 ∷ 0 ∷ 0 ∷ 0 ∷ 0 ∷ 0 ∷ 0 ∷ 0 ∷ 3 ∷ 0 ∷ 0 ∷ 0 ∷ 120 ∷ 61
    ∷ 49 ∷ 1 ∷ 0 ∷ 0 ∷ 0 ∷ 7 ∷ []

deserialize_entry-serialize_entry_example :
    (serialize_entry put_x >>= λ bytes. deserialize_entry (bytes ++ (9 ∷ []))) ≡ ok put_x
deserialize_entry-serialize_entry_example =
    deserialize_entry-serialize_entry put_x (9 ∷ []) (omega arith)

deserialize_entry_truncated_example : (r : RaftError) × (deserialize_entry put_x_front ≡ err r)
deserialize_entry_truncated_example =
    deserialize_entry_truncated put_x put_x_front [] 1 (omega arith)
      (unfold entry_bytes to_le_bytes in refl)
