-- ===== src/Storage/Codec/Entries/Truncation.antt =====
-- What `deserialize_entry` does with less than an entry, and with more.
use iroh_raft.Common.{
  ℕ, ◌+◌, ◌<◌, ◌≡◌, refl, sym, ap, ◌∙◌, [], ◌∷◌, ◌++◌, append-nil, arith, length, length-append,
  err, Outcome-cases, inl, inr,
}
use iroh_raft.Error.{RaftError}
use iroh_raft.Storage.Codec.{Bytes, Entry, entry_bytes, deserialize_entry, read_le}
use iroh_raft.Storage.Codec.Reads.{read_le-append, fits}
use iroh_raft.Storage.Codec.Entries.{
  IsWide, payload_len, context_len, last_at, deserialize_entry_ok, entry_bytes-append, at_sync,
  from_sync, from_index,
}

module _ (buf back : Bytes) (h : last_at buf < length buf) where
  payload_len-append : payload_len (buf ++ back) ≡ payload_len buf
  payload_len-append = read_le-append 4 buf back 17 (omega arith)

  context_len-append : context_len (buf ++ back) ≡ context_len buf
  context_len-append =
      ap (λ n. read_le 4 (buf ++ back) (21 + n)) payload_len-append
      ∙ read_le-append 4 buf back (21 + payload_len buf) (omega arith)

  last_at-append : last_at (buf ++ back) ≡ last_at buf
  last_at-append = omega (arith, payload_len-append, context_len-append)

-- A proper prefix of a serialised entry is refused.
pub deserialize_entry_truncated :
    (e : Entry) (front back : Bytes) (b : ℕ)
    → IsWide e
    → entry_bytes e ≡ front ++ (b ∷ back)
    → (r : RaftError) × (deserialize_entry front ≡ err r)
deserialize_entry_truncated e front back b w split =
    elim (Outcome-cases (deserialize_entry front)) [
      | inl (x, good) ↦ absurd (too_short ((deserialize_entry_ok front x good).0))
      | inr refused ↦ refused
    ]
  where
    whole : front ++ (b ∷ back) ≡ from_index e []
    whole = sym split ∙ sym (append-nil (entry_bytes e)) ∙ entry_bytes-append e []

    too_short : last_at front < length front → ⊥
    too_short h = omega (
      arith,
      last_at-append front (b ∷ back) h,
      length-append front (b ∷ back),
      fits (front ++ (b ∷ back)) (from_sync e []) [] (last_at (front ++ (b ∷ back))) 1 refl
          (at_sync e w [] (front ++ (b ∷ back)) whole),
    )
