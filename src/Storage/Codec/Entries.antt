-- ===== src/Storage/Codec/Entries.antt =====
-- The layout of a log entry read back: `deserialize_entry` against `serialize_entry`.
pub mod Truncation
use iroh_raft.Common.{
  ℕ, suc, ◌+◌, ◌^◌, ◌≤◌, ◌<◌, ◌≡◌, refl, ap, ◌∙◌, List, [], ◌∷◌, ◌++◌, arith, length, take, drop,
  not, ◌==◌, slice, append_assoc, get_or, get_or-drop, ok, sym, ◌>>=◌, length-append, length-drop,
}
use iroh_raft.Common.Bytes.{to_le_bytes, u32_mod, u64_mod, length-to_le_bytes}
use iroh_raft.Storage.Codec.{
  Bytes, Entry, entry_bytes, serialize_entry, deserialize_entry, read_le, as_u8, as_u32, flag_byte,
}
use iroh_raft.Storage.Codec.Reads.{read_le-to_le_bytes, slice-here, drop-next, fits}

-- What the field types of an entry and the memory of a process allow.
pub record IsWide (e : Entry) : Type 0 where
  pub type_byte : e.entry_type < 256
  pub term_u64 : e.term < u64_mod
  pub index_u64 : e.index < u64_mod
  pub payload_u32 : length e.payload < u32_mod
  pub context_u32 : length e.context < u32_mod

-- The lengths that a buffer announces, and where its last byte stands.
abbrev payload_len : Bytes → ℕ
payload_len buf = read_le 4 buf 17

abbrev context_len : Bytes → ℕ
context_len buf = read_le 4 buf (21 + payload_len buf)

abbrev last_at : Bytes → ℕ
last_at buf = 21 + payload_len buf + 4 + context_len buf

-- The fields that stand in a buffer.
abbrev entry_at : Bytes → Entry
entry_at buf = record {
  entry_type = get_or buf 16 0;
  term = read_le 8 buf 8;
  index = read_le 8 buf 0;
  payload = slice buf 21 (21 + payload_len buf);
  context = slice buf (21 + payload_len buf + 4) (last_at buf);
  sync_log = not (get_or buf (last_at buf) 0 == 0);
}

-- A buffer is accepted just when its last byte is there.
deserialize_entry_complete :
    (buf : Bytes) → last_at buf < length buf → deserialize_entry buf ≡ ok (entry_at buf)
unfolding deserialize_entry
deserialize_entry_complete buf h = ground arith

deserialize_entry_ok :
    (buf : Bytes) (e : Entry)
    → deserialize_entry buf ≡ ok e
    → (last_at buf < length buf) × (entry_at buf ≡ e)
unfolding deserialize_entry
deserialize_entry_ok buf e h = ground arith

-- What stands from each field of an entry on, with `rest` behind the entry.
module _ (e : Entry) (rest : Bytes) where
  abbrev from_sync : Bytes
  from_sync = flag_byte e.sync_log ∷ rest

  abbrev from_context : Bytes
  from_context = e.context ++ from_sync

  abbrev from_context_len : Bytes
  from_context_len = to_le_bytes 4 (as_u32 (length e.context)) ++ from_context

  abbrev from_payload : Bytes
  from_payload = e.payload ++ from_context_len

  abbrev from_payload_len : Bytes
  from_payload_len = to_le_bytes 4 (as_u32 (length e.payload)) ++ from_payload

  abbrev from_type : Bytes
  from_type = as_u8 e.entry_type ∷ from_payload_len

  abbrev from_term : Bytes
  from_term = to_le_bytes 8 e.term ++ from_type

  abbrev from_index : Bytes
  from_index = to_le_bytes 8 e.index ++ from_term

  entry_bytes-append : entry_bytes e ++ rest ≡ from_index
  unfolding entry_bytes
  entry_bytes-append = simp append_assoc

module _ (e : Entry) (w : IsWide e) (rest buf : Bytes) (whole : buf ≡ from_index e rest) where
  at_term : drop 8 buf ≡ from_term e rest
  at_term = drop-next buf _ _ 0 8 (length-to_le_bytes 8 e.index) whole

  at_type : drop 16 buf ≡ from_type e rest
  at_type = drop-next buf _ _ 8 8 (length-to_le_bytes 8 e.term) at_term

  at_payload_len : drop 17 buf ≡ from_payload_len e rest
  at_payload_len = drop-next buf (as_u8 e.entry_type ∷ []) _ 16 1 refl at_type

  payload_len_lem : payload_len buf ≡ length e.payload
  payload_len_lem =
      read_le-to_le_bytes 4 _ buf _ 17 (omega arith) at_payload_len ∙ omega (arith, w.payload_u32)

  at_payload : drop 21 buf ≡ from_payload e rest
  at_payload = drop-next buf _ _ 17 4 (length-to_le_bytes 4 _) at_payload_len

  at_context_len : drop (21 + payload_len buf) buf ≡ from_context_len e rest
  at_context_len = drop-next buf _ _ 21 (payload_len buf) (sym payload_len_lem) at_payload

  context_len_lem : context_len buf ≡ length e.context
  context_len_lem =
      read_le-to_le_bytes 4 _ buf _ (21 + payload_len buf) (omega arith) at_context_len
      ∙ omega (arith, w.context_u32)

  at_context : drop (21 + payload_len buf + 4) buf ≡ from_context e rest
  at_context = drop-next buf _ _ (21 + payload_len buf) 4 (length-to_le_bytes 4 _) at_context_len

  at_sync : drop (last_at buf) buf ≡ from_sync e rest
  at_sync =
      drop-next buf _ _ (21 + payload_len buf + 4) (context_len buf) (sym context_len_lem)
        at_context

  last_at-lt-length : last_at buf < length buf
  last_at-lt-length =
      omega (arith, fits buf (flag_byte e.sync_log ∷ []) rest (last_at buf) 1 refl at_sync)

  flag_lem : not (flag_byte e.sync_log == 0) ≡ e.sync_log
  flag_lem = ground arith

  entry_at_lem : entry_at buf ≡ e
  entry_at_lem = λ i. record {
    entry_type = (get_or-drop 16 buf 0 at_type ∙ fits_u8) i;
    term = read_le-to_le_bytes 8 e.term buf _ 8 w.term_u64 at_term i;
    index = read_le-to_le_bytes 8 e.index buf _ 0 w.index_u64 whole i;
    payload = slice-here buf _ _ 21 (payload_len buf) (sym payload_len_lem) at_payload i;
    context =
        slice-here buf _ _ (21 + payload_len buf + 4) (context_len buf) (sym context_len_lem)
          at_context i;
    sync_log = (ap (λ b. not (b == 0)) (get_or-drop (last_at buf) buf 0 at_sync) ∙ flag_lem) i;
  }
    where
      fits_u8 : as_u8 e.entry_type ≡ e.entry_type
      fits_u8 = omega (arith, w.type_byte)

-- An entry whose fields fit their types is read back from the bytes that were written for it,
-- whatever follows them.
pub deserialize_entry-serialize_entry :
    (e : Entry) (rest : Bytes)
    → IsWide e
    → (serialize_entry e >>= λ bytes. deserialize_entry (bytes ++ rest)) ≡ ok e
unfolding serialize_entry
deserialize_entry-serialize_entry e rest w =
    let whole = entry_bytes-append e rest in
    deserialize_entry_complete _ (last_at-lt-length e w rest _ whole)
    ∙ ap ok (entry_at_lem e w rest _ whole)
