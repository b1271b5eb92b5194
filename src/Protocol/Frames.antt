-- ===== src/Protocol/Frames.antt =====
-- Writing and reading one message: `write_message`, `read_message` and what they call.
use Prim.Native.String.{String, ◌++◌ as concat}
use iroh_raft.Common.{
  ℕ, zero, suc, ◌+◌, ◌-◌, ◌%◌, min, [], ◌∷◌, ◌++◌, Option, length, take, drop, ltb, if◌then◌else◌,
  Outcome, ok, err, map_err, ◌>>=◌, ◌>>◌, fail_if,
}
use iroh_raft.Common.Bytes.{u32_mod}
use iroh_raft.Error.{RaftError}
use iroh_raft.Storage.Codec.{Bytes}
use iroh_raft.Protocol.{
  Wire, MessageType, MessageHeader, ZeroCopyMessage, header_of, internal_error, new_borrowed,
  is_large_message, large_message_threshold, max_header_size, max_payload_size, chunk_size,
  u32_to_be_bytes, u32_from_be_bytes,
}

-- What a loop of the model answers when its fuel is used up before its work is done.
abbrev out_of_fuel : RaftError
out_of_fuel = RaftError.internal "Out of fuel"

module _ (wire : Wire) where
  open wire use {Writer, Reader}

  -- One `write_all`, with the source's message for its error.
  abbrev pub write_part : String → Writer → Bytes → Outcome RaftError Writer
  write_part what w bs = map_err (internal_error what) (wire.write_all w bs)

  abbrev pub read_part : String → Reader → ℕ → Outcome RaftError (Bytes × Reader)
  read_part what r n = map_err (internal_error what) (wire.read_exact r n)

  unfoldable pub serialize_header_zero_copy : MessageHeader → Outcome RaftError Bytes
  serialize_header_zero_copy header =
      map_err (internal_error "Failed to serialize header: ") (wire.encode_header header)

  unfoldable pub deserialize_payload : Bytes → Outcome RaftError MessageHeader
  deserialize_payload bytes =
      map_err (internal_error "Failed to deserialize payload: ") (wire.decode_header bytes)

  -- The loop over `payload.chunks(CHUNK_SIZE)`; the first argument is fuel, and one unit for each
  -- byte is enough. Without it the result is the error of no fuel, which the source has not.
  unfoldable pub write_chunks : ℕ → Writer → Bytes → Outcome RaftError Writer
  write_chunks zero w [] = ok w
  write_chunks zero w (b ∷ bs) = err out_of_fuel
  write_chunks (suc fuel) w [] = ok w
  write_chunks (suc fuel) w (b ∷ bs) = do
    w' ← write_part "Failed to write payload chunk: " w (take chunk_size (b ∷ bs))
    write_chunks fuel w' (drop chunk_size (b ∷ bs))

  unfoldable pub write_large_message_streaming : Writer → ZeroCopyMessage → Outcome RaftError Writer
  write_large_message_streaming w message = do
    header ← serialize_header_zero_copy (header_of message)
    w₁ ← write_part "Failed to write header length: " w (u32_to_be_bytes (length header % u32_mod))
    w₂ ← write_part "Failed to write header: " w₁ header
    write_chunks (length message.payload) w₂ message.payload

  -- The branch for messages that are not large: one buffer, and one write.
  unfoldable pub write_small_message : Writer → ZeroCopyMessage → Outcome RaftError Writer
  write_small_message w message = do
    header ← serialize_header_zero_copy (header_of message)
    write_part "Failed to write message: " w
        (u32_to_be_bytes (length header % u32_mod) ++ header ++ message.payload)

  unfoldable pub write_message_zero_copy : Writer → ZeroCopyMessage → Outcome RaftError Writer
  write_message_zero_copy w message = do
    w' ←
        if is_large_message message
        then write_large_message_streaming w message
        else write_small_message w message
    map_err (internal_error "Failed to flush stream: ") (wire.flush w')

  unfoldable pub write_message :
      Writer → MessageType → Option Bytes → Bytes → Outcome RaftError Writer
  write_message w msg_type request_id payload =
      write_message_zero_copy w (new_borrowed msg_type request_id payload)

  unfoldable pub read_small_payload_direct : Reader → ℕ → Outcome RaftError (Bytes × Reader)
  read_small_payload_direct r payload_len = read_part "Failed to read payload: " r payload_len

  -- The loop while `remaining` is positive, with the buffer filled so far; the first argument is
  -- fuel, and `remaining` is enough.
  unfoldable pub read_chunks : ℕ → Reader → ℕ → Bytes → Outcome RaftError (Bytes × Reader)
  read_chunks zero r zero payload_buf = ok (payload_buf, r)
  read_chunks zero r (suc n) payload_buf = err out_of_fuel
  read_chunks (suc fuel) r zero payload_buf = ok (payload_buf, r)
  read_chunks (suc fuel) r (suc n) payload_buf = do
    (chunk, r') ← read_part "Failed to read payload chunk: " r (min (suc n) chunk_size)
    read_chunks fuel r' (suc n - min (suc n) chunk_size) (payload_buf ++ chunk)

  unfoldable pub read_large_payload_streaming : Reader → ℕ → Outcome RaftError (Bytes × Reader)
  read_large_payload_streaming r payload_len = read_chunks payload_len r payload_len []

  -- The strategy that the length of the payload decides.
  abbrev pub read_payload : Reader → ℕ → Outcome RaftError (Bytes × Reader)
  read_payload r payload_len =
      if ltb large_message_threshold payload_len
      then read_large_payload_streaming r payload_len
      else read_small_payload_direct r payload_len

  unfoldable pub read_message_zero_copy :
      Reader → Outcome RaftError ((MessageHeader × Bytes) × Reader)
  read_message_zero_copy r = do
    (header_len_bytes, r₁) ← read_part "Failed to read header length: " r 4
    let header_len = u32_from_be_bytes header_len_bytes
    fail_if (ltb max_header_size header_len) (
        RaftError.internal (
          concat "Header too large: " (
            concat (wire.show header_len)
              (concat " bytes (max " (concat (wire.show max_header_size) ")")))))
    (header_buf, r₂) ← read_part "Failed to read header: " r₁ header_len
    header ← deserialize_payload header_buf
    fail_if (ltb max_payload_size header.payload_len) (
        RaftError.internal
          (concat "Payload too large: " (concat (wire.show header.payload_len) " bytes")))
    (payload, r₃) ← read_payload r₂ header.payload_len
    ok ((header, payload), r₃)

  unfoldable pub read_message : Reader → Outcome RaftError ((MessageHeader × Bytes) × Reader)
  read_message r = read_message_zero_copy r

  unfoldable pub read_zero_copy_message : Reader → Outcome RaftError (ZeroCopyMessage × Reader)
  read_zero_copy_message r = do
    ((header, payload), r') ← read_message_zero_copy r
    ok (
      record {
        msg_type = header.msg_type;
        request_id = header.request_id;
        payload = payload;
        total_size = (4 + length payload % u32_mod) % u32_mod;
      },
      r',
    )
