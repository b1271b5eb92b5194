-- ===== src/Protocol/Writing.antt =====
-- What `write_message` puts on the stream.
use Prim.Native.String.{String}
use iroh_raft.Common.{
  ℕ, zero, suc, ◌%◌, ◌≤◌, ◌<◌, ◌≡◌, refl, sym, ap, ◌∙◌, [], ◌∷◌, ◌++◌, arith, Option, inl, inr,
  length, take, drop, if◌then◌else◌, Bool-cases, ok, append-nil, append_assoc, append-take-drop,
  length-drop, ok_injective, map_err_ok, >>=-eq_ok,
}
use iroh_raft.Common.Bytes.{u32_mod}
use iroh_raft.Storage.Codec.{Bytes}
use iroh_raft.Protocol.{
  Wire, MessageType, ZeroCopyMessage, header_of, internal_error, new_borrowed, is_large_message,
  chunk_size, u32_to_be_bytes, u32_from_be_bytes,
}
use iroh_raft.Protocol.Frames.{
  write_part, serialize_header_zero_copy, write_chunks, write_large_message_streaming,
  write_small_message, write_message_zero_copy, write_message,
}

-- The bytes of one message.
abbrev pub frame : Bytes → Bytes → Bytes
frame header payload = u32_to_be_bytes (length header % u32_mod) ++ header ++ payload

pub u32_from_be_bytes-u32_to_be_bytes :
    (n : ℕ) → n < u32_mod → u32_from_be_bytes (u32_to_be_bytes n) ≡ n
u32_from_be_bytes-u32_to_be_bytes n h = omega arith

module _ (wire : Wire) where
  open wire use {Writer, written}

  write_part_written :
      (what : String) (w w' : Writer) (bs : Bytes)
      → write_part wire what w bs ≡ ok w'
      → written w' ≡ written w ++ bs
  write_part_written what w w' bs h =
      wire.written-write_all w w' bs (map_err_ok (internal_error what) (wire.write_all w bs) w' h)

  write_chunks_written :
      (fuel : ℕ) (w w' : Writer) (payload : Bytes)
      → length payload ≤ fuel
      → write_chunks wire fuel w payload ≡ ok w'
      → written w' ≡ written w ++ payload
  unfolding write_chunks
  write_chunks_written zero w w' [] enough h = rw append-nil (ap written (sym (ok_injective h)))
  write_chunks_written zero w w' (b ∷ bs) enough h = absurd (omega arith)
  write_chunks_written (suc fuel) w w' [] enough h =
      rw append-nil (ap written (sym (ok_injective h)))
  write_chunks_written (suc fuel) w w' (b ∷ bs) enough h =
      let (next, step, rest) =
        >>=-eq_ok (write_part wire "Failed to write payload chunk: " w (take chunk_size (b ∷ bs)))
          (λ w''. write_chunks wire fuel w'' (drop chunk_size (b ∷ bs))) w' h in
      let short = length-drop chunk_size (b ∷ bs) in
      write_chunks_written fuel next w' (drop chunk_size (b ∷ bs)) (omega (arith, short)) rest
      ∙ ap (λ bytes. bytes ++ drop chunk_size (b ∷ bs)) (write_part_written _ w next _ step)
      ∙ append_assoc (written w) _ _
      ∙ ap (◌++◌ (written w)) (append-take-drop chunk_size (b ∷ bs))

  write_small_message_written :
      (w w' : Writer) (message : ZeroCopyMessage)
      → write_small_message wire w message ≡ ok w'
      → (header : Bytes) × (wire.encode_header (header_of message) ≡ ok header)
        × (written w' ≡ written w ++ frame header message.payload)
  unfolding write_small_message serialize_header_zero_copy
  write_small_message_written w w' message h =
      let (header, encoded, sent) =
        >>=-eq_ok (serialize_header_zero_copy wire (header_of message)) _ w' h in
      (header, map_err_ok _ _ header encoded, write_part_written _ w w' _ sent)

  write_large_message_streaming_written :
      (w w' : Writer) (message : ZeroCopyMessage)
      → write_large_message_streaming wire w message ≡ ok w'
      → (header : Bytes) × (wire.encode_header (header_of message) ≡ ok header)
        × (written w' ≡ written w ++ frame header message.payload)
  unfolding write_large_message_streaming serialize_header_zero_copy
  write_large_message_streaming_written w w' message h =
      let (header, encoded, sent) =
        >>=-eq_ok (serialize_header_zero_copy wire (header_of message)) _ w' h in
      let (w₁, step₁, sent₁) =
        >>=-eq_ok
          (write_part wire "Failed to write header length: " w
            (u32_to_be_bytes (length header % u32_mod)))
          _ w' sent in
      let (w₂, step₂, sent₂) =
        >>=-eq_ok (write_part wire "Failed to write header: " w₁ header) _ w' sent₁ in
      let chunks =
        write_chunks_written (length message.payload) w₂ w' message.payload (omega arith) sent₂ in
      let second = write_part_written _ w₁ w₂ header step₂ in
      let first = write_part_written _ w w₁ _ step₁ in
      (
        header,
        map_err_ok _ _ header encoded,
        rw (chunks, second, first, append_assoc, append_assoc) refl,
      )

  -- A message that has been written, as one buffer or in chunks, has added its frame to the
  -- stream: the length of the header, the encoded header, and the whole payload.
  pub write_message_written :
      (w w' : Writer) (msg_type : MessageType) (request_id : Option Bytes) (payload : Bytes)
      → write_message wire w msg_type request_id payload ≡ ok w'
      → (header : Bytes) × (wire.encode_header (record {
        msg_type = msg_type;
        request_id = request_id;
        payload_len = length payload % u32_mod;
      })
          ≡ ok header)
        × (written w' ≡ written w ++ frame header payload)
  unfolding write_message write_message_zero_copy new_borrowed
  write_message_written w w' msg_type request_id payload h =
      let message = new_borrowed msg_type request_id payload in
      let (w₁, sent, flushed) =
        >>=-eq_ok
          (if is_large_message message
            then write_large_message_streaming wire w message
            else write_small_message wire w message)
          _ w' h in
      let same = wire.written-flush w₁ w' (map_err_ok _ _ w' flushed) in
      rw same (elim (Bool-cases (is_large_message message)) [
        | inl large ↦ write_large_message_streaming_written w w₁ message (rw large at sent)
        | inr small ↦ write_small_message_written w w₁ message (rw small at sent)
      ])

  -- No write and no flush fails.
  abbrev pub IsCalm : Type 0
  IsCalm =
      ((w : Writer) (bs : Bytes) → (w' : Writer) × (wire.write_all w bs ≡ ok w'))
      × ((w : Writer) → (w' : Writer) × (wire.flush w ≡ ok w'))

  write_chunks_total :
      IsCalm
      → (fuel : ℕ) (w : Writer) (payload : Bytes) → length payload ≤ fuel
      → (w' : Writer) × (write_chunks wire fuel w payload ≡ ok w')
  unfolding write_chunks
  write_chunks_total calm zero w [] enough = (w, refl)
  write_chunks_total calm zero w (b ∷ bs) enough = absurd (omega arith)
  write_chunks_total calm (suc fuel) w [] enough = (w, refl)
  write_chunks_total calm (suc fuel) w (b ∷ bs) enough =
      let (w₁, step) = calm.0 w (take chunk_size (b ∷ bs)) in
      let short = length-drop chunk_size (b ∷ bs) in
      rw step (write_chunks_total calm fuel w₁ (drop chunk_size (b ∷ bs)) (omega (arith, short)))

  write_message_ok :
      IsCalm
      → (w : Writer) (msg_type : MessageType) (request_id : Option Bytes) (payload header : Bytes)
      → wire.encode_header (record {
        msg_type = msg_type;
        request_id = request_id;
        payload_len = length payload % u32_mod;
      })
        ≡ ok header
      → (w' : Writer) × (write_message wire w msg_type request_id payload ≡ ok w')
  unfolding write_message write_message_zero_copy new_borrowed write_large_message_streaming
      write_small_message serialize_header_zero_copy
  write_message_ok calm w msg_type request_id payload header encoded =
      let message = new_borrowed msg_type request_id payload in
      elim (Bool-cases (is_large_message message)) [
        | inl large ↦
            let (w₁, first) = calm.0 w (u32_to_be_bytes (length header % u32_mod)) in
            let (w₂, second) = calm.0 w₁ header in
            let (w₃, third) = write_chunks_total calm (length payload) w₂ payload (omega arith) in
            let (w₄, flushed) = calm.1 w₃ in
            (w₄, rw (large, encoded, first, second, third, flushed) refl)
        | inr small ↦
            let (w₁, first) = calm.0 w (frame header payload) in
            let (w₂, flushed) = calm.1 w₁ in (w₂, rw (small, encoded, first, flushed) refl)
      ]

  -- If no write and no flush fails and the header is encoded, a message of whatever size is written, as one buffer or
  -- in chunks, and what the stream has gained is exactly the length of the header, the encoded header and the whole payload.
  pub write_message_total :
      IsCalm
      → (w : Writer) (msg_type : MessageType) (request_id : Option Bytes) (payload header : Bytes)
      → wire.encode_header (record {
        msg_type = msg_type;
        request_id = request_id;
        payload_len = length payload % u32_mod;
      })
        ≡ ok header
      → (w' : Writer) × (write_message wire w msg_type request_id payload ≡ ok w')
        × (written w' ≡ written w ++ frame header payload)
  write_message_total calm w msg_type request_id payload header encoded =
      let (w', done) = write_message_ok calm w msg_type request_id payload header encoded in
      let (header', encoded', gained) =
        write_message_written w w' msg_type request_id payload done in
      let same : header' ≡ header = ok_injective (sym encoded' ∙ encoded) in
      (w', done, gained ∙ ap (λ h. written w ++ frame h payload) same)
