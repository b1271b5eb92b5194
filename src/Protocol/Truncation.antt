-- ===== src/Protocol/Truncation.antt =====
-- A stream that ends inside a frame.
use Prim.Native.String.{String}
use iroh_raft.Common.{
  ◌+◌, ◌%◌, ◌≤◌, ◌<◌, ◌≡◌, refl, sym, ap, ◌∙◌, ◌++◌, arith, Option, inl, inr, length, take, drop,
  ltb, ltb→lt, not_ltb→le, le→not_ltb, Bool-cases, ok, err, take-append, drop-append,
  take-append_le, drop-append_le, length-append,
}
use iroh_raft.Common.Bytes.{u32_mod}
use iroh_raft.Error.{RaftError}
use iroh_raft.Storage.Codec.{Bytes}
use iroh_raft.Protocol.{
  Wire, MessageType, MessageHeader, u32_to_be_bytes, u32_from_be_bytes, max_header_size,
  max_payload_size,
}
use iroh_raft.Protocol.Frames.{
  write_message, read_message, read_message_zero_copy, deserialize_payload, read_part,
}
use iroh_raft.Protocol.Writing.{frame, u32_from_be_bytes-u32_to_be_bytes}
use iroh_raft.Protocol.Reading.{read_part_full, read_part_short, read_payload_short}
use iroh_raft.Protocol.Transfer.{HeadersFit, sent_frame}

module _ (wire : Wire) where
  open wire use {Writer, written, Reader, pending}

  -- A read of the front of a stream that ends too early for what follows it.
  read_front :
      (what : String) (r : Reader) (front tail missing : Bytes)
      → length front ≤ length (pending r)
      → pending r ++ missing ≡ front ++ tail
      → (r' : Reader) × (read_part wire what r (length front) ≡ ok (front, r'))
        × (pending r' ++ missing ≡ tail)
  read_front what r front tail missing long there =
      let (r', given, left) = read_part_full wire what r (length front) long in
      let got : take (length front) (pending r) ≡ front =
        sym (take-append_le (length front) (pending r) missing long)
        ∙ ap (take (length front)) there
        ∙ take-append front tail in
      (
        r',
        given ∙ ap (λ bytes. ok (bytes, r')) got,
        ap (λ bytes. bytes ++ missing) left
            ∙ sym (drop-append_le (length front) (pending r) missing long)
            ∙ ap (drop (length front)) there
            ∙ drop-append front tail,
      )

  read_truncated_frame :
      (r : Reader) (header payload missing : Bytes) (h : MessageHeader)
      → length header ≤ max_header_size
      → wire.decode_header header ≡ ok h
      → h.payload_len ≡ length payload
      → length payload ≤ max_payload_size
      → pending r ++ missing ≡ frame header payload
      → 0 < length missing
      → (why : RaftError) × (read_message wire r ≡ err why)
  unfolding read_message read_message_zero_copy deserialize_payload
  read_truncated_frame r header payload missing h small decoded long room there lost =
      elim (Bool-cases (ltb (length (pending r)) 4)) [
        | inl few ↦
            let (why, failed) =
              read_part_short wire "Failed to read header length: " r 4
                (ltb→lt (length (pending r)) 4 few) in
            (why, rw failed refl)
        | inr many ↦
            let (r₁, first, left) =
              read_front "Failed to read header length: " r
                (u32_to_be_bytes (length header % u32_mod)) (header ++ payload) missing
                (not_ltb→le (length (pending r)) 4 many) there in
            let measured : u32_from_be_bytes (u32_to_be_bytes (length header % u32_mod))
                ≡ length header =
              u32_from_be_bytes-u32_to_be_bytes (length header % u32_mod) (omega arith)
              ∙ omega arith in
            let in_range = le→not_ltb max_header_size (length header) small in
            elim (Bool-cases (ltb (length (pending r₁)) (length header))) [
              | inl cut ↦
                  let (why, failed) =
                    read_part_short wire "Failed to read header: " r₁ (length header)
                      (ltb→lt (length (pending r₁)) (length header) cut) in
                  (why, rw (first, measured, in_range, failed) refl)
              | inr enough ↦
                  let (r₂, second, over) =
                    read_front "Failed to read header: " r₁ header payload missing
                      (not_ltb→le (length (pending r₁)) (length header) enough) left in
                  let sizes : length (pending r₂) + length missing ≡ length payload =
                    sym (length-append (pending r₂) missing) ∙ ap length over in
                  let fits = le→not_ltb max_payload_size h.payload_len (omega arith) in
                  let (why, failed) =
                    read_payload_short wire r₂ h.payload_len (omega (arith, sizes)) in
                  (why, rw (first, measured, in_range, second, decoded, fits, failed) refl)
            ]
      ]

  -- If headers encode to at most 256 bytes, and a message with a payload of at most 100 MB has been
  -- written, a reader to which only a part of its bytes is to come, with at least the last one
  -- missing, reports an error.
  pub read_message_truncated :
      HeadersFit wire
      → (w w' : Writer) (r : Reader) (msg_type : MessageType) (request_id : Option Bytes)
        (payload missing : Bytes)
      → length payload ≤ max_payload_size
      → write_message wire w msg_type request_id payload ≡ ok w'
      → written w' ≡ written w ++ (pending r ++ missing)
      → 0 < length missing
      → (why : RaftError) × (read_message wire r ≡ err why)
  read_message_truncated fit w w' r msg_type request_id payload missing room done is_sent lost =
      let (header, encoded, is_frame) =
        sent_frame wire w w' msg_type request_id payload (pending r ++ missing) done is_sent in
      let same : length payload % u32_mod ≡ length payload = omega arith in
      let h : MessageHeader = record {
        msg_type = msg_type;
        request_id = request_id;
        payload_len = length payload;
      } in
      let encoded_h : wire.encode_header h ≡ ok header = rw⁻¹ same encoded in
      read_truncated_frame r header payload missing h (fit h header encoded_h)
        (wire.decode_header-encode_header h header (omega arith) encoded_h) refl room is_frame lost
