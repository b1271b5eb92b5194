-- ===== src/Protocol/Transfer.antt =====
-- What is written against what is read.
use Prim.Native.String.{◌++◌ as concat}
use iroh_raft.Common.{
  ℕ, ◌%◌, ◌≤◌, ◌<◌, ◌≡◌, refl, sym, ap, ◌∙◌, ◌++◌, arith, Option, length, take, drop, lt→ltb,
  le→not_ltb, ok, err, append_assoc, take-append, drop-append, length-append,
}
use iroh_raft.Common.Bytes.{u32_mod}
use iroh_raft.Error.{RaftError}
use iroh_raft.Storage.Codec.{Bytes}
use iroh_raft.Protocol.{
  Wire, MessageType, MessageHeader, u32_to_be_bytes, u32_from_be_bytes, max_header_size,
  max_payload_size,
}
use iroh_raft.Protocol.Frames.{
  read_part, read_payload, write_message, read_message, read_message_zero_copy, deserialize_payload,
}
use iroh_raft.Protocol.Writing.{frame, write_message_written, u32_from_be_bytes-u32_to_be_bytes}
use iroh_raft.Protocol.Reading.{read_part_full, read_payload_full}

abbrev pub too_large_header : Wire → ℕ → RaftError
too_large_header wire header_len = RaftError.internal (
    concat "Header too large: " (
      concat (wire.show header_len)
        (concat " bytes (max " (concat (wire.show max_header_size) ")"))))

abbrev pub too_large_payload : Wire → ℕ → RaftError
too_large_payload wire payload_len =
    RaftError.internal (concat "Payload too large: " (concat (wire.show payload_len) " bytes"))

module _ (wire : Wire) where
  open wire use {Writer, written, Reader, pending}

  -- The encoding of a header never exceeds the size that the reader takes.
  abbrev pub HeadersFit : Type 0
  HeadersFit =
      (h : MessageHeader) (bs : Bytes) → wire.encode_header h ≡ ok bs → length bs ≤ max_header_size

  -- The reader after the length and the header of a frame.
  after_header :
      (r : Reader) (header tail : Bytes)
      → length header ≤ max_header_size
      → pending r ≡ u32_to_be_bytes (length header % u32_mod) ++ header ++ tail
      → (r₁ r₂ : Reader) × (read_part wire "Failed to read header length: " r 4
          ≡ ok (u32_to_be_bytes (length header % u32_mod), r₁))
        × (u32_from_be_bytes (u32_to_be_bytes (length header % u32_mod)) ≡ length header)
        × (read_part wire "Failed to read header: " r₁ (length header) ≡ ok (header, r₂))
        × (pending r₂ ≡ tail)
  after_header r header tail small there =
      let long : 4 ≤ length (pending r) = rw there (omega arith) in
      let (r₁, first, left) = read_part_full wire "Failed to read header length: " r 4 long in
      let left₁ : pending r₁ ≡ header ++ tail = left ∙ rw there refl in
      let room : length header ≤ length (pending r₁) =
        rw left₁ (omega (arith, length-append header tail)) in
      let (r₂, second, over) =
        read_part_full wire "Failed to read header: " r₁ (length header) room in
      (
        r₁,
        r₂,
        first ∙ ap (λ bytes. ok (bytes, r₁)) (rw there refl),
        u32_from_be_bytes-u32_to_be_bytes (length header % u32_mod) (omega arith) ∙ omega arith,
        second ∙ ap (λ bytes. ok (bytes, r₂)) (rw left₁ (take-append header tail)),
        over ∙ rw left₁ (drop-append header tail),
      )

  read_frame :
      (r : Reader) (header payload rest : Bytes) (h : MessageHeader)
      → length header ≤ max_header_size
      → wire.decode_header header ≡ ok h
      → h.payload_len ≡ length payload
      → length payload ≤ max_payload_size
      → pending r ≡ frame header payload ++ rest
      → (r' : Reader) × (read_message wire r ≡ ok ((h, payload), r')) × (pending r' ≡ rest)
  unfolding read_message read_message_zero_copy deserialize_payload
  read_frame r header payload rest h small decoded long room there =
      let (r₁, r₂, first, measured, second, over) = after_header r header (payload ++ rest) small (
        there
        ∙ ap (◌++◌ (u32_to_be_bytes (length header % u32_mod)))
            (append_assoc header payload rest)) in
      let enough : length payload ≤ length (pending r₂) =
        rw over (omega (arith, length-append payload rest)) in
      let (r₃, third, left) = read_payload_full wire r₂ (length payload) enough in
      let got : take (length payload) (pending r₂) ≡ payload = rw over (take-append payload rest) in
      let few = le→not_ltb max_header_size (length header) small in
      let fits = le→not_ltb max_payload_size h.payload_len (omega arith) in
      let whole : read_payload wire r₂ h.payload_len ≡ ok (payload, r₃) =
        ap (read_payload wire r₂) long ∙ third ∙ ap (λ bytes. ok (bytes, r₃)) got in
      (
        r₃,
        rw (first, measured, few, second, decoded, fits, whole) refl,
        left ∙ rw over (drop-append payload rest),
      )

  read_oversized_frame :
      (r : Reader) (header payload : Bytes) (h : MessageHeader)
      → length header ≤ max_header_size
      → wire.decode_header header ≡ ok h
      → max_payload_size < h.payload_len
      → pending r ≡ frame header payload
      → read_message wire r ≡ err (too_large_payload wire h.payload_len)
  unfolding read_message read_message_zero_copy deserialize_payload
  read_oversized_frame r header payload h small decoded big there =
      let (r₁, r₂, first, measured, second, over) = after_header r header payload small there in
      let few = le→not_ltb max_header_size (length header) small in
      let refused = lt→ltb max_payload_size h.payload_len big in
      rw (first, measured, few, second, decoded, refused) refl

  pub sent_frame :
      (w w' : Writer) (msg_type : MessageType) (request_id : Option Bytes) (payload sent : Bytes)
      → write_message wire w msg_type request_id payload ≡ ok w'
      → written w' ≡ written w ++ sent
      → (header : Bytes) × (wire.encode_header (record {
        msg_type = msg_type;
        request_id = request_id;
        payload_len = length payload % u32_mod;
      })
          ≡ ok header)
        × (sent ≡ frame header payload)
  sent_frame w w' msg_type request_id payload sent done is_sent =
      let (header, encoded, all) =
        write_message_written wire w w' msg_type request_id payload done in
      (
        header,
        encoded,
        sym (drop-append (written w) sent)
            ∙ ap (drop (length (written w))) (sym is_sent ∙ all)
            ∙ drop-append (written w) (frame header payload),
      )

  -- If headers encode to at most 256 bytes, a message with a payload of at most 100 MB that has
  -- been written is read back, with its header and its whole payload, by a reader to which the
  -- bytes that it added are to come, and this reader is left with exactly the bytes after them.
  pub read_message-write_message :
      HeadersFit
      → (w w' : Writer) (r : Reader) (msg_type : MessageType) (request_id : Option Bytes)
        (payload sent rest : Bytes)
      → length payload ≤ max_payload_size
      → write_message wire w msg_type request_id payload ≡ ok w'
      → written w' ≡ written w ++ sent
      → pending r ≡ sent ++ rest
      → (r' : Reader) × (read_message wire r
          ≡ ok (
            (
              record { msg_type = msg_type; request_id = request_id; payload_len = length payload },
              payload,
            ),
            r',
          ))
        × (pending r' ≡ rest)
  read_message-write_message fit w w' r msg_type request_id payload sent rest room done is_sent
        there =
      let (header, encoded, is_frame) =
        sent_frame w w' msg_type request_id payload sent done is_sent in
      let same : length payload % u32_mod ≡ length payload = omega arith in
      let h : MessageHeader = record {
        msg_type = msg_type;
        request_id = request_id;
        payload_len = length payload;
      } in
      let encoded_h : wire.encode_header h ≡ ok header = rw⁻¹ same encoded in
      read_frame r header payload rest h (fit h header encoded_h)
        (wire.decode_header-encode_header h header (omega arith) encoded_h) refl room
        (there ∙ ap (λ bytes. bytes ++ rest) is_frame)

  -- If headers encode to at most 256 bytes, a message with a payload above 100 MB, but below 4 GB,
  -- that has been written is refused by the reader of its bytes, with the error that names its
  -- length.
  pub read_message-write_message_oversized :
      HeadersFit
      → (w w' : Writer) (r : Reader) (msg_type : MessageType) (request_id : Option Bytes)
        (payload sent : Bytes)
      → max_payload_size < length payload
      → length payload < u32_mod
      → write_message wire w msg_type request_id payload ≡ ok w'
      → written w' ≡ written w ++ sent
      → pending r ≡ sent
      → read_message wire r ≡ err (too_large_payload wire (length payload))
  read_message-write_message_oversized fit w w' r msg_type request_id payload sent big narrow done
        is_sent there =
      let (header, encoded, is_frame) =
        sent_frame w w' msg_type request_id payload sent done is_sent in
      let same : length payload % u32_mod ≡ length payload = omega arith in
      let h : MessageHeader = record {
        msg_type = msg_type;
        request_id = request_id;
        payload_len = length payload;
      } in
      let encoded_h : wire.encode_header h ≡ ok header =
        ap
          (λ n.
            wire.encode_header
              (record { msg_type = msg_type; request_id = request_id; payload_len = n }))
          (sym same)
        ∙ encoded in
      read_oversized_frame r header payload h (fit h header encoded_h)
        (wire.decode_header-encode_header h header narrow encoded_h) big (there ∙ is_frame)

  -- A length of the header above 256 is refused as soon as its four bytes are read, whatever
  -- follows.
  pub read_message_large_header :
      (r : Reader)
      → 4 ≤ length (pending r)
      → max_header_size < u32_from_be_bytes (take 4 (pending r))
      → read_message wire r ≡ err (too_large_header wire (u32_from_be_bytes (take 4 (pending r))))
  unfolding read_message read_message_zero_copy
  read_message_large_header r long big =
      let (r₁, first, left) = read_part_full wire "Failed to read header length: " r 4 long in
      let refused = lt→ltb max_header_size (u32_from_be_bytes (take 4 (pending r))) big in
      rw (first, refused) refl
