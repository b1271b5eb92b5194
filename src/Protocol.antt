-- ===== src/Protocol.antt =====
-- src/transport/protocol.rs: messages, and their frames on a stream. A frame is the length of the
-- header in four bytes, most significant first, the header, and the payload. The streams of tokio,
-- bincode's encoding of the header and the display of numbers are the parameter `Wire`; a stream
-- that has reported an error is not followed further.
pub mod Frames
pub mod Writing
pub mod Reading
pub mod Transfer
pub mod Truncation
pub mod Rpc
pub mod Delivery
pub mod Reference
mod Tests
use Prim.Native.String.{String, ◌++◌ as concat}
use iroh_raft.Common.{
  ℕ, zero, suc, ◌+◌, ◌-◌, ◌*◌, ◌/◌, ◌%◌, ◌≤◌, ◌<◌, ◌≡◌, min, Bool, true, false, List, [], ◌∷◌, ◌++◌,
  Option, none, some, length, take, drop, ltb, if◌then◌else◌, Outcome, ok, err, map_err, ◌>>=◌,
  ◌>>◌, fail_if,
}
use iroh_raft.Common.Bytes.{u32_mod}
use iroh_raft.Error.{RaftError}
use iroh_raft.Storage.Codec.{Bytes}

abbrev pub large_message_threshold : ℕ
large_message_threshold = 64 * 1024

abbrev pub max_header_size : ℕ
max_header_size = 256

abbrev pub max_payload_size : ℕ
max_payload_size = 100 * 1024 * 1024

-- `CHUNK_SIZE` of the writer and `READ_CHUNK_SIZE` of the reader.
abbrev pub chunk_size : ℕ
chunk_size = 32 * 1024

pub data MessageType : Type 0 where
  request response raft_message heartbeat error : MessageType

pub record MessageHeader : Type 0 where
  pub msg_type : MessageType
  pub request_id : Option Bytes
  pub payload_len : ℕ

pub record ZeroCopyMessage : Type 0 where
  pub msg_type : MessageType
  pub request_id : Option Bytes
  pub payload : Bytes
  pub total_size : ℕ

-- The crates that the frames stand on, with what they document: a write that succeeds adds its
-- bytes to the stream, a flush adds none, `read_exact` gives exactly so many of the bytes that are
-- to come, or fails if they are fewer, and bincode decodes what it encoded.
pub record Wire : Type 1 where
  pub Writer : Type 0
  pub written : Writer → Bytes
  pub write_all : Writer → Bytes → Outcome String Writer
  pub flush : Writer → Outcome String Writer
  pub written-write_all :
      (w w' : Writer) (bs : Bytes) → write_all w bs ≡ ok w' → written w' ≡ written w ++ bs
  pub written-flush : (w w' : Writer) → flush w ≡ ok w' → written w' ≡ written w
  pub Reader : Type 0
  pub pending : Reader → Bytes
  pub read_exact : Reader → ℕ → Outcome String (Bytes × Reader)
  pub read_exact_full :
      (r : Reader) (n : ℕ)
      → n ≤ length (pending r)
      → (r' : Reader) × (read_exact r n ≡ ok (take n (pending r), r'))
        × (pending r' ≡ drop n (pending r))
  pub read_exact_short :
      (r : Reader) (n : ℕ) → length (pending r) < n → (why : String) × (read_exact r n ≡ err why)
  pub encode_header : MessageHeader → Outcome String Bytes
  pub decode_header : Bytes → Outcome String MessageHeader
  pub decode_header-encode_header :
      (h : MessageHeader) (bs : Bytes)
      → h.payload_len < u32_mod
      → encode_header h ≡ ok bs
      → decode_header bs ≡ ok h
  pub show : ℕ → String

abbrev pub internal_error : String → String → RaftError
internal_error what why = RaftError.internal (concat what why)

-- `put_u32` and `u32::to_be_bytes`.
abbrev pub u32_to_be_bytes : ℕ → Bytes
u32_to_be_bytes n = (n / 16777216 % 256) ∷ (n / 65536 % 256) ∷ (n / 256 % 256) ∷ (n % 256) ∷ []

-- `u32::from_be_bytes`, of four bytes.
abbrev pub u32_from_be_bytes : Bytes → ℕ
u32_from_be_bytes (a ∷ b ∷ c ∷ d ∷ []) = a * 16777216 + b * 65536 + c * 256 + d
u32_from_be_bytes _ = 0

-- The sum is one of 32-bit integers.
abbrev pub calculate_size : ℕ → ℕ
calculate_size payload_len = (4 + 32 + payload_len % u32_mod) % u32_mod

unfoldable pub new_borrowed : MessageType → Option Bytes → Bytes → ZeroCopyMessage
new_borrowed msg_type request_id payload = record {
  msg_type = msg_type;
  request_id = request_id;
  payload = payload;
  total_size = calculate_size (length payload);
}

unfoldable pub is_large_message : ZeroCopyMessage → Bool
is_large_message message = ltb large_message_threshold (length message.payload)

abbrev pub header_of : ZeroCopyMessage → MessageHeader
header_of message = record {
  msg_type = message.msg_type;
  request_id = message.request_id;
  payload_len = length message.payload % u32_mod;
}

-- The source calls `new_owned`, which makes the same message from owned bytes.
unfoldable pub create_heartbeat_message : ZeroCopyMessage
create_heartbeat_message = new_borrowed heartbeat none []

unfoldable pub is_heartbeat_message : ZeroCopyMessage → Bool
is_heartbeat_message message = elim message.msg_type [ heartbeat ↦ true | _ ↦ false ]

unfoldable pub should_stream_message : ZeroCopyMessage → Bool
should_stream_message message = is_large_message message
