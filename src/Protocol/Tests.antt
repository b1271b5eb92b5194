-- ===== src/Protocol/Tests.antt =====
-- Transfers over the wire of lists of bytes: each applies a result at concrete messages.
use iroh_raft.Common.{ℕ, zero, suc, ◌%◌, ◌≡◌, refl, ap, [], ◌∷◌, ◌++◌, arith, none, length, ok, err}
use iroh_raft.Common.Bytes.{u32_mod, to_le_bytes}
use iroh_raft.Storage.Codec.{Bytes}
use iroh_raft.Protocol.{request, new_borrowed, is_large_message}
use iroh_raft.Protocol.Frames.{
  write_message, read_message, write_message_zero_copy, write_small_message,
  serialize_header_zero_copy,
}
use iroh_raft.Protocol.Writing.{frame, IsCalm, write_message_total}
use iroh_raft.Protocol.Transfer.{
  read_message-write_message, read_message-write_message_oversized, too_large_payload,
}
use iroh_raft.Error.{RaftError}
use iroh_raft.Protocol.Truncation.{read_message_truncated}
use iroh_raft.Protocol.Reference.{reference_wire, reference_wire-HeadersFit}

reference_wire-IsCalm : IsCalm reference_wire
reference_wire-IsCalm = ((λ w bs. (w ++ bs, refl)), (λ w. (w, refl)))

abbrev hello_header : Bytes
hello_header = 0 ∷ 0 ∷ 0 ∷ 0 ∷ 0 ∷ 3 ∷ 0 ∷ 0 ∷ 0 ∷ []

abbrev hello_frame : Bytes
hello_frame = 0 ∷ 0 ∷ 0 ∷ 9 ∷ 0 ∷ 0 ∷ 0 ∷ 0 ∷ 0 ∷ 3 ∷ 0 ∷ 0 ∷ 0 ∷ 7 ∷ 8 ∷ 9 ∷ []

hello_written :
    write_message reference_wire (1 ∷ []) request none (7 ∷ 8 ∷ 9 ∷ []) ≡ ok (1 ∷ hello_frame)
unfolding write_message write_message_zero_copy new_borrowed is_large_message write_small_message
    serialize_header_zero_copy to_le_bytes
hello_written = refl

hello_encoded :
    reference_wire.encode_header (record { msg_type = request; request_id = none; payload_len = 3 })
    ≡ ok hello_header
unfolding to_le_bytes
hello_encoded = refl

write_message_total_example :
    (w' : Bytes) × (write_message reference_wire [] request none (7 ∷ 8 ∷ 9 ∷ []) ≡ ok w')
    × (w' ≡ frame hello_header (7 ∷ 8 ∷ 9 ∷ []))
write_message_total_example =
    write_message_total reference_wire reference_wire-IsCalm [] request none (7 ∷ 8 ∷ 9 ∷ [])
      hello_header hello_encoded

read_message-write_message_example :
    (r' : Bytes) × (read_message reference_wire (hello_frame ++ (5 ∷ 6 ∷ []))
      ≡ ok
          ((record { msg_type = request; request_id = none; payload_len = 3 }, 7 ∷ 8 ∷ 9 ∷ []), r'))
    × (r' ≡ 5 ∷ 6 ∷ [])
read_message-write_message_example =
    read_message-write_message reference_wire reference_wire-HeadersFit (1 ∷ []) (1 ∷ hello_frame)
      (hello_frame ++ (5 ∷ 6 ∷ [])) request none (7 ∷ 8 ∷ 9 ∷ []) hello_frame (5 ∷ 6 ∷ [])
      (omega arith) hello_written refl refl

unfoldable zeros : ℕ → Bytes
zeros zero = []
zeros (suc n) = 0 ∷ zeros n

length-zeros : (n : ℕ) → length (zeros n) ≡ n
unfolding zeros
length-zeros zero = refl
length-zeros (suc n) = ap suc (length-zeros n)

-- One byte more than the reader takes.
abbrev big_payload : Bytes
big_payload = zeros 104857601

big_written : (w' : Bytes) × (write_message reference_wire [] request none big_payload ≡ ok w')
big_written =
    let (w', done, _) =
      write_message_total reference_wire reference_wire-IsCalm [] request none big_payload
        (0 ∷ 0 ∷ 0 ∷ 0 ∷ 0 ∷ to_le_bytes 4 (length big_payload % u32_mod)) refl in
    (w', done)

read_message-write_message_oversized_example :
    read_message reference_wire big_written.0
    ≡ err (too_large_payload reference_wire (length big_payload))
read_message-write_message_oversized_example =
    read_message-write_message_oversized reference_wire reference_wire-HeadersFit [] big_written.0
      big_written.0 request none big_payload big_written.0 (omega (arith, length-zeros 104857601))
      (omega (arith, length-zeros 104857601)) big_written.1 refl refl

abbrev hello_missing : Bytes
hello_missing = 8 ∷ 9 ∷ []

read_message_truncated_example :
    (why : RaftError) × (read_message reference_wire
        (0 ∷ 0 ∷ 0 ∷ 9 ∷ 0 ∷ 0 ∷ 0 ∷ 0 ∷ 0 ∷ 3 ∷ 0 ∷ 0 ∷ 0 ∷ 7 ∷ [])
      ≡ err why)
read_message_truncated_example =
    read_message_truncated reference_wire reference_wire-HeadersFit (1 ∷ []) (1 ∷ hello_frame)
      (0 ∷ 0 ∷ 0 ∷ 9 ∷ 0 ∷ 0 ∷ 0 ∷ 0 ∷ 0 ∷ 3 ∷ 0 ∷ 0 ∷ 0 ∷ 7 ∷ []) request none (7 ∷ 8 ∷ 9 ∷ [])
      hello_missing (omega arith) hello_written refl (omega arith)
