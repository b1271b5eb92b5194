-- ===== src/Protocol/Delivery.antt =====
-- A message of Raft from the stream of its sender to the channel of the Raft manager: write_message
-- and RaftProtocolHandler of src/transport/protocol.rs, together.
use iroh_raft.Common.{
  ℕ, ◌+◌, ◌%◌, ◌≤◌, ◌<◌, ◌≡◌, refl, ◌∙◌, Bool, true, [], ◌∷◌, ◌++◌, Option, length, ok, err,
  append-nil, sym,
}
use iroh_raft.Raft.{RaftCrate, deserialize_raft_message_fast}
use iroh_raft.Common.Bytes.{u32_mod}
use iroh_raft.Storage.Codec.{Bytes}
use iroh_raft.Protocol.{Wire, request, ZeroCopyMessage, max_payload_size}
use iroh_raft.Protocol.Frames.{write_message, read_message, read_zero_copy_message}
use iroh_raft.Protocol.Transfer.{
  HeadersFit, read_message-write_message, read_message-write_message_oversized, too_large_payload,
}
use iroh_raft.Protocol.Rpc.{
  RpcCodec, Inbox, raft_request, success_response, deserialize_request, is_raft_message,
  forward_request, handle_rpc_request_zero_copy, process_message_zero_copy, handle_stream, reply,
}

module _ (wire : Wire) (codec : RpcCodec) (raft : RaftCrate)
    (inbox : Inbox (ℕ × raft.Message)) where
  open wire use {Writer, written, Reader, pending}
  open inbox use {Channel, queued, has_receiver}

  -- A request, as `read_zero_copy_message` gives it.
  abbrev as_request : Option Bytes → Bytes → ZeroCopyMessage
  as_request request_id payload = record {
    msg_type = request;
    request_id = request_id;
    payload = payload;
    total_size = (4 + length payload % u32_mod) % u32_mod;
  }

  -- A request with the encoding of a message, handled.
  request_taken :
      (in_time : Bool) (send : Writer) (request_id : Option Bytes) (payload : Bytes) (c : Channel)
      (msg : raft.Message)
      → codec.encode_request (raft_request (raft.encode_to_vec msg)) ≡ ok payload
      → has_receiver c ≡ true
      → (c' : Channel) × (process_message_zero_copy wire codec raft inbox in_time send
            (as_request request_id payload)
            c
          ≡ (
            c',
            reply wire codec raft inbox in_time send
                (as_request request_id payload)
                success_response,
          ))
        × (queued c' ≡ queued c ++ ((raft.from msg, msg) ∷ []))
  unfolding process_message_zero_copy handle_rpc_request_zero_copy forward_request
      deserialize_request deserialize_raft_message_fast is_raft_message
  request_taken in_time send request_id payload c msg encoded open_end =
      let decoded =
        codec.decode_request-encode_request (raft_request (raft.encode_to_vec msg)) payload
          encoded in
      let (c', taken, there) = inbox.send_open c (raft.from msg, msg) open_end in
      (
        c',
        rw
            (
              handle_rpc_request_zero_copy,
              decoded,
              forward_request,
              raft.decode-encode_to_vec msg,
              taken,
            )
            refl,
        there,
      )

  -- If headers encode to at most 256 bytes, and a message of Raft, encoded as a request of at most
  -- 100 MB, has been written on a stream, then the handler that reads the stream in time passes the message, with its
  -- sender, to the Raft manager, if this is there, whatever happens to the response.
  pub handle_stream-write_message :
      HeadersFit wire
      → (w w' send : Writer) (r : Reader) (request_id : Option Bytes) (payload sent : Bytes)
        (msg : raft.Message) (c : Channel) (reply_in_time : Bool)
      → codec.encode_request (raft_request (raft.encode_to_vec msg)) ≡ ok payload
      → length payload ≤ max_payload_size
      → write_message wire w request request_id payload ≡ ok w'
      → written w' ≡ written w ++ sent
      → pending r ≡ sent
      → has_receiver c ≡ true
      → queued (handle_stream wire codec raft inbox true reply_in_time send r c).0
        ≡ queued c ++ ((raft.from msg, msg) ∷ [])
  unfolding handle_stream read_zero_copy_message read_message
  handle_stream-write_message fit w w' send r request_id payload sent msg c reply_in_time encoded
        room done is_sent there open_end =
      let (r', read, _) =
        read_message-write_message wire fit w w' r request request_id payload sent [] room done
          is_sent (there ∙ sym (append-nil sent)) in
      let (c', result, taken) =
        request_taken reply_in_time send request_id payload c msg encoded open_end in
      rw (read, result) taken

  -- If headers encode to at most 256 bytes, a request of more than 100 MB, and less than 4 GB, is
  -- written without an error, and never reaches the Raft manager.
  pub handle_stream-write_message_oversized :
      HeadersFit wire
      → (w w' send : Writer) (r : Reader) (request_id : Option Bytes) (payload sent : Bytes)
        (c : Channel) (reply_in_time : Bool)
      → max_payload_size < length payload
      → length payload < u32_mod
      → write_message wire w request request_id payload ≡ ok w'
      → written w' ≡ written w ++ sent
      → pending r ≡ sent
      → handle_stream wire codec raft inbox true reply_in_time send r c
        ≡ (c, err (too_large_payload wire (length payload)))
  unfolding handle_stream read_zero_copy_message read_message
  handle_stream-write_message_oversized fit w w' send r request_id payload sent c reply_in_time big
        narrow done is_sent there =
      rw
        (read_message-write_message_oversized wire fit w w' r request request_id payload sent big
          narrow done is_sent there)
        refl
