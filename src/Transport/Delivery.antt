-- ===== src/Transport/Delivery.antt =====
-- From send_single_message of src/transport/iroh.rs, over a stream, to RaftProtocolHandler of
-- src/transport/protocol.rs.
use iroh_raft.Common.{
  ℕ, ◌<◌, ◌≤◌, ◌≡◌, ap, ◌∙◌, Bool, true, [], ◌∷◌, ◌++◌, some, length, ok, err, inl, inr,
  Outcome-cases, ok_injective,
}
use iroh_raft.Common.Bytes.{u32_mod}
use iroh_raft.Raft.{RaftCrate, serialize_message}
use iroh_raft.Storage.Codec.{Bytes}
use iroh_raft.Protocol.{Wire, request, max_payload_size}
use iroh_raft.Protocol.Frames.{write_message}
use iroh_raft.Protocol.Transfer.{HeadersFit, too_large_payload}
use iroh_raft.Protocol.Rpc.{RpcCodec, Inbox, raft_request, serialize_request, handle_stream}
use iroh_raft.Protocol.Delivery.{handle_stream-write_message, handle_stream-write_message_oversized}
use iroh_raft.Transport.Sending.{Stream, send_single_message}

module _ (wire : Wire) (codec : RpcCodec) (raft : RaftCrate)
    (inbox : Inbox (ℕ × raft.Message)) where
  open wire use {Writer, written, Reader, pending}
  open inbox use {Channel, queued, has_receiver}

  -- A message that was sent without an error was written as a request.
  sent_as_request :
      (stream : Stream wire) (msg : raft.Message) (w : Writer)
      → send_single_message wire codec raft stream msg ≡ ok w
      → (payload : Bytes) × (w₀ : Writer) × (codec.encode_request
            (raft_request (raft.encode_to_vec msg))
          ≡ ok payload)
        × (stream.open_bi ≡ ok w₀)
        × (write_message wire w₀ request (some stream.request_id) payload ≡ ok w)
  unfolding send_single_message serialize_message serialize_request
  sent_as_request stream msg w h =
      let asked = raft_request (raft.encode_to_vec msg) in
      elim (Outcome-cases (codec.encode_request asked)) [
        | inr (why, e) ↦ absurd (let bad = rw (send_single_message, e) at h in cc)
        | inl (payload, e) ↦ elim (Outcome-cases stream.open_bi) [
          | inr (why, o) ↦ absurd (let bad = rw (send_single_message, e, o) at h in cc)
          | inl (w₀, o) ↦
              elim (Outcome-cases
                (write_message wire w₀ request (some stream.request_id) payload)) [
                  | inr (why, s) ↦ absurd (let bad = rw (send_single_message, e, o, s) at h in cc)
                  | inl (w', s) ↦ elim (Outcome-cases stream.finish) [
                    | inr (why, f) ↦
                        absurd (let bad = rw (send_single_message, e, o, s, f) at h in cc)
                    | inl (_, f) ↦
                        let same : w' ≡ w =
                          ok_injective (rw (send_single_message, e, o, s, f) at h) in
                        (payload, w₀, e, o, s ∙ ap ok same)
                  ]
                ]
        ]
      ]

  module _ (stream : Stream wire) (msg : raft.Message) (w send : Writer) (r : Reader) (sent : Bytes)
      (c : Channel) (reply_in_time : Bool) where
    -- The bytes that the call has written on its stream are those that the peer's handler reads.
    abbrev pub Connects : Type 0
    Connects =
        ((w₀ : Writer) → stream.open_bi ≡ ok w₀ → written w ≡ written w₀ ++ sent)
        × (pending r ≡ sent)

    -- If headers encode to at most 256 bytes and the request of a message to at most 100 MB, a message that has been sent
    -- without an error, and that the handler of the peer reads in time, is passed, with its sender, to the
    -- Raft manager of the peer, if this is there, whatever happens to the response.
    pub handle_stream-send_single_message :
        HeadersFit wire
        → ((payload : Bytes)
            → codec.encode_request (raft_request (raft.encode_to_vec msg)) ≡ ok payload
            → length payload ≤ max_payload_size)
        → send_single_message wire codec raft stream msg ≡ ok w
        → Connects
        → has_receiver c ≡ true
        → queued (handle_stream wire codec raft inbox true reply_in_time send r c).0
          ≡ queued c ++ ((raft.from msg, msg) ∷ [])
    handle_stream-send_single_message fit room done (wrote, there) open_end =
        let (payload, w₀, encoded, opened, written_out) = sent_as_request stream msg w done in
        handle_stream-write_message wire codec raft inbox fit w₀ w send r (some stream.request_id)
          payload sent msg c reply_in_time encoded (room payload encoded) written_out
          (wrote w₀ opened) there open_end

    -- If headers encode to at most 256 bytes and the request of a message to more than 100 MB, but less than 4 GB, the
    -- message is sent without an error, and the handler of the peer refuses it: the Raft manager does not get it.
    pub handle_stream-send_single_message_oversized :
        HeadersFit wire
        → ((payload : Bytes)
            → codec.encode_request (raft_request (raft.encode_to_vec msg)) ≡ ok payload
            → (max_payload_size < length payload) × (length payload < u32_mod))
        → send_single_message wire codec raft stream msg ≡ ok w
        → Connects
        → (size : ℕ) × (handle_stream wire codec raft inbox true reply_in_time send r c
            ≡ (c, err (too_large_payload wire size)))
    handle_stream-send_single_message_oversized fit big done (wrote, there) =
        let (payload, w₀, encoded, opened, written_out) = sent_as_request stream msg w done in
        let (above, below) = big payload encoded in
        (
          length payload,
          handle_stream-write_message_oversized wire codec raft inbox fit w₀ w send r
              (some stream.request_id) payload sent c reply_in_time above below written_out
              (wrote w₀ opened) there,
        )
