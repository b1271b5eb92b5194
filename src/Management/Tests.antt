-- ===== src/Management/Tests.antt =====
-- A management request over the wire of lists of bytes: each applies a result at concrete values.
use Prim.Native.String.{String}
use iroh_raft.Common.{ℕ, ◌≡◌, refl, arith, true, false, [], ◌∷◌, Option, none, Outcome, ok, err}
use iroh_raft.Common.Bytes.{to_le_bytes}
use iroh_raft.Common.Equality.{nat_eq}
use iroh_raft.Common.Maps.{lookup}
use iroh_raft.Auth.Operations.{ManagementOperation, step_down}
use iroh_raft.Storage.Codec.{Bytes}
use iroh_raft.Protocol
use iroh_raft.Protocol.{new_borrowed, is_large_message}
use iroh_raft.Protocol.Frames.{
  write_message, write_message_zero_copy, write_small_message, serialize_header_zero_copy,
}
use iroh_raft.Protocol.Reference.{reference_wire, reference_wire-HeadersFit}
use iroh_raft.Protocol.Rpc.{Inbox}
use iroh_raft.Transport.Reference.{reference_inbox}
use iroh_raft.Management.Responses.{ManagementRequest, success_response}
use iroh_raft.Management.{ManagementCodec, check_permission, handle_management_stream}
use iroh_raft.Management.Access.{handle_management_stream_unchecked}

-- A codec that knows one request.
abbrev stepping_down : ManagementRequest
stepping_down = record { operation = step_down; timeout = none; authorization = none }

abbrev encode : ManagementOperation → Option ℕ → Option String → Outcome String Bytes
encode step_down none none = ok (9 ∷ [])
encode _ _ _ = err "unknown"

encode_fields :
    (operation : ManagementOperation) (timeout : Option ℕ) (authorization : Option String)
    (bs : Bytes)
    → encode operation timeout authorization ≡ ok bs
    → ◌≡◌ {A = Outcome String ManagementRequest}
        (ok stepping_down)
        (ok (record { operation = operation; timeout = timeout; authorization = authorization }))
encode_fields step_down none none bs h = refl
encode_fields _ _ _ bs h = absurd cc

abbrev one_request : ManagementCodec (Unit {0})
one_request = record {
  encode_request = λ r. encode r.operation r.timeout r.authorization;
  decode_request = λ _. ok stepping_down;
  decode_request-encode_request =
      λ r bs h. encode_fields r.operation r.timeout r.authorization bs h;
  encode_response = λ _. ok (1 ∷ []);
}

abbrev request_bytes : Bytes
request_bytes = 0 ∷ 0 ∷ 0 ∷ 9 ∷ 0 ∷ 0 ∷ 0 ∷ 0 ∷ 0 ∷ 1 ∷ 0 ∷ 0 ∷ 0 ∷ 9 ∷ []

request_written : write_message reference_wire [] Protocol.request none (9 ∷ []) ≡ ok request_bytes
unfolding write_message write_message_zero_copy new_borrowed is_large_message write_small_message
    serialize_header_zero_copy to_le_bytes
request_written = refl

nobody_may_step_down : (node_id : ℕ) → check_permission [] node_id step_down ≡ false
unfolding check_permission lookup
nobody_may_step_down node_id = refl

abbrev requests : Inbox ManagementRequest
requests = reference_inbox

handle_management_stream_unchecked_example :
    (handle_management_stream reference_wire one_request requests true true
      (ok success_response)
      []
      request_bytes
      (true, [])
      []).0.1
    ≡ (stepping_down ∷ [])
handle_management_stream_unchecked_example =
    handle_management_stream_unchecked reference_wire one_request requests reference_wire-HeadersFit
      [] request_bytes [] request_bytes none (9 ∷ []) request_bytes stepping_down (true, []) true
      (ok success_response) [] nobody_may_step_down refl (omega arith) request_written refl refl
      refl
