-- ===== src/Transport/Tests.antt =====
-- Messages between nodes over the wire of lists of bytes: each applies a result at concrete messages.
use iroh_raft.Common.{
  ℕ, ◌≡◌, refl, ap, ◌∙◌, true, false, List, [], ◌∷◌, ◌++◌, arith, none, some, ok, length, zero, suc,
  ◌≤◌, subst, ok_injective,
}
use iroh_raft.Common.Bytes.{to_le_bytes}
use iroh_raft.Storage.Codec.{Bytes}
use iroh_raft.Common.Equality.{nat_eq}
use iroh_raft.Common.Maps.{lookup, AllPairs}
use iroh_raft.Raft.{serialize_message}
use iroh_raft.Protocol.{max_payload_size, new_borrowed, is_large_message}
use iroh_raft.Protocol.Frames.{
  write_message, write_message_zero_copy, write_small_message, serialize_header_zero_copy,
}
use iroh_raft.Protocol.Reference.{reference_wire, reference_wire-HeadersFit}
use iroh_raft.Protocol.Rpc.{Inbox, raft_request, handle_stream, serialize_request, is_raft_message}
use iroh_raft.Transport.{
  RaftMessagePriority, election, log_append, snapshot, as_u8, BufferedRaftMessage,
  from_raft_message,
}
use iroh_raft.Transport.Reference.{
  Numbers, reference_raft, reference_codec, reference_inbox, reference_iroh, encode,
}
use iroh_raft.Transport.Buffer.{Queue, queue_of, buffer_message}
use iroh_raft.Transport.Sorting.{
  Arrival, buffer_all, addressed, of_priority, by_priority, buffer_all_sorted,
}
use iroh_raft.Transport.Shared.{SharedNodeState}
use iroh_raft.Transport.Connections.{PeerConnection, connected, check_connection_health}
use iroh_raft.Transport.Sending.{
  Stream, send_single_message, Surroundings, IrohRaftTransport, send_message,
}
use iroh_raft.Transport.Batches.{Outlook, process_message_batches, send_loop}
use iroh_raft.Transport.Accounts.{IsAccount, send_loop-IsAccount}
use iroh_raft.Transport.Bounds.{IsBounded, Buffered-AllBounded, started, buffering, processing}
use iroh_raft.Transport.Acceptance.{send_message_drops}
use iroh_raft.Transport.Idle.{check_connection_health-send_message}
use iroh_raft.Transport.Delivery.{handle_stream-send_single_message}

-- A request for a vote, from node 3 to node 4.
abbrev vote : Numbers
vote = record { type = 5; sender = 3; receiver = 4 }

abbrev calm_stream : Stream reference_wire
calm_stream = record {
  request_id = 0 ∷ 1 ∷ 2 ∷ 3 ∷ 4 ∷ 5 ∷ 6 ∷ 7 ∷ 8 ∷ 9 ∷ 10 ∷ 11 ∷ 12 ∷ 13 ∷ 14 ∷ 15 ∷ [];
  open_bi = ok [];
  finish = ok tt;
}

abbrev vote_bytes : Bytes
vote_bytes =
    0 ∷ 0 ∷ 0 ∷ 25 ∷ 0 ∷ 0 ∷ 0 ∷ 0 ∷ 1 ∷ 0 ∷ 1 ∷ 2 ∷ 3 ∷ 4 ∷ 5 ∷ 6 ∷ 7 ∷ 8 ∷ 9 ∷ 10 ∷ 11 ∷ 12 ∷ 13
    ∷ 14 ∷ 15 ∷ 3 ∷ 0 ∷ 0 ∷ 0 ∷ 5 ∷ 3 ∷ 4 ∷ []

vote_sent :
    send_single_message reference_wire reference_codec reference_raft calm_stream vote
    ≡ ok vote_bytes
unfolding send_single_message serialize_message serialize_request write_message
    write_message_zero_copy new_borrowed is_large_message write_small_message
    serialize_header_zero_copy to_le_bytes encode is_raft_message
vote_sent = refl

vote_small :
    (payload : Bytes)
    → reference_codec.encode_request (raft_request (reference_raft.encode_to_vec vote)) ≡ ok payload
    → length payload ≤ max_payload_size
unfolding encode is_raft_message
vote_small payload h = subst (λ p. length p ≤ max_payload_size) (ok_injective h) (omega arith)

vote_connects : (w₀ : Bytes) → calm_stream.open_bi ≡ ok w₀ → vote_bytes ≡ w₀ ++ vote_bytes
vote_connects w₀ h = ap (λ w. w ++ vote_bytes) (ok_injective h)

abbrev votes : Inbox (ℕ × Numbers)
votes = reference_inbox

handle_stream-send_single_message_example :
    (handle_stream reference_wire reference_codec reference_raft votes true false [] vote_bytes
      (true, [])).0.1
    ≡ ((3, vote) ∷ [])
handle_stream-send_single_message_example =
    handle_stream-send_single_message reference_wire reference_codec reference_raft votes
      calm_stream vote vote_bytes [] vote_bytes vote_bytes (true, []) false
      reference_wire-HeadersFit vote_small vote_sent (vote_connects, refl) refl

abbrev appended : Numbers
appended = record { type = 3; sender = 3; receiver = 4 }

abbrev bulk : Numbers
bulk = record { type = 7; sender = 3; receiver = 4 }

abbrev calls : List (Arrival reference_raft)
calls =
    record { time = 1; peer = 4; message = appended; priority = log_append }
    ∷ record { time = 2; peer = 4; message = vote; priority = election }
    ∷ record { time = 3; peer = 5; message = bulk; priority = snapshot }
    ∷ record { time = 4; peer = 4; message = appended; priority = log_append }
    ∷ []

abbrev waits : Numbers → RaftMessagePriority → ℕ → BufferedRaftMessage reference_raft
waits m p t = record { message = m; priority = p; timestamp = t }

buffer_all_sorted_example :
    queue_of reference_raft 4 (buffer_all reference_raft calls [])
    ≡ waits vote election 2 ∷ waits appended log_append 1 ∷ waits appended log_append 4 ∷ []
unfolding addressed by_priority of_priority as_u8
buffer_all_sorted_example = buffer_all_sorted reference_raft 4 calls

abbrev wide_outlook : Outlook reference_wire reference_codec reference_raft reference_iroh
wide_outlook = record {
  connect = λ id. ok id;
  rounds = λ connection i. record { now = 40000; stream = calm_stream };
}

abbrev known_peers : SharedNodeState reference_iroh
known_peers = record {
  node_id = 3;
  is_running = true;
  peers =
      (
        4,
        record {
          node_id = 4;
          public_key = 0;
          address = none;
          p2p_node_id = some "four";
          p2p_addresses = [];
          p2p_relay_url = none;
        },
      )
      ∷ [];
}

abbrev one_waiting : List (ℕ × Queue reference_raft)
one_waiting = buffer_message reference_raft 1 4 appended log_append []

Buffered-AllBounded_example :
    AllPairs
      (λ _ q. IsBounded reference_wire reference_codec reference_raft reference_iroh q)
      (process_message_batches reference_wire reference_codec reference_raft reference_iroh
        (λ _. wide_outlook)
        known_peers
        []
        one_waiting
        []).0
Buffered-AllBounded_example =
    Buffered-AllBounded reference_wire reference_codec reference_raft reference_iroh
      (process_message_batches reference_wire reference_codec reference_raft reference_iroh
        (λ _. wide_outlook) known_peers [] one_waiting []).0
      (processing (λ _. wide_outlook) known_peers [] [] (buffering 1 4 appended log_append started))

-- One message is too old, and one is sent.
abbrev two_waiting : Queue reference_raft
two_waiting = waits vote election 2 ∷ waits appended log_append 30000 ∷ []

send_loop-IsAccount_example :
    IsAccount reference_wire reference_codec reference_raft
      (wide_outlook.rounds "four")
      0
      0
      two_waiting
      (send_loop reference_wire reference_codec reference_raft
        (wide_outlook.rounds "four")
        0
        0
        two_waiting
        [])
send_loop-IsAccount_example =
    send_loop-IsAccount reference_wire reference_codec reference_raft (wide_outlook.rounds "four") 0
      0 two_waiting [] (omega arith)

abbrev transport_with :
    List (ℕ × Queue reference_raft)
    → List (ℕ × PeerConnection reference_iroh)
    → IrohRaftTransport reference_wire reference_codec reference_raft reference_iroh
transport_with buffer connections = record {
  node = known_peers;
  connections = connections;
  message_buffer = buffer;
  is_shutting_down = false;
  messages_sent = [];
  messages_received = [];
}

abbrev calm : Surroundings reference_wire reference_codec reference_raft reference_iroh
calm = record {
  connect = λ addr. connected addr.0;
  open_stream = λ connection. calm_stream;
  connected_at = 200000;
  buffered_at = 200000;
  counts_free = true;
}

abbrev after_vote : IrohRaftTransport reference_wire reference_codec reference_raft reference_iroh
after_vote =
    (send_message reference_wire reference_codec reference_raft reference_iroh calm 4 vote
      (transport_with [] [])).0

abbrev to_four : PeerConnection reference_iroh
to_four = record { node_id = 4; iroh_node_id = "four"; connection = "four"; last_activity = 1000 }

check_connection_health-send_message_example :
    lookup 4 (
      check_connection_health reference_iroh 301001
        (send_message reference_wire reference_codec reference_raft reference_iroh calm 4 vote
          (transport_with [] ((4, to_four) ∷ []))).0.connections)
    ≡ none
unfolding lookup
check_connection_health-send_message_example =
    check_connection_health-send_message reference_wire reference_codec reference_raft
      reference_iroh calm 4 vote (transport_with [] ((4, to_four) ∷ [])) to_four 301001 (refl, tt)
      refl (omega arith) (omega arith)

unfoldable copies : ℕ → Queue reference_raft
copies zero = []
copies (suc n) = waits appended log_append 1 ∷ copies n

length-copies : (n : ℕ) → length (copies n) ≡ n
unfolding copies
length-copies zero = refl
length-copies (suc n) = ap suc (length-copies n)

abbrev crowded : List (ℕ × Queue reference_raft)
crowded = (4, copies 1000) ∷ []

crowded_queue : queue_of reference_raft 4 crowded ≡ copies 1000
unfolding lookup
crowded_queue = refl

bulk_is_snapshot : from_raft_message reference_raft bulk ≡ snapshot
unfolding from_raft_message
bulk_is_snapshot = refl

abbrev after_bulk : IrohRaftTransport reference_wire reference_codec reference_raft reference_iroh
after_bulk =
    (send_message reference_wire reference_codec reference_raft reference_iroh calm 4 bulk
      (transport_with crowded [])).0

send_message_drops_example :
    ((send_message reference_wire reference_codec reference_raft reference_iroh calm 4 bulk
        (transport_with crowded [])).1
      ≡ ok tt)
    × (after_bulk.connections ≡ [])
    × (after_bulk.messages_sent ≡ (transport_with crowded []).messages_sent)
    × ((j : ℕ)
        → queue_of reference_raft j after_bulk.message_buffer ≡ queue_of reference_raft j crowded)
send_message_drops_example =
    send_message_drops reference_wire reference_codec reference_raft reference_iroh calm 4 bulk
      (transport_with crowded []) refl bulk_is_snapshot
      (ap length crowded_queue ∙ length-copies 1000)
