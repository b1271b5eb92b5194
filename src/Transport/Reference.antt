-- ===== src/Transport/Reference.antt =====
-- Instances of the parameters of these modules: messages of three numbers, which are their own encoding, addresses as text,
-- a codec that knows the requests of Raft only, and channels as lists.
use Prim.Native.String.{String}
use iroh_raft.Common.{
  ℕ, ◌≡◌, refl, sym, ap, ◌∙◌, Bool, true, false, List, [], ◌∷◌, ◌++◌, Option, none, some,
  if◌then◌else◌, Outcome, ok, err, ok_injective, Bool-cases, inl, inr, &&-eq_true,
}
use iroh_raft.Common.Equality.{nat_eq, string_eq}
use iroh_raft.Raft.{RaftCrate}
use iroh_raft.Storage.Codec.{Bytes}
use iroh_raft.Protocol.Rpc.{RpcCodec, RpcRequest, Inbox, raft_request, is_raft_message}
use iroh_raft.Transport.Shared.{Iroh}

-- The type, the sender and the receiver.
pub record Numbers : Type 0 where
  pub type : ℕ
  pub sender : ℕ
  pub receiver : ℕ

unfoldable pub decode_numbers : Bytes → Option Numbers
decode_numbers (t ∷ f ∷ o ∷ []) = some (record { type = t; sender = f; receiver = o })
decode_numbers _ = none

pub numbers_decode : (m : Numbers) → decode_numbers (m.type ∷ m.sender ∷ m.receiver ∷ []) ≡ some m
unfolding decode_numbers
numbers_decode m = refl

abbrev pub reference_raft : RaftCrate
reference_raft = record {
  Message = Numbers;
  MessageType = ℕ;
  msg_type = λ m. m.type;
  from = λ m. m.sender;
  to = λ m. m.receiver;
  type_eq = nat_eq;
  show_type = λ _. "type";
  msg_hup = 0;
  msg_beat = 1;
  msg_propose = 2;
  msg_append = 3;
  msg_append_response = 4;
  msg_request_vote = 5;
  msg_request_vote_response = 6;
  msg_snapshot = 7;
  msg_heartbeat = 8;
  msg_heartbeat_response = 9;
  encode_to_vec = λ m. m.type ∷ m.sender ∷ m.receiver ∷ [];
  decode = decode_numbers;
  decode-encode_to_vec = numbers_decode;
}

unfoldable pub encode : RpcRequest → Outcome String Bytes
encode r = if is_raft_message r then ok r.payload else err "not of Raft"

unfoldable pub decode : Bytes → Outcome String RpcRequest
decode payload = ok (raft_request payload)

pub decode-encode : (r : RpcRequest) (bs : Bytes) → encode r ≡ ok bs → decode bs ≡ ok r
unfolding is_raft_message encode decode
decode-encode r bs h = elim (Bool-cases (is_raft_message r)) [
  | inr other ↦ absurd (let bad = rw (encode, other) at h in cc)
  | inl same ↦
      let payload : r.payload ≡ bs = ok_injective (rw (encode, same) at h) in
      let (service, method) =
        &&-eq_true (string_eq.beq r.service "raft") (string_eq.beq r.method "raft.message") same in
      ap (λ p. ok (raft_request p)) (sym payload)
      ∙ ap (λ s. ok (record { service = s; method = "raft.message"; payload = r.payload }))
          (sym ((string_eq.beq_iff r.service "raft").0 service))
      ∙ ap (λ m. ok (record { service = r.service; method = m; payload = r.payload }))
          (sym ((string_eq.beq_iff r.method "raft.message").0 method))
]

abbrev pub reference_codec : RpcCodec
reference_codec = record {
  encode_request = encode;
  decode_request = decode;
  decode_request-encode_request = decode-encode;
  encode_response = λ r. if r.success then ok (1 ∷ []) else ok (0 ∷ []);
}

unfoldable pub push_item : {M : Type 0} → Bool × List M → M → Outcome String (Bool × List M)
push_item (true, queue) m = ok (true, queue ++ (m ∷ []))
push_item (false, queue) m = err "closed"

pub send_open :
    {M : Type 0} (c : Bool × List M) (m : M)
    → c.0 ≡ true
    → (c' : Bool × List M) × (push_item c m ≡ ok c') × (c'.1 ≡ c.1 ++ (m ∷ []))
unfolding push_item
send_open (true, queue) m h = ((true, queue ++ (m ∷ [])), refl, refl)
send_open (false, queue) m h = absurd cc

pub send_closed :
    {M : Type 0} (c : Bool × List M) (m : M)
    → c.0 ≡ false
    → (why : String) × (push_item c m ≡ err why)
unfolding push_item
send_closed (true, queue) m h = absurd cc
send_closed (false, queue) m h = ("closed", refl)

abbrev pub reference_inbox : {M : Type 0} → Inbox M
reference_inbox {M} = record {
  Channel = Bool × List M;
  queued = λ (c : Bool × List M). c.1;
  has_receiver = λ (c : Bool × List M). c.0;
  send = push_item;
  send_open = send_open;
  send_closed = send_closed;
}

abbrev pub reference_iroh : Iroh
reference_iroh = record {
  NodeId = String;
  SocketAddr = String;
  RelayUrl = String;
  NodeAddr = String × List String;
  PublicKey = ℕ;
  Connection = String;
  parse_node_id = λ text. ok text;
  parse_socket_addr = λ text. ok text;
  parse_relay_url = λ text. ok text;
  node_addr = λ id. (id, []);
  with_direct_addresses = λ (addr : String × List String) addrs. (addr.0, addrs);
  with_relay_url = λ addr url. addr;
  node_id = λ (addr : String × List String). addr.0;
}
