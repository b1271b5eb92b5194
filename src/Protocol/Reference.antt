-- ===== src/Protocol/Reference.antt =====
-- A `Wire` on lists of bytes, with bincode's layout of the header: the number of the variant in
-- four bytes, the tag of the option, the identifier, and the length in four bytes.
use Prim.Native.String.{String}
use iroh_raft.Common.{
  ℕ, zero, suc, ◌≤◌, ◌<◌, ◌≡◌, refl, sym, ap, ◌∙◌, ◌∷◌, ◌++◌, arith, Option, none, some, inl, inr,
  length, take, drop, leb, le→leb, leb→le, ◌==◌, if◌then◌else◌, Bool-cases, Outcome, ok, err,
  length-append, take-append, drop-append, ◌>>=◌, ok_injective, ==→eq,
}
use iroh_raft.Common.Bytes.{
  u32_mod, to_le_bytes, from_le_bytes, from_le_bytes-to_le_bytes, length-to_le_bytes,
}
use iroh_raft.Storage.Codec.{Bytes}
use iroh_raft.Protocol.{
  Wire, MessageType, request, response, raft_message, heartbeat, error, MessageHeader,
}
use iroh_raft.Protocol.Transfer.{HeadersFit}

abbrev pub variant_of : MessageType → ℕ
variant_of request = 0
variant_of response = 1
variant_of raft_message = 2
variant_of heartbeat = 3
variant_of error = 4

abbrev pub type_of : ℕ → Outcome String MessageType
type_of zero = ok request
type_of (suc zero) = ok response
type_of (suc (suc zero)) = ok raft_message
type_of (suc (suc (suc zero))) = ok heartbeat
type_of (suc (suc (suc (suc zero)))) = ok error
type_of _ = err "invalid variant"

type_of-variant_of : (t : MessageType) → type_of (variant_of t) ≡ ok t
type_of-variant_of request = refl
type_of-variant_of response = refl
type_of-variant_of raft_message = refl
type_of-variant_of heartbeat = refl
type_of-variant_of error = refl

-- An identifier that has not 16 bytes is no value of the source's type.
abbrev pub encode : MessageType → Option Bytes → ℕ → Outcome String Bytes
encode t none len = ok (variant_of t ∷ 0 ∷ 0 ∷ 0 ∷ 0 ∷ to_le_bytes 4 len)
encode t (some id) len =
    if length id == 16
    then ok (variant_of t ∷ 0 ∷ 0 ∷ 0 ∷ 1 ∷ (id ++ to_le_bytes 4 len))
    else err "no identifier"

abbrev pub decode_rest : ℕ → Bytes → MessageType → Outcome String MessageHeader
decode_rest zero more t =
    ok (record { msg_type = t; request_id = none; payload_len = from_le_bytes more })
decode_rest (suc zero) more t = ok (record {
  msg_type = t;
  request_id = some (take 16 more);
  payload_len = from_le_bytes (drop 16 more);
})
decode_rest _ more t = err "invalid tag"

abbrev pub decode : Bytes → Outcome String MessageHeader
decode (variant ∷ _ ∷ _ ∷ _ ∷ tag ∷ more) = type_of variant >>= decode_rest tag more
decode _ = err "early end"

take_sized : (id xs : Bytes) → length id ≡ 16 → take 16 (id ++ xs) ≡ id
take_sized id xs h = ap (λ k. take k (id ++ xs)) (sym h) ∙ take-append id xs

drop_sized : (id xs : Bytes) → length id ≡ 16 → drop 16 (id ++ xs) ≡ xs
drop_sized id xs h = ap (λ k. drop k (id ++ xs)) (sym h) ∙ drop-append id xs

-- The two branches of `encode`, from what it gave.
encode_sized :
    (t : MessageType) (id : Bytes) (len : ℕ) (bs : Bytes)
    → encode t (some id) len ≡ ok bs
    → (length id ≡ 16) × ((variant_of t ∷ 0 ∷ 0 ∷ 0 ∷ 1 ∷ (id ++ to_le_bytes 4 len)) ≡ bs)
encode_sized t id len bs h = elim (Bool-cases (length id == 16)) [
  | inl sized ↦ (==→eq (length id) 16 sized, ok_injective (rw sized at h))
  | inr other ↦ let given = rw other at h in absurd cc
]

pub decode-encode :
    (t : MessageType) (id : Option Bytes) (len : ℕ) (bs : Bytes)
    → len < u32_mod
    → encode t id len ≡ ok bs
    → decode bs ≡ ok (record { msg_type = t; request_id = id; payload_len = len })
decode-encode t none len bs fits h =
    ap decode (sym (ok_injective h))
    ∙ rw (type_of-variant_of t, from_le_bytes-to_le_bytes 4 len (omega (arith, fits))) refl
decode-encode t (some id) len bs fits h =
    let (long, given) = encode_sized t id len bs h in
    ap decode (sym given)
    ∙ rw
        (
          type_of-variant_of t,
          take_sized id (to_le_bytes 4 len) long,
          drop_sized id (to_le_bytes 4 len) long,
          from_le_bytes-to_le_bytes 4 len (omega (arith, fits)),
        )
        refl

length-encode :
    (t : MessageType) (id : Option Bytes) (len : ℕ) (bs : Bytes)
    → encode t id len ≡ ok bs
    → length bs ≤ 256
length-encode t none len bs h =
    let given = ok_injective h in rw⁻¹ given (omega (arith, length-to_le_bytes 4 len))
length-encode t (some id) len bs h =
    let (long, given) = encode_sized t id len bs h in
    let size = length-append id (to_le_bytes 4 len) in
    rw⁻¹ given (omega (arith, size, length-to_le_bytes 4 len))

abbrev pub read_bytes : Bytes → ℕ → Outcome String (Bytes × Bytes)
read_bytes r n = if leb n (length r) then ok (take n r, drop n r) else err "early eof"

pub read_bytes_full :
    (r : Bytes) (n : ℕ)
    → n ≤ length r
    → (r' : Bytes) × (read_bytes r n ≡ ok (take n r, r')) × (r' ≡ drop n r)
read_bytes_full r n h = (drop n r, rw (le→leb n (length r) h) refl, refl)

pub read_bytes_short :
    (r : Bytes) (n : ℕ) → length r < n → (why : String) × (read_bytes r n ≡ err why)
read_bytes_short r n h = elim (Bool-cases (leb n (length r))) [
  | inl long ↦ absurd (omega (arith, leb→le n (length r) long))
  | inr short ↦ ("early eof", rw short refl)
]

abbrev pub reference_wire : Wire
reference_wire = record {
  Writer = Bytes;
  written = λ w. w;
  write_all = λ w bs. ok (w ++ bs);
  flush = λ w. ok w;
  written-write_all = λ w w' bs h. sym (ok_injective h);
  written-flush = λ w w' h. sym (ok_injective h);
  Reader = Bytes;
  pending = λ r. r;
  read_exact = read_bytes;
  read_exact_full = read_bytes_full;
  read_exact_short = read_bytes_short;
  encode_header = λ h. encode h.msg_type h.request_id h.payload_len;
  decode_header = decode;
  decode_header-encode_header = λ h bs. decode-encode h.msg_type h.request_id h.payload_len bs;
  show = λ n. "a number of";
}

pub reference_wire-HeadersFit : HeadersFit reference_wire
reference_wire-HeadersFit h bs encoded =
    length-encode h.msg_type h.request_id h.payload_len bs encoded
