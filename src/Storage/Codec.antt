-- ===== src/Storage/Codec.antt =====
-- src/storage/codec.rs: entries, hard states and configuration states of raft-rs as bytes.
-- A byte vector is a list of numbers. The protobuf functions (messages and snapshots) only call
-- prost and stand in `Storage.Redb` as a parameter. `usize` has 64 bits, and a cursor plus a 32-bit
-- length stays far below that, so the sums of the bounds checks do not wrap.
pub mod Reads
pub mod Entries
pub mod States
use Prim.Native.String.{String}
use iroh_raft.Common.{
  ℕ, zero, suc, ◌+◌, ◌%◌, ◌==◌, Bool, true, false, not, List, [], ◌∷◌, ◌++◌, length, slice, get_or,
  ltb, if◌then◌else◌, Outcome, ok, err, ◌>>=◌, ◌>>◌, fail_if,
}
use iroh_raft.Common.Bytes.{to_le_bytes, from_le_bytes, u32_mod}
use iroh_raft.Error.{RaftError, Cause}

abbrev pub Bytes : Type 0
Bytes = List ℕ

-- `eraftpb::Entry`; `entry_type` is the bit pattern of its `i32`.
pub record Entry : Type 0 where
  pub entry_type : ℕ
  pub term : ℕ
  pub index : ℕ
  pub payload : Bytes
  pub context : Bytes
  pub sync_log : Bool

-- `eraftpb::HardState`.
pub record HardState : Type 0 where
  pub term : ℕ
  pub vote : ℕ
  pub commit : ℕ

-- `eraftpb::ConfState`.
pub record ConfState : Type 0 where
  pub voters : List ℕ
  pub learners : List ℕ
  pub voters_outgoing : List ℕ
  pub learners_next : List ℕ
  pub auto_leave : Bool

-- `x as u8` and `x as u32`.
abbrev pub as_u8 : ℕ → ℕ
as_u8 n = n % 256

abbrev pub as_u32 : ℕ → ℕ
as_u32 n = n % u32_mod

-- `if flag { 1 } else { 0 }`.
abbrev pub flag_byte : Bool → ℕ
flag_byte flag = if flag then 1 else 0

abbrev pub short_of : String → String → RaftError
short_of what why = RaftError.serialization what (Cause.text why)

-- The integer of `width` bytes at `cursor`, where a check has shown that they are there.
unfoldable pub read_le : ℕ → Bytes → ℕ → ℕ
read_le width buf cursor = from_le_bytes (slice buf cursor (cursor + width))

unfoldable pub entry_bytes : Entry → Bytes
entry_bytes e =
    to_le_bytes 8 e.index
    ++ (to_le_bytes 8 e.term
        ++ (as_u8 e.entry_type
            ∷ (to_le_bytes 4 (as_u32 (length e.payload))
                ++ (e.payload
                    ++ (to_le_bytes 4 (as_u32 (length e.context))
                        ++ (e.context ++ (flag_byte e.sync_log ∷ [])))))))

unfoldable pub serialize_entry : Entry → Outcome RaftError Bytes
serialize_entry e = ok (entry_bytes e)

-- The cursor stands at 0, 8, 16, 17 and 21, and from there on where the lengths put it.
unfoldable pub deserialize_entry : Bytes → Outcome RaftError Entry
deserialize_entry buf = do
  fail_if (ltb (length buf) 26) (short_of "Entry" "insufficient data")
  let index = read_le 8 buf 0
  let term = read_le 8 buf 8
  let entry_type = get_or buf 16 0
  fail_if (ltb (length buf) (17 + 4)) (short_of "Entry" "insufficient data for data length")
  let data_len = read_le 4 buf 17
  fail_if (ltb (length buf) (21 + data_len)) (
      RaftError.serialization "Entry"
        (Cause.need_have "insufficient data for entry data" (21 + data_len) (length buf)))
  let entry_data = slice buf 21 (21 + data_len)
  let at_context = 21 + data_len
  fail_if (ltb (length buf) (at_context + 4))
      (short_of "Entry" "insufficient data for context length")
  let context_len = read_le 4 buf at_context
  let in_context = at_context + 4
  fail_if (ltb (length buf) (in_context + context_len)) (
      RaftError.serialization "Entry"
        (Cause.need_have "insufficient data for context" (in_context + context_len) (length buf)))
  let context = slice buf in_context (in_context + context_len)
  let at_sync = in_context + context_len
  fail_if (not (ltb at_sync (length buf))) (short_of "Entry" "insufficient data for sync_log")
  ok (record {
    entry_type = entry_type;
    term = term;
    index = index;
    payload = entry_data;
    context = context;
    sync_log = not (get_or buf at_sync 0 == 0);
  })

unfoldable pub hard_state_bytes : HardState → Bytes
hard_state_bytes hs = to_le_bytes 8 hs.term ++ (to_le_bytes 8 hs.vote ++ to_le_bytes 8 hs.commit)

unfoldable pub serialize_hard_state : HardState → Outcome RaftError Bytes
serialize_hard_state hs = ok (hard_state_bytes hs)

unfoldable pub deserialize_hard_state : Bytes → Outcome RaftError HardState
deserialize_hard_state buf = do
  fail_if (not (length buf == 24)) (short_of "HardState" "invalid data length")
  ok (record { term = read_le 8 buf 0; vote = read_le 8 buf 8; commit = read_le 8 buf 16 })

-- The loop that writes the ids of one list.
unfoldable pub id_bytes : List ℕ → Bytes
id_bytes [] = []
id_bytes (id ∷ ids) = to_le_bytes 8 id ++ id_bytes ids

unfoldable pub ids_bytes : List ℕ → Bytes
ids_bytes ids = to_le_bytes 4 (as_u32 (length ids)) ++ id_bytes ids

unfoldable pub conf_state_bytes : ConfState → Bytes
conf_state_bytes cs =
    ids_bytes cs.voters
    ++ (ids_bytes cs.learners
        ++ (ids_bytes cs.voters_outgoing
            ++ (ids_bytes cs.learners_next ++ (flag_byte cs.auto_leave ∷ []))))

unfoldable pub serialize_conf_state : ConfState → Outcome RaftError Bytes
serialize_conf_state cs = ok (conf_state_bytes cs)

-- `for _ in 0..len`: the ids pushed so far and the cursor.
unfoldable pub read_ids : String → Bytes → ℕ → ℕ → List ℕ → Outcome RaftError (List ℕ × ℕ)
read_ids what buf zero cursor ids = ok (ids, cursor)
read_ids what buf (suc left) cursor ids =
    let rest = read_ids what buf left (cursor + 8) (ids ++ (read_le 8 buf cursor ∷ [])) in
    if ltb (length buf) (cursor + 8) then err (short_of "ConfState" what) else rest

-- One length-prefixed list, with the messages of its two checks.
unfoldable pub read_id_list : String → String → Bytes → ℕ → Outcome RaftError (List ℕ × ℕ)
unfolding read_ids
read_id_list no_length no_id buf cursor = do
  fail_if (ltb (length buf) (cursor + 4)) (short_of "ConfState" no_length)
  read_ids no_id buf (read_le 4 buf cursor) (cursor + 4) []

-- `if cursor < data.len() { cs.auto_leave = data[cursor] != 0; }`
abbrev pub read_auto_leave : Bytes → ℕ → Bool
read_auto_leave buf cursor =
    if ltb cursor (length buf) then not (get_or buf cursor 0 == 0) else false

unfoldable pub deserialize_conf_state : Bytes → Outcome RaftError ConfState
deserialize_conf_state buf = do
  fail_if (ltb (length buf) 16) (short_of "ConfState" "insufficient data")
  (voters, c1) ←
      read_id_list "insufficient data for voters length" "insufficient data for voter" buf 0
  (learners, c2) ←
      read_id_list "insufficient data for learners length" "insufficient data for learner" buf c1
  (voters_outgoing, c3) ←
      read_id_list "insufficient data for voters_outgoing length"
        "insufficient data for voter_outgoing" buf c2
  (learners_next, c4) ←
      read_id_list "insufficient data for learners_next length" "insufficient data for learner_next"
        buf c3
  ok (record {
    voters = voters;
    learners = learners;
    voters_outgoing = voters_outgoing;
    learners_next = learners_next;
    auto_leave = read_auto_leave buf c4;
  })
