-- ===== src/Storage/Codec/States.antt =====
-- Hard states and configuration states read back.
use Prim.Native.String.{String}
use mathlib.Core.Path.{ap₂}
use iroh_raft.Common.{
  ℕ, ◌+◌, ◌*◌, ◌<◌, ◌≡◌, refl, sym, ap, ◌∙◌, List, [], ◌∷◌, ◌++◌, append-nil, append_assoc, arith,
  Bool, length, drop, All, length-append, get_or-drop, ok, ◌>>=◌, le→not_ltb, lt→ltb,
}
use iroh_raft.Common.Bytes.{to_le_bytes, u32_mod, u64_mod, length-to_le_bytes}
use iroh_raft.Storage.Codec.{
  Bytes, HardState, ConfState, hard_state_bytes, serialize_hard_state, deserialize_hard_state,
  id_bytes, ids_bytes, conf_state_bytes, serialize_conf_state, deserialize_conf_state, read_le,
  read_ids, read_id_list, read_auto_leave, as_u32, flag_byte,
}
use iroh_raft.Storage.Codec.Reads.{read_le-to_le_bytes, drop-next, fits}

pub record IsWideHard (hs : HardState) : Type 0 where
  pub term_u64 : hs.term < u64_mod
  pub vote_u64 : hs.vote < u64_mod
  pub commit_u64 : hs.commit < u64_mod

length-hard_state_bytes : (hs : HardState) → length (hard_state_bytes hs) ≡ 24
unfolding hard_state_bytes
length-hard_state_bytes hs = omega (
  arith,
  length-append (to_le_bytes 8 hs.term) (to_le_bytes 8 hs.vote ++ to_le_bytes 8 hs.commit),
  length-append (to_le_bytes 8 hs.vote) (to_le_bytes 8 hs.commit),
  length-to_le_bytes 8 hs.term,
  length-to_le_bytes 8 hs.vote,
  length-to_le_bytes 8 hs.commit,
)

-- A hard state of 64-bit fields is read back from its 24 bytes.
pub deserialize_hard_state-serialize_hard_state :
    (hs : HardState) → IsWideHard hs → (serialize_hard_state hs >>= deserialize_hard_state) ≡ ok hs
unfolding serialize_hard_state deserialize_hard_state hard_state_bytes
deserialize_hard_state-serialize_hard_state hs w = ground (
  arith,
  length-hard_state_bytes hs,
  read_le-to_le_bytes 8 hs.term buf _ 0 w.term_u64 refl,
  read_le-to_le_bytes 8 hs.vote buf _ 8 w.vote_u64 at_vote,
  read_le-to_le_bytes 8 hs.commit buf [] 16 w.commit_u64 at_commit,
)
  where
    buf : Bytes
    buf = hard_state_bytes hs

    at_vote : drop 8 buf ≡ to_le_bytes 8 hs.vote ++ to_le_bytes 8 hs.commit
    at_vote = drop-next buf (to_le_bytes 8 hs.term) _ 0 8 (length-to_le_bytes 8 hs.term) refl

    at_commit : drop 16 buf ≡ to_le_bytes 8 hs.commit ++ []
    at_commit =
        drop-next buf (to_le_bytes 8 hs.vote) _ 8 8 (length-to_le_bytes 8 hs.vote) at_vote
        ∙ sym (append-nil _)

length-id_bytes : (ids : List ℕ) → length (id_bytes ids) ≡ 8 * length ids
unfolding id_bytes
length-id_bytes [] = refl
length-id_bytes (id ∷ ids) = omega (
  arith,
  length-append (to_le_bytes 8 id) (id_bytes ids),
  length-to_le_bytes 8 id,
  length-id_bytes ids,
)

read_ids-id_bytes :
    (what : String) (ids acc : List ℕ) (buf back : Bytes) (cursor : ℕ)
    → All (λ id. id < u64_mod) ids
    → drop cursor buf ≡ id_bytes ids ++ back
    → read_ids what buf (length ids) cursor acc ≡ ok (acc ++ ids, cursor + 8 * length ids)
unfolding id_bytes read_ids
read_ids-id_bytes what [] acc buf back cursor w here =
    ap₂ (λ xs n. ok (xs, n)) (sym (append-nil acc)) (omega arith)
read_ids-id_bytes what (id ∷ ids) acc buf back cursor w here =
    let here' = here ∙ append_assoc (to_le_bytes 8 id) (id_bytes ids) back in
    let inside = fits buf _ _ cursor 8 (length-to_le_bytes 8 id) here' (omega arith) in
    let there = drop-next buf _ _ cursor 8 (length-to_le_bytes 8 id) here' in
    rw
      (
        le→not_ltb (length buf) (cursor + 8) (omega arith),
        read_le-to_le_bytes 8 id buf _ cursor w.0 here',
      )
      (read_ids-id_bytes what ids (acc ++ (id ∷ [])) buf back (cursor + 8) w.1 there
        ∙ ap₂ (λ xs n. ok (xs, n)) (append_assoc acc (id ∷ []) ids) (omega arith))

-- One list of a configuration state: ids of 64 bits, and no more than a 32-bit length can count.
pub record IsWideList (ids : List ℕ) : Type 0 where
  pub ids_u64 : All (λ id. id < u64_mod) ids
  pub length_u32 : length ids < u32_mod

length-ids_bytes : (ids : List ℕ) → length (ids_bytes ids) ≡ 4 + 8 * length ids
unfolding ids_bytes
length-ids_bytes ids = omega (
  arith,
  length-append (to_le_bytes 4 (as_u32 (length ids))) (id_bytes ids),
  length-to_le_bytes 4 (as_u32 (length ids)),
  length-id_bytes ids,
)

read_id_list-ids_bytes :
    (no_length no_id : String) (ids : List ℕ) (buf back : Bytes) (cursor : ℕ)
    → IsWideList ids
    → drop cursor buf ≡ ids_bytes ids ++ back
    → read_id_list no_length no_id buf cursor ≡ ok (ids, cursor + (4 + 8 * length ids))
unfolding ids_bytes read_id_list
read_id_list-ids_bytes no_length no_id ids buf back cursor w here =
    let l4 = length-to_le_bytes 4 (as_u32 (length ids)) in
    let here' = here ∙ append_assoc (to_le_bytes 4 (as_u32 (length ids))) (id_bytes ids) back in
    let inside = fits buf _ _ cursor 4 l4 here' (omega arith) in
    let count : read_le 4 buf cursor ≡ length ids =
      read_le-to_le_bytes 4 _ buf _ cursor (omega arith) here' ∙ omega (arith, w.length_u32) in
    let there = drop-next buf _ _ cursor 4 l4 here' in
    rw (le→not_ltb (length buf) (cursor + 4) (omega arith), count)
      (read_ids-id_bytes no_id ids [] buf back (cursor + 4) w.ids_u64 there
        ∙ ap (λ n. ok (ids, n)) (omega arith))

-- All four lists fit.
pub record IsWideConf (cs : ConfState) : Type 0 where
  pub voters_wide : IsWideList cs.voters
  pub learners_wide : IsWideList cs.learners
  pub voters_outgoing_wide : IsWideList cs.voters_outgoing
  pub learners_next_wide : IsWideList cs.learners_next

conf_state_bytes-append :
    (cs : ConfState) (rest : Bytes)
    → conf_state_bytes cs ++ rest
      ≡ ids_bytes cs.voters
        ++ (ids_bytes cs.learners
            ++ (ids_bytes cs.voters_outgoing
                ++ (ids_bytes cs.learners_next ++ (flag_byte cs.auto_leave ∷ rest))))
unfolding conf_state_bytes
conf_state_bytes-append cs rest = simp append_assoc

-- Where each list starts in the bytes of a configuration state, and where its last byte stands.
module _ (cs : ConfState) where
  abbrev at_learners : ℕ
  at_learners = 0 + (4 + 8 * length cs.voters)

  abbrev at_outgoing : ℕ
  at_outgoing = at_learners + (4 + 8 * length cs.learners)

  abbrev at_next : ℕ
  at_next = at_outgoing + (4 + 8 * length cs.voters_outgoing)

  abbrev at_flag : ℕ
  at_flag = at_next + (4 + 8 * length cs.learners_next)

read_auto_leave_lem :
    (buf rest : Bytes) (cursor : ℕ) (flag : Bool)
    → drop cursor buf ≡ flag_byte flag ∷ rest
    → read_auto_leave buf cursor ≡ flag
read_auto_leave_lem buf rest cursor flag here =
    let inside = fits buf (flag_byte flag ∷ []) rest cursor 1 refl here (omega arith) in
    rw (lt→ltb cursor (length buf) (omega arith), get_or-drop cursor buf 0 here) (ground arith)

-- A configuration state whose lists fit their formats is read back, whatever follows its bytes.
pub deserialize_conf_state-serialize_conf_state :
    (cs : ConfState) (rest : Bytes)
    → IsWideConf cs
    → (serialize_conf_state cs >>= λ bytes. deserialize_conf_state (bytes ++ rest)) ≡ ok cs
unfolding serialize_conf_state deserialize_conf_state
deserialize_conf_state-serialize_conf_state cs rest w =
    let buf = conf_state_bytes cs ++ rest in
    let at1 = conf_state_bytes-append cs rest in
    let at2 = drop-next buf _ _ 0 _ (length-ids_bytes cs.voters) at1 in
    let at3 = drop-next buf _ _ (at_learners cs) _ (length-ids_bytes cs.learners) at2 in
    let at4 = drop-next buf _ _ (at_outgoing cs) _ (length-ids_bytes cs.voters_outgoing) at3 in
    let at5 = drop-next buf _ _ (at_next cs) _ (length-ids_bytes cs.learners_next) at4 in
    let long = fits buf (flag_byte cs.auto_leave ∷ []) rest (at_flag cs) 1 refl at5 (omega arith) in
    rw (
      le→not_ltb (length buf) 16 (omega arith),
      read_id_list-ids_bytes _ _ cs.voters buf _ 0 w.voters_wide at1,
      read_id_list-ids_bytes _ _ cs.learners buf _ (at_learners cs) w.learners_wide at2,
      read_id_list-ids_bytes _ _ cs.voters_outgoing buf _ (at_outgoing cs) w.voters_outgoing_wide
          at3,
      read_id_list-ids_bytes _ _ cs.learners_next buf _ (at_next cs) w.learners_next_wide at4,
      read_auto_leave_lem buf rest (at_flag cs) cs.auto_leave at5,
    )
