-- ===== src/Transport/Accounts.antt =====
-- What becomes of every message of a queue that process_message_batches of src/transport/iroh.rs sends out.
use Prim.Native.String.{String}
use iroh_raft.Common.{
  ℕ, suc, ◌+◌, ◌≤◌, ◌<◌, ◌≡◌, refl, ap, ◌⊎◌, inl, inr, true, false, List, [], ◌∷◌, ◌++◌, length,
  arith, Bool-cases, ok, err, Outcome-cases, leb, leb→le, not_leb→lt,
}
use iroh_raft.Error.{RaftError}
use iroh_raft.Raft.{RaftCrate}
use iroh_raft.Protocol.{Wire}
use iroh_raft.Protocol.Rpc.{RpcCodec}
use iroh_raft.Transport.{BufferedRaftMessage}
use iroh_raft.Transport.Buffer.{Queue}
use iroh_raft.Transport.Sending.{send_single_message, count_one}
use iroh_raft.Transport.Batches.{Round, is_old, send_loop, batch_limit, Sent}

module _ (wire : Wire) (codec : RpcCodec) (raft : RaftCrate)
    (rounds : ℕ → Round wire codec raft) where
  -- From a round on, these messages were taken from the queue, and those of them were sent: the
  -- others were more than thirty seconds old.
  pub data Taken : ℕ → Queue raft → Queue raft → Type 0 where
    none_taken : {i : ℕ} → Taken i [] []
    skipped :
        {i : ℕ} {m : BufferedRaftMessage raft} {ms sent : Queue raft}
        → is_old wire codec raft (rounds i) m ≡ true
        → Taken (suc i) ms sent
        → Taken i (m ∷ ms) sent
    passed :
        {i : ℕ} {m : BufferedRaftMessage raft} {ms sent : Queue raft} (w : wire.Writer)
        → is_old wire codec raft (rounds i) m ≡ false
        → send_single_message wire codec raft (rounds i).stream m.message ≡ ok w
        → Taken (suc i) ms sent
        → Taken i (m ∷ ms) (m ∷ sent)

  -- Why the loop ends in this round, with so many messages sent, before what is left of the queue.
  abbrev pub Ended : ℕ → ℕ → Queue raft → Type 0
  Ended i sent_count [] = Unit {0}
  Ended i sent_count (m ∷ ms) =
      (batch_limit ≤ sent_count)
      ⊎ ((is_old wire codec raft (rounds i) m ≡ false)
          × ((why : RaftError) × (send_single_message wire codec raft (rounds i).stream m.message
                ≡ err why)))

  -- The account of one run of the loop.
  abbrev pub IsAccount : ℕ → ℕ → Queue raft → Sent wire codec raft → Type 0
  IsAccount i sent_count ms result =
      (taken : Queue raft) × (ms ≡ taken ++ result.remaining)
      × Taken i taken result.sent
      × (sent_count + length result.sent ≤ batch_limit)
      × Ended (i + length taken) (sent_count + length result.sent) result.remaining

  Ended-full : (i n : ℕ) (ms : Queue raft) → batch_limit ≤ n → Ended i n ms
  Ended-full i n [] h = tt
  Ended-full i n (m ∷ ms) h = inl h

  Ended-at : (i n : ℕ) {j k : ℕ} → i ≡ j → n ≡ k → (ms : Queue raft) → Ended i n ms → Ended j k ms
  Ended-at i n h k ms end = rw⁻¹ h (rw⁻¹ k end)

  pub send_loop-IsAccount :
      (i sent_count : ℕ) (ms : Queue raft) (counts : List (String × ℕ))
      → sent_count < batch_limit
      → IsAccount i sent_count ms (send_loop wire codec raft rounds i sent_count ms counts)
  unfolding send_loop
  send_loop-IsAccount i sent_count [] counts h = ([], refl, none_taken, omega arith, tt)
  send_loop-IsAccount i sent_count (m ∷ ms) counts h =
      elim (Bool-cases (is_old wire codec raft (rounds i) m)) [
        | inl old ↦
            let (taken, split, story, few, end) =
              send_loop-IsAccount (suc i) sent_count ms counts h in
            rw old (
              m ∷ taken,
              ap (◌∷◌ m) split,
              skipped old story,
              few,
              Ended-at _ _ (omega arith) refl _ end,
            )
        | inr young ↦
            elim (Outcome-cases (send_single_message wire codec raft (rounds i).stream m.message)) [
              | inr (why, failed) ↦
                  rw (young, failed)
                    (
                      [],
                      refl,
                      none_taken,
                      omega arith,
                      Ended-at i sent_count (omega arith) (omega arith) (m ∷ ms)
                          (inr (young, (why, failed))),
                    )
              | inl (w, sent) ↦ elim (Bool-cases (leb batch_limit (suc sent_count))) [
                | inl full ↦
                    let reached = leb→le batch_limit (suc sent_count) full in
                    rw (young, sent, full)
                      (
                        m ∷ [],
                        refl,
                        passed w young sent none_taken,
                        omega arith,
                        Ended-full _ _ ms (omega arith),
                      )
                | inr room ↦
                    let counted = count_one (raft.show_type (raft.msg_type m.message)) counts in
                    let (taken, split, story, few, end) =
                      send_loop-IsAccount (suc i) (suc sent_count) ms counted
                        (not_leb→lt batch_limit (suc sent_count) room) in
                    rw (young, sent, room)
                      (
                        m ∷ taken,
                        ap (◌∷◌ m) split,
                        passed w young sent story,
                        omega arith,
                        Ended-at _ _ (omega arith) (omega arith) _ end,
                      )
              ]
            ]
      ]
