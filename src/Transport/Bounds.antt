-- ===== src/Transport/Bounds.antt =====
-- The queues of src/transport/iroh.rs, under buffer_message and process_message_batches in any order.
use Prim.Native.String.{String}
use iroh_raft.Common.{
  ℕ, zero, suc, ◌≤◌, ◌≡◌, sym, subst, inl, inr, List, [], ◌∷◌, ◌++◌, All, take, length, arith, ltb,
  Bool-cases, Option-cases, Outcome-cases, ltb→lt, not_ltb→le, length-append,
}
use iroh_raft.Common.Equality.{nat_eq}
use iroh_raft.Common.Maps.{lookup, AllPairs, AllPairs-insert, AllPairs-lookup}
use iroh_raft.Raft.{RaftCrate}
use iroh_raft.Protocol.{Wire}
use iroh_raft.Protocol.Rpc.{RpcCodec}
use iroh_raft.Transport.{RaftMessagePriority, BufferedRaftMessage}
use iroh_raft.Transport.Buffer.{max_buffered, Queue, buffer_in, queue_of, buffer_message}
use iroh_raft.Transport.Stable.{insert_stable, length-take_le}
use iroh_raft.Transport.Sorting.{key, buffer_in-take}
use iroh_raft.Transport.Shared.{Iroh, SharedNodeState}
use iroh_raft.Transport.Connections.{Connections}
use iroh_raft.Transport.Batches.{
  Outlook, batch_connection, send_loop, process_peer, process_message_batches,
}
use iroh_raft.Transport.Accounts.{send_loop-IsAccount}

-- Lists whose keys do not fall.
module _ {A : Type 0} (key : A → ℕ) where
  abbrev pub IsSorted : List A → Type 0
  IsSorted [] = Unit {0}
  IsSorted (x ∷ xs) = All (λ y. key x ≤ key y) xs × IsSorted xs

  All-insert_stable :
      (n : ℕ) (x : A) (xs : List A)
      → n ≤ key x
      → All (λ y. n ≤ key y) xs
      → All (λ y. n ≤ key y) (insert_stable key x xs)
  unfolding insert_stable
  All-insert_stable n x [] h k = (h, tt)
  All-insert_stable n x (y ∷ ys) h k = elim (Bool-cases (ltb (key x) (key y))) [
    | inl less ↦ rw less (h, k)
    | inr more ↦ rw more (k.0, All-insert_stable n x ys h k.1)
  ]

  All-le_trans : (m n : ℕ) (xs : List A) → m ≤ n → All (λ y. n ≤ key y) xs → All (λ y. m ≤ key y) xs
  All-le_trans m n [] h k = tt
  All-le_trans m n (x ∷ xs) h k = (omega (arith, h, k.0), All-le_trans m n xs h k.1)

  pub insert_stable-IsSorted :
      (x : A) (xs : List A) → IsSorted xs → IsSorted (insert_stable key x xs)
  unfolding insert_stable
  insert_stable-IsSorted x [] h = (tt, tt)
  insert_stable-IsSorted x (y ∷ ys) h = elim (Bool-cases (ltb (key x) (key y))) [
    | inl less ↦
        let lt = ltb→lt (key x) (key y) less in
        rw less ((omega arith, All-le_trans (key x) (key y) ys (omega arith) h.0), h)
    | inr more ↦ rw more (
      All-insert_stable (key y) x ys (not_ltb→le (key x) (key y) more) h.0,
      insert_stable-IsSorted x ys h.1,
    )
  ]

  All-take : (n m : ℕ) (xs : List A) → All (λ y. m ≤ key y) xs → All (λ y. m ≤ key y) (take n xs)
  All-take zero m xs h = tt
  All-take (suc n) m [] h = tt
  All-take (suc n) m (x ∷ xs) h = (h.0, All-take n m xs h.1)

  pub take-IsSorted : (n : ℕ) (xs : List A) → IsSorted xs → IsSorted (take n xs)
  take-IsSorted zero xs h = tt
  take-IsSorted (suc n) [] h = tt
  take-IsSorted (suc n) (x ∷ xs) h = (All-take n (key x) xs h.0, take-IsSorted n xs h.1)

  pub suffix-IsSorted : (xs ys : List A) → IsSorted (xs ++ ys) → IsSorted ys
  suffix-IsSorted [] ys h = h
  suffix-IsSorted (x ∷ xs) ys h = suffix-IsSorted xs ys h.1

module _ (wire : Wire) (codec : RpcCodec) (raft : RaftCrate) (iroh : Iroh) where
  -- A queue that is sorted by priority and not too long.
  abbrev pub IsBounded : Queue raft → Type 0
  IsBounded q = IsSorted (key raft) q × (length q ≤ max_buffered)

  buffer_in-IsBounded :
      (m : BufferedRaftMessage raft) (q : Queue raft) → IsBounded q → IsBounded (buffer_in raft m q)
  buffer_in-IsBounded m q h =
      let longer = insert_stable (key raft) m q in
      subst IsBounded (sym (buffer_in-take raft m q)) (
        take-IsSorted (key raft) max_buffered longer (insert_stable-IsSorted (key raft) m q h.0),
        length-take_le max_buffered longer,
      )

  suffix-IsBounded : (xs ys q : Queue raft) → q ≡ xs ++ ys → IsBounded q → IsBounded ys
  suffix-IsBounded xs ys q split h =
      let (sorted, short) = subst IsBounded split h in
      (suffix-IsSorted (key raft) xs ys sorted, omega (arith, short, length-append xs ys))

  process_peer-IsBounded :
      (outlook : Outlook wire codec raft iroh) (node : SharedNodeState iroh)
      (connections : Connections iroh) (peer_id : ℕ) (q : Queue raft) (counts : List (String × ℕ))
      → IsBounded q
      → IsBounded
          (process_peer wire codec raft iroh outlook node connections peer_id q counts).remaining
  unfolding process_peer
  process_peer-IsBounded outlook node connections peer_id [] counts h = h
  process_peer-IsBounded outlook node connections peer_id (m ∷ ms) counts h =
      elim (Outcome-cases
        (batch_connection wire codec raft iroh outlook node connections peer_id)) [
          | inr (_, missing) ↦ rw (process_peer, missing) h
          | inl (connection, found) ↦
              let rounds = outlook.rounds connection in
              let (taken, split, _, _, _) =
                send_loop-IsAccount wire codec raft rounds 0 0 (m ∷ ms) counts (omega arith) in
              let result = send_loop wire codec raft rounds 0 0 (m ∷ ms) counts in
              rw (process_peer, found) (suffix-IsBounded taken result.remaining (m ∷ ms) split h)
        ]

  process_message_batches-AllBounded :
      (outlooks : ℕ → Outlook wire codec raft iroh) (node : SharedNodeState iroh)
      (connections : Connections iroh) (buffer : List (ℕ × Queue raft)) (counts : List (String × ℕ))
      → AllPairs (λ _ q. IsBounded q) buffer
      → AllPairs
          (λ _ q. IsBounded q)
          (process_message_batches wire codec raft iroh outlooks node connections buffer counts).0
  unfolding process_message_batches
  process_message_batches-AllBounded outlooks node connections [] counts h = tt
  process_message_batches-AllBounded outlooks node connections ((p, q) ∷ rest) counts h =
      let done = process_peer wire codec raft iroh (outlooks p) node connections p q counts in
      (
        process_peer-IsBounded (outlooks p) node connections p q counts h.0,
        process_message_batches-AllBounded outlooks node connections rest done.messages_sent h.1,
      )

  queue_of-IsBounded :
      (to : ℕ) (buffer : List (ℕ × Queue raft))
      → AllPairs (λ _ q. IsBounded q) buffer
      → IsBounded (queue_of raft to buffer)
  queue_of-IsBounded to buffer h = elim (Option-cases (lookup to buffer)) [
    | inl nothing ↦ rw nothing (tt, omega arith)
    | inr (q, here) ↦ rw here (AllPairs-lookup (λ _ q. IsBounded q) to q buffer h here)
  ]

  -- The buffers that calls of `buffer_message` and rounds of `process_message_batches` lead to.
  pub data Buffered : List (ℕ × Queue raft) → Type 0 where
    started : Buffered []
    buffering :
        {buffer : List (ℕ × Queue raft)} (now to : ℕ) (message : raft.Message)
        (priority : RaftMessagePriority)
        → Buffered buffer
        → Buffered (buffer_message raft now to message priority buffer)
    processing :
        {buffer : List (ℕ × Queue raft)} (outlooks : ℕ → Outlook wire codec raft iroh)
        (node : SharedNodeState iroh) (connections : Connections iroh) (counts : List (String × ℕ))
        → Buffered buffer
        → Buffered
            (process_message_batches wire codec raft iroh outlooks node connections buffer counts).0

  -- Whatever has been buffered and sent out, in whatever order, every queue is sorted by priority
  -- and holds at most 1000 messages.
  pub Buffered-AllBounded :
      (buffer : List (ℕ × Queue raft)) → Buffered buffer → AllPairs (λ _ q. IsBounded q) buffer
  unfolding buffer_message
  Buffered-AllBounded _ started = tt
  Buffered-AllBounded _ (buffering {buffer} now to message priority history) =
      let before = Buffered-AllBounded buffer history in
      let m : BufferedRaftMessage raft = record {
        message = message;
        priority = priority;
        timestamp = now;
      } in
      AllPairs-insert (λ _ q. IsBounded q) to (buffer_in raft m (queue_of raft to buffer)) buffer
        before
        (buffer_in-IsBounded m (queue_of raft to buffer) (queue_of-IsBounded to buffer before))
  Buffered-AllBounded _ (processing {buffer} outlooks node connections counts history) =
      process_message_batches-AllBounded outlooks node connections buffer counts
        (Buffered-AllBounded buffer history)
