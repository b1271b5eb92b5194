-- ===== src/Transport/Sorting.antt =====
-- What the queues of buffer_message in src/transport/iroh.rs hold, after whatever has been buffered.
use iroh_raft.Common.{
  ℕ, ◌≤◌, ◌<◌, ◌≡◌, refl, ap, ◌∙◌, inl, inr, List, [], ◌∷◌, ◌++◌, append_assoc, append-nil, All,
  length, take, ◌==◌, if◌then◌else◌, Bool-cases, arith, ==→eq,
}
use iroh_raft.Common.Equality.{nat_eq}
use iroh_raft.Common.Maps.{lookup, lookup-insert}
use iroh_raft.Raft.{RaftCrate}
use iroh_raft.Transport.{
  RaftMessagePriority, election, heartbeat, log_append, snapshot, as_u8, BufferedRaftMessage,
}
use iroh_raft.Transport.Buffer.{
  max_buffered, Queue, insert_pos, insert_buffered, buffer_in, or_empty, queue_of, buffer_message,
}
use iroh_raft.Transport.Stable.{
  All-le, All-lt-append, insert_stable-last, insert_stable-between, insert_stable, insert_at-stable,
  insert_stable-behind, take-insert_stable, pop_back_above-take,
}

module _ (raft : RaftCrate) where
  -- A call of `buffer_message`.
  pub record Arrival : Type 0 where
    pub time : ℕ
    pub peer : ℕ
    pub message : raft.Message
    pub priority : RaftMessagePriority

  abbrev pub buffered_of : Arrival → BufferedRaftMessage raft
  buffered_of a = record { message = a.message; priority = a.priority; timestamp = a.time }

  -- The calls one after the other.
  unfoldable pub buffer_all : List Arrival → List (ℕ × Queue raft) → List (ℕ × Queue raft)
  buffer_all [] buffer = buffer
  buffer_all (a ∷ calls) buffer =
      buffer_all calls (buffer_message raft a.time a.peer a.message a.priority buffer)

  -- What was buffered for one peer, in the order of the calls.
  unfoldable pub addressed : ℕ → List Arrival → Queue raft
  addressed to [] = []
  addressed to (a ∷ calls) =
      let rest = addressed to calls in if a.peer == to then buffered_of a ∷ rest else rest

  unfoldable pub of_priority : ℕ → Queue raft → Queue raft
  of_priority p [] = []
  of_priority p (m ∷ ms) =
      let rest = of_priority p ms in if as_u8 m.priority == p then m ∷ rest else rest

  -- Election messages first, then heartbeats, appends and snapshots, each class in its order.
  unfoldable pub by_priority : Queue raft → Queue raft
  unfolding of_priority
  by_priority ms = of_priority 0 ms ++ (of_priority 1 ms ++ (of_priority 2 ms ++ of_priority 3 ms))

  abbrev pub key : BufferedRaftMessage raft → ℕ
  key m = as_u8 m.priority

  insert_buffered-stable :
      (m : BufferedRaftMessage raft) (q : Queue raft)
      → insert_buffered raft m q ≡ insert_stable key m q
  unfolding insert_buffered insert_pos
  insert_buffered-stable m q = insert_at-stable key m q

  pub buffer_in-take :
      (m : BufferedRaftMessage raft) (q : Queue raft)
      → buffer_in raft m q ≡ take max_buffered (insert_stable key m q)
  unfolding buffer_in
  buffer_in-take m q =
      let longer = insert_buffered raft m q in
      pop_back_above-take (length longer) max_buffered longer (omega arith)
      ∙ ap (take max_buffered) (insert_buffered-stable m q)

  of_priority-last :
      (p : ℕ) (ms : Queue raft) (m : BufferedRaftMessage raft)
      → of_priority p (ms ++ (m ∷ []))
        ≡ (if as_u8 m.priority == p then of_priority p ms ++ (m ∷ []) else of_priority p ms)
  unfolding of_priority
  of_priority-last p [] m = refl
  of_priority-last p (x ∷ ms) m = elim (Bool-cases (as_u8 x.priority == p)) [
    | inl same ↦ elim (Bool-cases (as_u8 m.priority == p)) [
      | inl b ↦ rw same (rw b (ap (◌∷◌ x) (rw b at (of_priority-last p ms m))))
      | inr b ↦ rw same (rw b (ap (◌∷◌ x) (rw b at (of_priority-last p ms m))))
    ]
    | inr other ↦ rw other (of_priority-last p ms m)
  ]

  of_priority-All : (p : ℕ) (ms : Queue raft) → All (λ m. key m ≡ p) (of_priority p ms)
  unfolding of_priority
  of_priority-All p [] = tt
  of_priority-All p (m ∷ ms) = elim (Bool-cases (as_u8 m.priority == p)) [
    | inl same ↦ rw same (==→eq (as_u8 m.priority) p same, of_priority-All p ms)
    | inr other ↦ rw other (of_priority-All p ms)
  ]

  module _ (m : BufferedRaftMessage raft) (ms : Queue raft) where
    not_after : (p : ℕ) → p ≤ key m → All (λ y. key y ≤ key m) (of_priority p ms)
    not_after p k = All-le key (key m) p (of_priority p ms) (of_priority-All p ms) k

    after :
        (p : ℕ) (ys : Queue raft)
        → key m < p
        → All (λ y. key m < key y) ys
        → All (λ y. key m < key y) (of_priority p ms ++ ys)
    after p ys k rest =
        All-lt-append key (key m) p (of_priority p ms) ys (of_priority-All p ms) k rest

    after_last : (p : ℕ) → key m < p → All (λ y. key m < key y) (of_priority p ms)
    after_last p k = rw append-nil at (after p [] k tt)

    skip :
        (p : ℕ) (ys zs : Queue raft)
        → p ≤ key m
        → insert_stable key m ys ≡ zs
        → insert_stable key m (of_priority p ms ++ ys) ≡ of_priority p ms ++ zs
    skip p ys zs k inserted =
        insert_stable-behind key m (of_priority p ms) ys (not_after p k)
        ∙ ap (λ rest. of_priority p ms ++ rest) inserted

    here :
        (p : ℕ) (ys : Queue raft)
        → p ≤ key m
        → All (λ y. key m < key y) ys
        → insert_stable key m (of_priority p ms ++ ys) ≡ (of_priority p ms ++ (m ∷ [])) ++ ys
    here p ys k rest = insert_stable-between key m (of_priority p ms) ys (not_after p k) rest

    of_last :
        (p : RaftMessagePriority) (k : ℕ)
        → m.priority ≡ p
        → of_priority k (ms ++ (m ∷ []))
          ≡ (if as_u8 p == k then of_priority k ms ++ (m ∷ []) else of_priority k ms)
    of_last p k same =
        of_priority-last k ms m
        ∙ ap (λ r. if as_u8 r == k then of_priority k ms ++ (m ∷ []) else of_priority k ms) same

    inserted_by_priority :
        (p : RaftMessagePriority)
        → m.priority ≡ p
        → insert_stable key m (by_priority ms) ≡ by_priority (ms ++ (m ∷ []))
    unfolding by_priority as_u8
    inserted_by_priority election same =
        let place : key m ≡ 0 = ap as_u8 same in
        let s_later = after_last 3 (omega (arith, place)) in
        let l_later = after 2 (of_priority 3 ms) (omega (arith, place)) s_later in
        let h_later =
          after 1 (of_priority 2 ms ++ of_priority 3 ms) (omega (arith, place)) l_later in
        rw
          (
            of_last election 0 same,
            of_last election 1 same,
            of_last election 2 same,
            of_last election 3 same,
          )
          (here 0 (of_priority 1 ms ++ (of_priority 2 ms ++ of_priority 3 ms))
            (omega (arith, place)) h_later)
    inserted_by_priority heartbeat same =
        let place : key m ≡ 1 = ap as_u8 same in
        let s_later = after_last 3 (omega (arith, place)) in
        let l_later = after 2 (of_priority 3 ms) (omega (arith, place)) s_later in
        rw
          (
            of_last heartbeat 0 same,
            of_last heartbeat 1 same,
            of_last heartbeat 2 same,
            of_last heartbeat 3 same,
          )
          (skip 0 _ _ (omega (arith, place))
            (here 1 (of_priority 2 ms ++ of_priority 3 ms) (omega (arith, place)) l_later))
    inserted_by_priority log_append same =
        let place : key m ≡ 2 = ap as_u8 same in
        let s_later = after_last 3 (omega (arith, place)) in
        rw
          (
            of_last log_append 0 same,
            of_last log_append 1 same,
            of_last log_append 2 same,
            of_last log_append 3 same,
          )
          (skip 0 _ _ (omega (arith, place)) (
            skip 1 _ _ (omega (arith, place))
              (here 2 (of_priority 3 ms) (omega (arith, place)) s_later)))
    inserted_by_priority snapshot same =
        let place : key m ≡ 3 = ap as_u8 same in
        rw
          (
            of_last snapshot 0 same,
            of_last snapshot 1 same,
            of_last snapshot 2 same,
            of_last snapshot 3 same,
          )
          (skip 0 _ _ (omega (arith, place)) (
            skip 1 _ _ (omega (arith, place)) (
              skip 2 _ _ (omega (arith, place)) (
                insert_stable-last key m (of_priority 3 ms) (not_after 3 (omega (arith, place)))))))

  pub queue_of-buffer_message :
      (a : Arrival) (to : ℕ) (buffer : List (ℕ × Queue raft))
      → queue_of raft to (buffer_message raft a.time a.peer a.message a.priority buffer) ≡ (
          if a.peer == to
          then buffer_in raft (buffered_of a) (queue_of raft to buffer)
          else queue_of raft to buffer)
  unfolding buffer_message
  queue_of-buffer_message a to buffer =
      let found =
        lookup-insert a.peer to (buffer_in raft (buffered_of a) (queue_of raft a.peer buffer))
          buffer in
      elim (Bool-cases (a.peer == to)) [
        | inl same ↦ rw same (
            ap (or_empty raft) (rw same at found)
            ∙ ap (λ p. buffer_in raft (buffered_of a) (queue_of raft p buffer))
                (==→eq a.peer to same))
        | inr other ↦ rw other (ap (or_empty raft) (rw other at found))
      ]

  buffer_in-by_priority :
      (m : BufferedRaftMessage raft) (ms q : Queue raft)
      → q ≡ take max_buffered (by_priority ms)
      → buffer_in raft m q ≡ take max_buffered (by_priority (ms ++ (m ∷ [])))
  buffer_in-by_priority m ms q h =
      buffer_in-take m q
      ∙ ap (λ r. take max_buffered (insert_stable key m r)) h
      ∙ take-insert_stable key max_buffered m (by_priority ms)
      ∙ ap (take max_buffered) (inserted_by_priority m ms m.priority refl)

  buffered_from :
      (to : ℕ) (calls : List Arrival) (buffer : List (ℕ × Queue raft)) (ms : Queue raft)
      → queue_of raft to buffer ≡ take max_buffered (by_priority ms)
      → queue_of raft to (buffer_all calls buffer)
        ≡ take max_buffered (by_priority (ms ++ addressed to calls))
  unfolding buffer_all addressed
  buffered_from to [] buffer ms h = rw append-nil h
  buffered_from to (a ∷ calls) buffer ms h =
      let next = buffer_message raft a.time a.peer a.message a.priority buffer in
      let step = queue_of-buffer_message a to buffer in
      elim (Bool-cases (a.peer == to)) [
        | inl same ↦
            let more = buffered_from to calls next (ms ++ (buffered_of a ∷ [])) (
              (rw same at step)
              ∙ buffer_in-by_priority (buffered_of a) ms (queue_of raft to buffer) h) in
            rw same (
              more
              ∙ ap (λ r. take max_buffered (by_priority r))
                  (append_assoc ms (buffered_of a ∷ []) (addressed to calls)))
        | inr other ↦ rw other (buffered_from to calls next ms ((rw other at step) ∙ h))
      ]

  -- After any calls that buffer messages, none of them sent, the queue of a peer holds the first
  -- 1000 of what was buffered for the peer, sorted by priority: election messages, heartbeats,
  -- appends and snapshots, and within a priority the order of the calls.
  pub buffer_all_sorted :
      (to : ℕ) (calls : List Arrival)
      → queue_of raft to (buffer_all calls [])
        ≡ take max_buffered (by_priority (addressed to calls))
  unfolding by_priority of_priority lookup
  buffer_all_sorted to calls = buffered_from to calls [] [] refl
