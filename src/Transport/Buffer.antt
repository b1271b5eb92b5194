-- ===== src/Transport/Buffer.antt =====
-- buffer_message of src/transport/iroh.rs: the queue of messages that wait for a peer.
use iroh_raft.Common.{
  ℕ, zero, suc, Bool, List, [], ◌∷◌, ◌++◌, Option, none, some, length, take, drop, ltb,
  if◌then◌else◌,
}
use iroh_raft.Common.Equality.{nat_eq}
use iroh_raft.Common.Maps.{lookup, insert}
use iroh_raft.Raft.{RaftCrate}
use iroh_raft.Transport.{RaftMessagePriority, as_u8, BufferedRaftMessage}

abbrev pub max_buffered : ℕ
max_buffered = 1000

module _ {A : Type 0} where
  -- `Iterator::position`.
  unfoldable pub position : (A → Bool) → List A → Option ℕ
  position test [] = none
  position test (x ∷ xs) =
      if test x then some 0 else elim (position test xs) [ none ↦ none | some i ↦ some (suc i) ]

  -- `VecDeque::insert`, at an index in range.
  unfoldable pub insert_at : ℕ → A → List A → List A
  insert_at i x xs = take i xs ++ (x ∷ drop i xs)

  unfoldable pub pop_back : List A → List A
  pop_back [] = []
  pop_back (x ∷ []) = []
  pop_back (x ∷ y ∷ xs) = x ∷ pop_back (y ∷ xs)

  -- `while queue.len() > limit`; the first argument bounds the rounds.
  unfoldable pub pop_back_above : ℕ → ℕ → List A → List A
  unfolding pop_back
  pop_back_above zero limit xs = xs
  pop_back_above (suc rounds) limit xs =
      let popped = pop_back_above rounds limit (pop_back xs) in
      if ltb limit (length xs) then popped else xs

module _ (raft : RaftCrate) where
  abbrev pub Queue : Type 0
  Queue = List (BufferedRaftMessage raft)

  -- The position before which a message of this priority is inserted.
  unfoldable pub insert_pos : RaftMessagePriority → Queue → ℕ
  unfolding position as_u8
  insert_pos priority queue = elim (position (λ m. ltb (as_u8 priority) (as_u8 m.priority)) queue) [
    | some i ↦ i
    | none ↦ length queue
  ]

  unfoldable pub insert_buffered : BufferedRaftMessage raft → Queue → Queue
  unfolding insert_pos insert_at
  insert_buffered buffered queue = insert_at (insert_pos buffered.priority queue) buffered queue

  unfoldable pub buffer_in : BufferedRaftMessage raft → Queue → Queue
  unfolding insert_buffered pop_back_above
  buffer_in buffered queue =
      let longer = insert_buffered buffered queue in
      pop_back_above (length longer) max_buffered longer

  abbrev pub or_empty : Option Queue → Queue
  or_empty none = []
  or_empty (some queue) = queue

  -- The queue of a peer, as `or_insert_with` finds or makes it.
  abbrev pub queue_of : ℕ → List (ℕ × Queue) → Queue
  queue_of to buffer = or_empty (lookup to buffer)

  unfoldable pub buffer_message :
      ℕ → ℕ → raft.Message → RaftMessagePriority → List (ℕ × Queue) → List (ℕ × Queue)
  unfolding buffer_in insert
  buffer_message now to message priority buffer =
      let buffered : BufferedRaftMessage raft = record {
        message = message;
        priority = priority;
        timestamp = now;
      } in
      insert to (buffer_in buffered (queue_of to buffer)) buffer
