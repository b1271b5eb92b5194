-- ===== src/LockFree/Queue.antt =====
-- src/lock_free.rs: `LockFreeBoundedQueue`. crossbeam's `ArrayQueue` is a parameter, with what it documents: a queue of
-- positive capacity takes elements while there is room, and gives them back in order.
use iroh_raft.Common.{
  ℕ, ◌+◌, ◌%◌, ◌≤◌, ◌<◌, ◌≡◌, sym, ap, ◌∙◌, inl, inr, List, [], ◌∷◌, ◌++◌, append_assoc, length,
  length-append, Option, none, some, Outcome, ok, err, ltb, ltb→lt, not_ltb→le, Bool-cases,
  List-cases, Outcome-cases, arith,
}
use iroh_raft.Common.Bytes.{u64_mod}
use iroh_raft.Common.Maps.{some_injective}
use iroh_raft.LockFree.{LockFreeCounter, new, increment, get}

pub record ArrayQueue (T : Type 0) : Type 1 where
  pub Queue : Type 0
  pub queued : Queue → List T
  pub capacity : Queue → ℕ
  pub with_capacity : ℕ → Queue
  pub with_capacity_empty :
      (n : ℕ) → 0 < n → (queued (with_capacity n) ≡ []) × (capacity (with_capacity n) ≡ n)
  pub push : Queue → T → Outcome T Queue
  pub push_room :
      (q : Queue) (t : T)
      → length (queued q) < capacity q
      → (q' : Queue) × (push q t ≡ ok q')
        × (queued q' ≡ queued q ++ (t ∷ []))
        × (capacity q' ≡ capacity q)
  pub push_none : (q : Queue) (t : T) → capacity q ≤ length (queued q) → push q t ≡ err t
  pub pop : Queue → Option (T × Queue)
  pub pop_first :
      (q : Queue) (t : T) (ts : List T)
      → queued q ≡ t ∷ ts
      → (q' : Queue) × (pop q ≡ some (t, q')) × (queued q' ≡ ts) × (capacity q' ≡ capacity q)
  pub pop_none : (q : Queue) → queued q ≡ [] → pop q ≡ none

module _ {T : Type 0} (crossbeam : ArrayQueue T) where
  open crossbeam use {queued, capacity}

  pub record LockFreeBoundedQueue : Type 0 where
    pub queue : crossbeam.Queue
    pub push_count : LockFreeCounter
    pub pop_count : LockFreeCounter
    pub dropped_count : LockFreeCounter

  abbrev pub new_queue : ℕ → LockFreeBoundedQueue
  new_queue capacity = record {
    queue = crossbeam.with_capacity capacity;
    push_count = new;
    pop_count = new;
    dropped_count = new;
  }

  unfoldable pub try_push : LockFreeBoundedQueue → T → LockFreeBoundedQueue × Outcome T (Unit {0})
  try_push b item = elim (crossbeam.push b.queue item) [
    | ok q ↦ (record b { queue = q; push_count = increment b.push_count }, ok tt)
    | err back ↦ (record b { dropped_count = increment b.dropped_count }, err back)
  ]

  unfoldable pub pop_item : LockFreeBoundedQueue → LockFreeBoundedQueue × Option T
  pop_item b = elim (crossbeam.pop b.queue) [
    | some (item, q) ↦ (record b { queue = q; pop_count = increment b.pop_count }, some item)
    | none ↦ (b, none)
  ]

  pub record QueueMetrics : Type 0 where
    pub current_size : ℕ
    pub capacity : ℕ
    pub total_pushed : ℕ
    pub total_popped : ℕ
    pub total_dropped : ℕ

  unfoldable pub queue_metrics : LockFreeBoundedQueue → QueueMetrics
  queue_metrics b = record {
    current_size = length (queued b.queue);
    capacity = capacity b.queue;
    total_pushed = get b.push_count;
    total_popped = get b.pop_count;
    total_dropped = get b.dropped_count;
  }

  -- A queue after pushes, of which so many were refused, and pops: what was taken in, and given out.
  pub data Run (limit : ℕ) : LockFreeBoundedQueue → List T → List T → ℕ → Type 0 where
    fresh : Run limit (new_queue limit) [] [] 0
    pushed :
        {b : LockFreeBoundedQueue} {taken given : List T} {refused : ℕ} (item : T)
        → (try_push b item).1 ≡ ok tt
        → Run limit b taken given refused
        → Run limit (try_push b item).0 (taken ++ (item ∷ [])) given refused
    dropped :
        {b : LockFreeBoundedQueue} {taken given : List T} {refused : ℕ} (item back : T)
        → (try_push b item).1 ≡ err back
        → Run limit b taken given refused
        → Run limit (try_push b item).0 taken given (refused + 1)
    popped :
        {b : LockFreeBoundedQueue} {taken given : List T} {refused : ℕ} (item : T)
        → (pop_item b).1 ≡ some item
        → Run limit b taken given refused
        → Run limit (pop_item b).0 taken (given ++ (item ∷ [])) refused

  abbrev pub IsQueue : ℕ → LockFreeBoundedQueue → List T → List T → ℕ → Type 0
  IsQueue limit b taken given refused =
      (taken ≡ given ++ queued b.queue)
      × (length (queued b.queue) ≤ limit)
      × (capacity b.queue ≡ limit)
      × (get b.push_count ≡ length taken % u64_mod)
      × (get b.pop_count ≡ length given % u64_mod)
      × (get b.dropped_count ≡ refused % u64_mod)

  -- In a queue of positive capacity, whatever is pushed and popped, what was taken in is what was given out followed by
  -- what is in the queue, in order; there is never more in it than its capacity, and the three counts are those of
  -- the accepted pushes, the pops that gave an item, and the refused pushes, modulo 2 ^ 64.
  pub Run-IsQueue :
      (limit : ℕ) (b : LockFreeBoundedQueue) (taken given : List T) (refused : ℕ)
      → 0 < limit
      → Run limit b taken given refused
      → IsQueue limit b taken given refused
  unfolding try_push pop_item
  Run-IsQueue limit _ _ _ _ positive fresh =
      let (empty, size) = crossbeam.with_capacity_empty limit positive in
      (sym empty, rw empty (omega arith), size, omega arith, omega arith, omega arith)
  Run-IsQueue limit _ _ _ _ positive (pushed {b} {taken} {given} {refused} item accepted history) =
      let (order, fits, size, ins, outs, drops) =
        Run-IsQueue limit b taken given refused positive history in
      elim (Bool-cases (ltb (length (queued b.queue)) (capacity b.queue))) [
        | inr full ↦ absurd (
            let refusal = crossbeam.push_none b.queue item (not_ltb→le _ _ full) in
            let bad = rw (try_push, refusal) at accepted in cc)
        | inl room ↦
            let (q', done, there, kept) = crossbeam.push_room b.queue item (ltb→lt _ _ room) in
            rw (try_push, done)
              (
                ap (λ ts. ts ++ (item ∷ [])) order
                    ∙ append_assoc given (queued b.queue) (item ∷ [])
                    ∙ ap (λ ts. given ++ ts) (sym there),
                rw there (
                    omega
                      (arith, size, ltb→lt _ _ room, length-append (queued b.queue) (item ∷ []))),
                kept ∙ size,
                omega (arith, ins, length-append taken (item ∷ [])),
                outs,
                drops,
              )
      ]
  Run-IsQueue limit _ _ _ _ positive (dropped {b} {taken} {given} {refused} item back why history) =
      let (order, fits, size, ins, outs, drops) =
        Run-IsQueue limit b taken given refused positive history in
      elim (Outcome-cases (crossbeam.push b.queue item)) [
        | inl (q', done) ↦ absurd (let bad = rw (try_push, done) at why in cc)
        | inr (_, refusal) ↦
            rw (try_push, refusal) (order, fits, size, ins, outs, omega (arith, drops))
      ]
  Run-IsQueue limit _ _ _ _ positive (popped {b} {taken} {given} {refused} item got history) =
      let (order, fits, size, ins, outs, drops) =
        Run-IsQueue limit b taken given refused positive history in
      elim (List-cases (queued b.queue)) [
        | inl empty ↦ absurd (
            let nothing = crossbeam.pop_none b.queue empty in
            let bad = rw (pop_item, nothing) at got in cc)
        | inr (first, others, there) ↦
            let (q', done, left, kept) = crossbeam.pop_first b.queue first others there in
            let same : first ≡ item = some_injective (rw (pop_item, done) at got) in
            rw (pop_item, done)
              (
                order
                    ∙ ap (λ ts. given ++ ts)
                        (there ∙ ap (λ t. t ∷ others) same ∙ ap (◌∷◌ item) (sym left))
                    ∙ sym (append_assoc given (item ∷ []) (queued q')),
                rw left (omega (arith, fits, ap length there)),
                kept ∙ size,
                ins,
                omega (arith, outs, length-append given (item ∷ [])),
                drops,
              )
      ]
