-- ===== src/Backpressure/Reference.antt =====
-- A channel as the list of its messages and a semaphore as a number: what `Tokio` asks for can be had.
use iroh_raft.Common.{
  ℕ, zero, suc, arith, ◌+◌, ◌≤◌, ◌<◌, ◌≡◌, refl, Bool, true, ltb, if◌then◌else◌, List, [], ◌∷◌,
  ◌++◌, length, Outcome, ok, err,
}
use iroh_raft.Backpressure.Runtime.{
  Tokio, TrySendError, full, closed, TryRecvError, empty, AcquireError, no_permits,
}

pub record ListChannel (M : Type 0) : Type 0 where
  pub messages : List M
  pub places : ℕ
  pub is_open : Bool

module _ {M : Type 0} where
  unfoldable pub push : ListChannel M → M → Outcome TrySendError (ListChannel M)
  push c m =
      if c.is_open
      then (if ltb (length c.messages) c.places
          then ok (record c { messages = c.messages ++ (m ∷ []) })
          else err full)
      else err closed

  unfoldable pub pop : ListChannel M → Outcome TryRecvError (M × ListChannel M)
  pop c = elim c.messages [ [] ↦ err empty | m ∷ ms ↦ ok (m, record c { messages = ms }) ]

  pub push_room :
      (c : ListChannel M) (m : M)
      → c.is_open ≡ true
      → length c.messages < c.places
      → push c m ≡ ok (record c { messages = c.messages ++ (m ∷ []) })
  unfolding push
  push_room c m open_end room = ground (arith, open_end, room)

  pub push_full :
      (c : ListChannel M) (m : M)
      → c.is_open ≡ true
      → c.places ≤ length c.messages
      → push c m ≡ err full
  unfolding push
  push_full c m open_end room = ground (arith, open_end, room)

  pub pop_some :
      (c : ListChannel M) (m : M) (ms : List M)
      → c.messages ≡ m ∷ ms
      → pop c ≡ ok (m, record c { messages = ms })
  unfolding pop
  pop_some c m ms there = rw there refl

  pub pop_none : (c : ListChannel M) → c.messages ≡ [] → pop c ≡ err empty
  unfolding pop
  pop_none c nothing = rw nothing refl

abbrev pub acquire : ℕ → Outcome AcquireError ℕ
acquire zero = err no_permits
acquire (suc n) = ok n

pub acquire_some : (n : ℕ) → 0 < n → (s : ℕ) × (acquire n ≡ ok s) × (s + 1 ≡ n)
acquire_some zero h = absurd (omega (arith, h))
acquire_some (suc n) h = (n, refl, omega arith)

pub acquire_none : (n : ℕ) → n ≡ 0 → (why : AcquireError) × (acquire n ≡ err why)
acquire_none zero h = (no_permits, refl)
acquire_none (suc n) h = absurd (omega (arith, h))

abbrev pub on_lists : {M : Type 0} → Tokio M
on_lists {M} = record {
  Channel = ListChannel M;
  queued = λ (c : _). c.messages;
  capacity = λ (c : _). c.places;
  has_receiver = λ (c : _). c.is_open;
  channel = λ (n : _). record { messages = []; places = n; is_open = true };
  channel_new = λ (n : _) (h : _). (refl, refl, refl);
  try_send = push;
  try_send_room = λ (c : _) (m : _) (h : _) (r : _).
      (record c { messages = c.messages ++ (m ∷ []) }, push_room c m h r, refl, refl, h);
  try_send_full = push_full;
  try_recv = pop;
  try_recv_some = λ (c : _) (m : _) (ms : _) (h : _).
      (record c { messages = ms }, pop_some c m ms h, refl, refl, refl);
  try_recv_none = λ (c : _) (h : _). (empty, pop_none c h);
  Semaphore = ℕ;
  permits = λ (n : _). n;
  semaphore = λ (n : _). n;
  permits-semaphore = λ (n : _). refl;
  try_acquire = acquire;
  try_acquire_some = acquire_some;
  try_acquire_none = acquire_none;
  add_permits = ◌+◌;
  permits-add_permits = λ (s : _) (n : _). refl;
}
