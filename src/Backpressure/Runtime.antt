-- ===== src/Backpressure/Runtime.antt =====
-- Tokio's bounded channel and semaphore, with what their documentation says.
use iroh_raft.Common.{
  ℕ, ◌+◌, ◌≤◌, ◌<◌, ◌≡◌, Bool, true, List, [], ◌∷◌, ◌++◌, length, Outcome, ok, err,
}

pub data TrySendError : Type 0 where
  full closed : TrySendError

pub data TryRecvError : Type 0 where
  empty disconnected : TryRecvError

pub data AcquireError : Type 0 where
  no_permits semaphore_closed : AcquireError

-- `has_receiver` says that the receiver has not gone. A channel of capacity 0 is refused by tokio. Its limit
-- on permits, above 2 ^ 60, where it panics, is left out.
pub record Tokio (M : Type 0) : Type 1 where
  pub Channel : Type 0
  pub queued : Channel → List M
  pub capacity : Channel → ℕ
  pub has_receiver : Channel → Bool
  pub channel : ℕ → Channel
  pub channel_new :
      (n : ℕ)
      → 0 < n
      → (queued (channel n) ≡ []) × (capacity (channel n) ≡ n) × (has_receiver (channel n) ≡ true)
  pub try_send : Channel → M → Outcome TrySendError Channel
  pub try_send_room :
      (c : Channel) (m : M)
      → has_receiver c ≡ true
      → length (queued c) < capacity c
      → (c' : Channel) × (try_send c m ≡ ok c')
        × (queued c' ≡ queued c ++ (m ∷ []))
        × (capacity c' ≡ capacity c)
        × (has_receiver c' ≡ true)
  pub try_send_full :
      (c : Channel) (m : M)
      → has_receiver c ≡ true
      → capacity c ≤ length (queued c)
      → try_send c m ≡ err full
  pub try_recv : Channel → Outcome TryRecvError (M × Channel)
  pub try_recv_some :
      (c : Channel) (m : M) (ms : List M)
      → queued c ≡ m ∷ ms
      → (c' : Channel) × (try_recv c ≡ ok (m, c'))
        × (queued c' ≡ ms)
        × (capacity c' ≡ capacity c)
        × (has_receiver c' ≡ has_receiver c)
  pub try_recv_none : (c : Channel) → queued c ≡ [] → (why : TryRecvError) × (try_recv c ≡ err why)
  pub Semaphore : Type 0
  pub permits : Semaphore → ℕ
  pub semaphore : ℕ → Semaphore
  pub permits-semaphore : (n : ℕ) → permits (semaphore n) ≡ n
  pub try_acquire : Semaphore → Outcome AcquireError Semaphore
  pub try_acquire_some :
      (s : Semaphore)
      → 0 < permits s
      → (s' : Semaphore) × (try_acquire s ≡ ok s') × (permits s' + 1 ≡ permits s)
  pub try_acquire_none :
      (s : Semaphore) → permits s ≡ 0 → (why : AcquireError) × (try_acquire s ≡ err why)
  pub add_permits : Semaphore → ℕ → Semaphore
  pub permits-add_permits : (s : Semaphore) (n : ℕ) → permits (add_permits s n) ≡ permits s + n
