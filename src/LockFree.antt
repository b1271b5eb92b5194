-- ===== src/LockFree.antt =====
-- src/lock_free.rs: counters, latency histograms, a connection pool, a bounded queue and an aggregator. Each operation is one atomic step; an atomic counter wraps at 64 bits, and a
-- `DashMap` is a map of Common/Maps.antt.
pub mod Histogram
pub mod Buckets
pub mod Percentiles
pub mod Pool
pub mod Accounts
pub mod Queue
pub mod Aggregator
mod Tests
use iroh_raft.Common.{ℕ, ◌+◌, ◌%◌}
use iroh_raft.Common.Bytes.{u64_mod}

pub record LockFreeCounter : Type 0 where
  pub value : ℕ

abbrev pub new : LockFreeCounter
new = record { value = 0 }

-- `fetch_add`; the old value, which is its result, is read by no caller.
abbrev pub add : LockFreeCounter → ℕ → LockFreeCounter
add c delta = record { value = (c.value + delta) % u64_mod }

abbrev pub increment : LockFreeCounter → LockFreeCounter
increment c = add c 1

abbrev pub get : LockFreeCounter → ℕ
get c = c.value

-- `swap(0)`, with the old value.
abbrev pub reset : LockFreeCounter → LockFreeCounter × ℕ
reset c = (new, c.value)

-- `clone` starts a new counter at 0.
abbrev pub clone : LockFreeCounter → LockFreeCounter
clone c = new
