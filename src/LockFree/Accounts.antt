-- ===== src/LockFree/Accounts.antt =====
-- src/lock_free.rs: the counters of a connection pool account for the connections that it holds.
use iroh_raft.Common.{
  ℕ, arith, ◌+◌, ◌%◌, ◌≡◌, refl, ap, ◌∙◌, inl, inr, not, Bool, List-cases, Option-cases, List, [],
  ◌∷◌, length,
}
use iroh_raft.Common.Bytes.{u64_mod}
use iroh_raft.Common.Equality.{nat_eq}
use iroh_raft.Common.Maps.{lookup, retain}
use iroh_raft.Common.Distinct.{
  Distinct, Distinct-insert, Distinct-remove, Distinct-retain, length-insert_new, length-insert_old,
  length-remove_old, remove_absent,
}
use iroh_raft.LockFree.Pool.{
  LockFreeConnectionPool, new_pool, insert_connection, remove_connection, cleanup_stale, stale_keys,
  is_stale, len, metrics,
}

length-stale_keys :
    {T : Type 0} (timeout now : ℕ) (m : List (ℕ × (T × ℕ)))
    → length (retain (λ (entry : T × ℕ). not (is_stale timeout now entry)) m)
        + length (stale_keys timeout now m)
      ≡ length m
unfolding retain stale_keys
length-stale_keys timeout now [] = refl
length-stale_keys timeout now ((j, (c, last)) ∷ m) = ground (arith, length-stale_keys timeout now m)

-- The pools that any sequence of operations makes of a new one.
pub data Operated {T : Type 0} : LockFreeConnectionPool T → Type 0 where
  fresh : (timeout : ℕ) → Operated (new_pool timeout)
  inserted :
      {pool : LockFreeConnectionPool T} (key : ℕ) (c : T) (now : ℕ)
      → Operated pool
      → Operated (insert_connection pool key c now).0
  removed :
      {pool : LockFreeConnectionPool T} (key : ℕ)
      → Operated pool
      → Operated (remove_connection pool key).0
  cleaned :
      {pool : LockFreeConnectionPool T} (now : ℕ)
      → Operated pool
      → Operated (cleanup_stale pool now).0

module _ {T : Type 0} where
  pub record IsAccounted (pool : LockFreeConnectionPool T) : Type 0 where
    pub distinct : Distinct pool.connections
    pub accounts :
        (len pool + pool.total_removed.value) % u64_mod ≡ pool.total_created.value % u64_mod

  insert_connection-IsAccounted :
      (pool : LockFreeConnectionPool T) (key : ℕ) (c : T) (now : ℕ)
      → IsAccounted pool
      → IsAccounted (insert_connection pool key c now).0
  unfolding insert_connection
  insert_connection-IsAccounted pool key c now sound =
      elim (Option-cases (lookup key pool.connections)) [
        | inl new ↦
            rw (new, insert_connection)
              record {
                distinct = Distinct-insert key (c, now) pool.connections sound.distinct;
                accounts =
                    omega
                      (arith, sound.accounts, length-insert_new key (c, now) pool.connections new);
              }
        | inr (w, there) ↦
            rw (there, insert_connection)
              record {
                distinct = Distinct-insert key (c, now) pool.connections sound.distinct;
                accounts = omega (
                  arith,
                  sound.accounts,
                  length-insert_old key (c, now) w pool.connections there,
                );
              }
      ]

  remove_connection-IsAccounted :
      (pool : LockFreeConnectionPool T) (key : ℕ)
      → IsAccounted pool
      → IsAccounted (remove_connection pool key).0
  unfolding remove_connection
  remove_connection-IsAccounted pool key sound = elim (Option-cases (lookup key pool.connections)) [
    | inl absent ↦
        rw (absent, remove_connection)
          record {
            distinct = Distinct-remove key pool.connections sound.distinct;
            accounts =
                ap (λ (m : List (ℕ × (T × ℕ))). (length m + pool.total_removed.value) % u64_mod)
                  (remove_absent key pool.connections absent)
                ∙ sound.accounts;
          }
    | inr (w, there) ↦
        rw (there, remove_connection)
          record {
            distinct = Distinct-remove key pool.connections sound.distinct;
            accounts = omega (
              arith,
              sound.accounts,
              length-remove_old key w pool.connections sound.distinct there,
            );
          }
  ]

  cleanup_stale-IsAccounted :
      (pool : LockFreeConnectionPool T) (now : ℕ)
      → IsAccounted pool
      → IsAccounted (cleanup_stale pool now).0
  unfolding cleanup_stale
  cleanup_stale-IsAccounted pool now sound =
      let swept = length-stale_keys pool.health_check_timeout now pool.connections in
      let keep : T × ℕ → Bool =
        λ (entry : T × ℕ). not (is_stale pool.health_check_timeout now entry) in
      elim (List-cases (stale_keys pool.health_check_timeout now pool.connections)) [
        | inl nothing ↦
            rw (nothing, cleanup_stale)
              record {
                distinct = Distinct-retain keep pool.connections sound.distinct;
                accounts = omega (arith, sound.accounts, swept, ap (length {A = ℕ}) nothing);
              }
        | inr (key, keys, some_there) ↦
            rw (some_there, cleanup_stale)
              record {
                distinct = Distinct-retain keep pool.connections sound.distinct;
                accounts = omega (arith, sound.accounts, swept, ap (length {A = ℕ}) some_there);
              }
      ]

  Operated-IsAccounted : {pool : LockFreeConnectionPool T} → Operated pool → IsAccounted pool
  Operated-IsAccounted (fresh timeout) = record { distinct = tt; accounts = refl }
  Operated-IsAccounted (inserted {pool = pool} key c now h) =
      insert_connection-IsAccounted pool key c now (Operated-IsAccounted h)
  Operated-IsAccounted (removed {pool = pool} key h) =
      remove_connection-IsAccounted pool key (Operated-IsAccounted h)
  Operated-IsAccounted (cleaned {pool = pool} now h) =
      cleanup_stale-IsAccounted pool now (Operated-IsAccounted h)

  -- After any operations on a new pool, no key has two connections, and the connections that it holds and the count of
  -- the removed ones make up the count of the created ones, modulo 2 ^ 64.
  pub metrics_account :
      (pool : LockFreeConnectionPool T)
      → Operated pool
      → Distinct pool.connections
        × (((metrics pool).active_connections + (metrics pool).total_removed) % u64_mod
            ≡ (metrics pool).total_created % u64_mod)
  metrics_account pool history =
      let sound = Operated-IsAccounted history in (sound.distinct, sound.accounts)
