-- ===== src/LockFree/Pool.antt =====
-- src/lock_free.rs: `LockFreeConnectionPool`.
use iroh_raft.Common.{
  ℕ, ◌-◌, ltb, not, ◌==◌, Bool, if◌then◌else◌, List, [], ◌∷◌, length, Option, none, some,
}
use iroh_raft.Common.Equality.{nat_eq}
use iroh_raft.Common.Maps.{lookup, insert, remove, retain}
use iroh_raft.LockFree.{LockFreeCounter, add, increment}
use iroh_raft.LockFree as LockFree

-- A connection is kept with the time of its last activity.
pub record LockFreeConnectionPool (T : Type 0) : Type 0 where
  pub connections : List (ℕ × (T × ℕ))
  pub total_created : LockFreeCounter
  pub total_removed : LockFreeCounter
  pub health_check_timeout : ℕ

pub record ConnectionPoolMetrics : Type 0 where
  pub active_connections : ℕ
  pub total_created : ℕ
  pub total_removed : ℕ

module _ {T : Type 0} where
  abbrev pub connection : T × ℕ → T
  connection (c, last_activity) = c

  abbrev pub new_pool : ℕ → LockFreeConnectionPool T
  new_pool health_check_timeout = record {
    connections = [];
    total_created = LockFree.new;
    total_removed = LockFree.new;
    health_check_timeout = health_check_timeout;
  }

  abbrev pub map_connection : Option (T × ℕ) → Option T
  map_connection none = none
  map_connection (some entry) = some (connection entry)

  unfoldable pub insert_connection :
      LockFreeConnectionPool T → ℕ → T → ℕ → LockFreeConnectionPool T × Option T
  unfolding lookup insert
  insert_connection pool key c now =
      let old = lookup key pool.connections in
      let stored : LockFreeConnectionPool T = record pool {
        connections = insert key (c, now) pool.connections;
      } in
      elim old [
        | none ↦ (record stored { total_created = increment pool.total_created }, none)
        | some entry ↦ (stored, some (connection entry))
      ]

  unfoldable pub get_connection : LockFreeConnectionPool T → ℕ → Option (T × ℕ)
  unfolding lookup
  get_connection pool key = lookup key pool.connections

  unfoldable pub remove_connection :
      LockFreeConnectionPool T → ℕ → LockFreeConnectionPool T × Option T
  unfolding lookup remove
  remove_connection pool key =
      let removed = lookup key pool.connections in
      let left : LockFreeConnectionPool T = record pool {
        connections = remove key pool.connections;
      } in
      elim removed [
        | none ↦ (left, none)
        | some entry ↦
            (record left { total_removed = increment pool.total_removed }, some (connection entry))
      ]

  -- `duration_since` is 0 for a time in the future.
  abbrev pub is_stale : ℕ → ℕ → T × ℕ → Bool
  is_stale timeout now (c, last_activity) = ltb timeout (now - last_activity)

  unfoldable pub stale_keys : ℕ → ℕ → List (ℕ × (T × ℕ)) → List ℕ
  stale_keys timeout now [] = []
  stale_keys timeout now ((key, entry) ∷ m) =
      let rest = stale_keys timeout now m in if is_stale timeout now entry then key ∷ rest else rest

  unfoldable pub cleanup_stale : LockFreeConnectionPool T → ℕ → LockFreeConnectionPool T × List ℕ
  unfolding retain stale_keys
  cleanup_stale pool now =
      let stale = stale_keys pool.health_check_timeout now pool.connections in
      let kept =
        retain (λ (entry : T × ℕ). not (is_stale pool.health_check_timeout now entry))
          pool.connections in
      let swept : LockFreeConnectionPool T = record pool { connections = kept } in
      elim stale [
        | [] ↦ (swept, [])
        | key ∷ keys ↦ (
          record swept { total_removed = add pool.total_removed (length (key ∷ keys)) },
          key ∷ keys,
        )
      ]

  abbrev pub len : LockFreeConnectionPool T → ℕ
  len pool = length pool.connections

  abbrev pub is_empty : LockFreeConnectionPool T → Bool
  is_empty pool = len pool == 0

  abbrev pub metrics : LockFreeConnectionPool T → ConnectionPoolMetrics
  metrics pool = record {
    active_connections = len pool;
    total_created = LockFree.get pool.total_created;
    total_removed = LockFree.get pool.total_removed;
  }
