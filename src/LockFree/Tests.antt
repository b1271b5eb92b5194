-- ===== src/LockFree/Tests.antt =====
-- A histogram of three latencies.
use iroh_raft.Common.{ℕ, arith, ◌-◌, ◌≡◌, List, [], ◌∷◌, length, some}
use iroh_raft.Common.Equality.{nat_eq}
use iroh_raft.LockFree.Histogram.{
  LockFreeHistogram, exponential, new_exponential, total_count, percentile,
}
use iroh_raft.LockFree.Buckets.{record_all}
use iroh_raft.LockFree.Percentiles.{Splits, percentile-Splits}

abbrev latencies : List ℕ
latencies = 15000 ∷ 1500 ∷ 500 ∷ []

abbrev second : ℕ → ℕ
second total = total - 1

percentile-Splits_example :
    (h : LockFreeHistogram) × (edge : ℕ) × (record_all new_exponential latencies ≡ some h)
    × (total_count h ≡ length latencies)
    × (percentile second h ≡ some edge)
    × Splits exponential latencies (second (length latencies)) edge
percentile-Splits_example =
    percentile-Splits latencies second (omega arith) (omega arith) (omega arith)
