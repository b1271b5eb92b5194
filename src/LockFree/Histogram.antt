-- ===== src/LockFree/Histogram.antt =====
-- src/lock_free.rs: `LockFreeHistogram` and `HistogramSnapshot`.
use iroh_raft.Common.{
  ℕ, zero, suc, ◌+◌, ◌-◌, ◌%◌, ltb, leb, ◌==◌, if◌then◌else◌, List, [], ◌∷◌, length, Option, none,
  some,
}
use iroh_raft.Common.Bytes.{u64_mod}

-- The counters of the buckets, by their values, and the limits between the buckets; a snapshot is the same.
pub record LockFreeHistogram : Type 0 where
  pub buckets : List ℕ
  pub bucket_boundaries : List ℕ

abbrev pub exponential : List ℕ
exponential = 1 ∷ 10 ∷ 100 ∷ 1000 ∷ 10000 ∷ 100000 ∷ 1000000 ∷ 10000000 ∷ []

-- `0..=boundaries.len()` counters at 0.
abbrev pub zeros : List ℕ → List ℕ
zeros [] = 0 ∷ []
zeros (b ∷ bs) = 0 ∷ zeros bs

abbrev pub new_exponential : LockFreeHistogram
new_exponential = record { buckets = zeros exponential; bucket_boundaries = exponential }

unfoldable pub find_bucket_index : List ℕ → ℕ → ℕ
find_bucket_index [] value = 0
find_bucket_index (b ∷ bs) value =
    let rest = find_bucket_index bs value in if ltb value b then 0 else suc rest

-- `buckets[i].fetch_add(1)`; an index out of range panics, which is `none`.
unfoldable pub fetch_add_at : ℕ → List ℕ → Option (List ℕ)
fetch_add_at i [] = none
fetch_add_at zero (c ∷ cs) = some ((c + 1) % u64_mod ∷ cs)
fetch_add_at (suc i) (c ∷ cs) = elim (fetch_add_at i cs) [ none ↦ none | some cs' ↦ some (c ∷ cs') ]

unfoldable pub record_value : LockFreeHistogram → ℕ → Option LockFreeHistogram
unfolding find_bucket_index fetch_add_at
record_value h value_us =
    elim (fetch_add_at (find_bucket_index h.bucket_boundaries value_us) h.buckets) [
      | none ↦ none
      | some buckets ↦ some (record h { buckets = buckets })
    ]

unfoldable pub sum : List ℕ → ℕ
sum [] = 0
sum (c ∷ cs) = (c + sum cs) % u64_mod

unfoldable pub total_count : LockFreeHistogram → ℕ
unfolding sum
total_count h = sum h.buckets

-- `boundaries[i]`, which panics out of range.
unfoldable pub boundary_at : List ℕ → ℕ → Option ℕ
boundary_at [] i = none
boundary_at (b ∷ bs) zero = some b
boundary_at (b ∷ bs) (suc i) = boundary_at bs i

-- The result for the bucket `i`.
unfoldable pub lower_edge : List ℕ → ℕ → Option ℕ
unfolding boundary_at
lower_edge boundaries i =
    if i == 0
    then some 0
    else if leb i (length boundaries)
    then boundary_at boundaries (i - 1)
    else some (u64_mod - 1)

unfoldable pub walk : List ℕ → ℕ → ℕ → ℕ → List ℕ → Option ℕ
unfolding lower_edge
walk boundaries target i cumulative [] = none
walk boundaries target i cumulative (count ∷ counts) =
    let total = (cumulative + count) % u64_mod in
    let rest = walk boundaries target (suc i) total counts in
    if leb target total then lower_edge boundaries i else rest

-- `percentile`, where the caller's fraction of the total is `target_of`, a floating-point product.
unfoldable pub percentile : (ℕ → ℕ) → LockFreeHistogram → Option ℕ
unfolding total_count walk
percentile target_of h =
    if total_count h == 0
    then none
    else walk h.bucket_boundaries (target_of (total_count h)) 0 0 h.buckets
