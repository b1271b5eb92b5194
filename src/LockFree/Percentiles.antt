-- ===== src/LockFree/Percentiles.antt =====
-- src/lock_free.rs: what the percentiles of a histogram say of the values that it has seen.
use iroh_raft.Common.{
  ℕ, zero, suc, arith, ◌+◌, ◌-◌, ◌%◌, ◌≤◌, ◌<◌, ◌≡◌, refl, ap, subst, ◌∙◌, ◌⊎◌, inl, inr, false,
  leb, ◌==◌, Bool-cases, List, [], ◌∷◌, length, drop, some, leb→le, le→leb, not_leb→lt,
}
use iroh_raft.Common.Bytes.{u64_mod}
use iroh_raft.Common.Equality.{In}
use iroh_raft.LockFree.Histogram.{
  LockFreeHistogram, exponential, new_exponential, sum, total_count, boundary_at, lower_edge, walk,
  percentile,
}
use iroh_raft.LockFree.Buckets.{
  count_below, count_below_mono, count_below-length, count_below_zero, shares, Rising,
  exponential-Rising, record_all, record_all-shares,
}

sum-shares :
    (bs : List ℕ) (low below : ℕ) (vs : List ℕ)
    → Rising low bs
    → below ≤ count_below low vs
    → below ≤ length vs
    → length vs < u64_mod
    → sum (shares bs below vs) ≡ length vs - below
unfolding sum
sum-shares [] low below vs rising fewer some_below small = omega arith
sum-shares (b ∷ bs) low below vs (above, rising) fewer some_below small = omega (
  arith,
  sum-shares bs b (count_below b vs) vs rising (omega arith) (count_below-length b vs) small,
  count_below_mono low b vs (omega arith),
  count_below-length b vs,
)

-- All the limits that rise from one on are above it.
Rising-In : (low y : ℕ) (bs : List ℕ) → Rising low bs → In y bs → low < y
Rising-In low y [] rising there = elim there [ ]
Rising-In low y (b ∷ bs) (above, rising) (inl same) = omega (arith, same)
Rising-In low y (b ∷ bs) (above, rising) (inr later) = omega (arith, Rising-In b y bs rising later)

boundary_at-drop :
    (whole : List ℕ) (i b : ℕ) (bs : List ℕ)
    → drop i whole ≡ b ∷ bs
    → (boundary_at whole i ≡ some b) × (i < length whole) × (drop (suc i) whole ≡ bs)
unfolding boundary_at
boundary_at-drop [] zero b bs there = absurd cc
boundary_at-drop [] (suc i) b bs there = absurd cc
boundary_at-drop (c ∷ cs) zero b bs there = (cc, omega arith, cc)
boundary_at-drop (c ∷ cs) (suc i) b bs there =
    let (found, inside, rest) = boundary_at-drop cs i b bs there in (found, omega arith, rest)

-- The limit at the head of what is left is the lower edge of the next bucket.
lower_edge-drop :
    (whole : List ℕ) (i b : ℕ) (bs : List ℕ)
    → drop i whole ≡ b ∷ bs
    → lower_edge whole (suc i) ≡ some b
unfolding lower_edge
lower_edge-drop whole i b bs there =
    let (found, inside, _) = boundary_at-drop whole i b bs there in
    let back : suc i - 1 ≡ i = omega arith in
    let not_first : (suc i == 0) ≡ false = ground arith in
    rw (back, not_first, le→leb (suc i) (length whole) (omega arith)) found

-- What a result of `percentile` says.
abbrev pub Splits : List ℕ → List ℕ → ℕ → ℕ → Type 0
Splits boundaries vs target edge =
    ((edge ≡ 0) ⊎ In edge boundaries)
    × (count_below edge vs < target)
    × ((y : ℕ) → In y boundaries → edge < y → target ≤ count_below y vs)

walk-Splits :
    (whole : List ℕ) (vs : List ℕ) (target : ℕ)
    → target ≤ length vs
    → length vs < u64_mod
    → (bs : List ℕ) (i low : ℕ) → drop i whole ≡ bs
    → Rising low bs
    → lower_edge whole i ≡ some low
    → count_below low vs < target
    → ((low ≡ 0) ⊎ In low whole)
    → ((y : ℕ) → In y bs → In y whole)
    → ((y : ℕ) → In y whole → (y ≤ low) ⊎ In y bs)
    → (edge : ℕ) × (walk whole target i (count_below low vs) (shares bs (count_below low vs) vs)
        ≡ some edge)
      × Splits whole vs target edge
unfolding walk
walk-Splits whole vs target reachable small [] i low rest rising edge fewer is_edge inside others =
    let all : (count_below low vs + (length vs - count_below low vs)) % u64_mod ≡ length vs =
      omega (arith, count_below-length low vs) in
    let ends : walk whole target i (count_below low vs) (shares [] (count_below low vs) vs)
        ≡ some low =
      rw (all, le→leb target (length vs) reachable) edge in
    (
      low,
      ends,
      (
        is_edge,
        fewer,
        λ (y : ℕ) (there : _) (h : _). elim (others y there) [
          | inl below ↦ absurd (omega arith)
          | inr nowhere ↦ elim nowhere [ ]
        ],
      ),
    )
walk-Splits whole vs target reachable small (b ∷ bs) i low rest (above, rising) edge fewer is_edge
      inside others =
    let total : (count_below low vs + (count_below b vs - count_below low vs)) % u64_mod
        ≡ count_below b vs =
      omega (arith, count_below_mono low b vs (omega arith), count_below-length b vs) in
    elim (Bool-cases (leb target (count_below b vs))) [
      | inl here ↦
          let ends : walk whole target i (count_below low vs)
                (shares (b ∷ bs) (count_below low vs) vs)
              ≡ some low =
            rw (total, here) edge in
          (
            low,
            ends,
            (
              is_edge,
              fewer,
              λ (y : ℕ) (there : _) (h : _). elim (others y there) [
                | inl below ↦ absurd (omega arith)
                | inr (inl same) ↦ omega (
                  arith,
                  leb→le target (count_below b vs) here,
                  ap (λ (limit : ℕ). count_below limit vs) same,
                )
                | inr (inr far) ↦ omega (
                  arith,
                  leb→le target (count_below b vs) here,
                  count_below_mono b y vs (omega (arith, Rising-In b y bs rising far)),
                )
              ],
            ),
          )
      | inr later ↦
          let onward : (y : ℕ) → In y whole → (y ≤ b) ⊎ In y bs = λ (y : ℕ) (there : _).
            elim (others y there) [
              | inl below ↦ inl (omega arith)
              | inr (inl same) ↦ inl (omega (arith, same))
              | inr (inr far) ↦ inr far
            ] in
          let (_, _, after) = boundary_at-drop whole i b bs rest in
          let (x, found, said) =
            walk-Splits whole vs target reachable small bs (suc i) b after rising
              (lower_edge-drop whole i b bs rest) (not_leb→lt target (count_below b vs) later)
              (inr (inside b (inl refl))) (λ (y : ℕ) (there : In y bs). inside y (inr there))
              onward in
          let ends : walk whole target i (count_below low vs)
                (shares (b ∷ bs) (count_below low vs) vs)
              ≡ some x =
            rw (total, later) found in
          (x, ends, said)
    ]

walk_from_start :
    (whole vs : List ℕ) (target : ℕ)
    → target ≤ length vs
    → length vs < u64_mod
    → Rising 0 whole
    → 0 < target
    → (edge : ℕ) × (walk whole target 0 0 (shares whole 0 vs) ≡ some edge)
      × Splits whole vs target edge
unfolding lower_edge
walk_from_start whole vs target reachable small rising positive =
    subst
      (λ (n : ℕ).
        (edge : ℕ) × (walk whole target 0 n (shares whole n vs) ≡ some edge)
        × Splits whole vs target edge)
      (count_below_zero vs)
      (walk-Splits whole vs target reachable small whole 0 0 refl rising refl
        (omega (arith, count_below_zero vs)) (inl refl) (λ (y : ℕ) (there : In y whole). there)
        (λ (y : ℕ) (there : In y whole). inr there))

percentile-walk :
    (h : LockFreeHistogram) (target_of : ℕ → ℕ) (n : ℕ)
    → total_count h ≡ n
    → 0 < n
    → percentile target_of h ≡ walk h.bucket_boundaries (target_of n) 0 0 h.buckets
unfolding percentile
percentile-walk h target_of n total positive =
    let some_there : (n == 0) ≡ false = ground (arith, positive) in rw (total, some_there) refl

-- After fewer than 2 ^ 64 values have been recorded, and for a target between 1 and their number, `percentile`
-- returns 0 or a limit of the buckets: fewer values than the target lie below it, and at least as many lie below each larger limit,
-- so that it is the largest edge that does not exceed the value at the target's place in rising order.
pub percentile-Splits :
    (vs : List ℕ) (target_of : ℕ → ℕ)
    → length vs < u64_mod
    → 0 < target_of (length vs)
    → target_of (length vs) ≤ length vs
    → (h : LockFreeHistogram) × (edge : ℕ) × (record_all new_exponential vs ≡ some h)
      × (total_count h ≡ length vs)
      × (percentile target_of h ≡ some edge)
      × Splits exponential vs (target_of (length vs)) edge
unfolding total_count
percentile-Splits vs target_of small positive reachable =
    let h : LockFreeHistogram = record {
      buckets = shares exponential 0 vs;
      bucket_boundaries = exponential;
    } in
    let total : total_count h ≡ length vs =
      sum-shares exponential 0 0 vs exponential-Rising (omega arith) (omega arith) small
      ∙ omega arith in
    let (edge, found, said) =
      walk_from_start exponential vs (target_of (length vs)) reachable small exponential-Rising
        positive in
    (
      h,
      edge,
      record_all-shares vs small,
      total,
      percentile-walk h target_of (length vs) total (omega arith) ∙ found,
      said,
    )
