-- ===== src/LockFree/Buckets.antt =====
-- What the counters of a histogram hold after values have been recorded.
use iroh_raft.Common.{
  ℕ, suc, arith, ◌+◌, ◌-◌, ◌%◌, ◌≤◌, ◌<◌, ◌≡◌, refl, sym, ap, inl, inr, ltb, if◌then◌else◌,
  Bool-cases, List, [], ◌∷◌, length, Option, none, some, ltb→lt, not_ltb→le,
}
use iroh_raft.Common.Bytes.{u64_mod}
use iroh_raft.LockFree.Histogram.{
  LockFreeHistogram, exponential, zeros, new_exponential, find_bucket_index, fetch_add_at,
  record_value,
}

-- The number of the values below a limit.
abbrev pub count_below : ℕ → List ℕ → ℕ
count_below limit [] = 0
count_below limit (v ∷ vs) = (if ltb v limit then 1 else 0) + count_below limit vs

-- The values between one limit and the next, where `below` of them are below the first.
abbrev pub shares : List ℕ → ℕ → List ℕ → List ℕ
shares [] below vs = (length vs - below) ∷ []
shares (b ∷ bs) below vs = (count_below b vs - below) ∷ shares bs (count_below b vs) vs

-- The limits rise, from one above `low` on.
abbrev pub Rising : ℕ → List ℕ → Type 0
Rising low [] = Unit
Rising low (b ∷ bs) = (low < b) × Rising b bs

pub count_below_mono :
    (low high : ℕ) (vs : List ℕ) → low ≤ high → count_below low vs ≤ count_below high vs
count_below_mono low high [] h = omega arith
count_below_mono low high (v ∷ vs) h = ground (arith, count_below_mono low high vs h)

pub count_below-length : (limit : ℕ) (vs : List ℕ) → count_below limit vs ≤ length vs
count_below-length limit [] = omega arith
count_below-length limit (v ∷ vs) = ground (arith, count_below-length limit vs)

pub count_below_zero : (vs : List ℕ) → count_below 0 vs ≡ 0
count_below_zero [] = refl
count_below_zero (v ∷ vs) = ground (arith, count_below_zero vs)

-- A value below all the limits that follow changes none of the later shares.
shares_low :
    (bs : List ℕ) (low below v : ℕ) (vs : List ℕ)
    → Rising low bs
    → v < low
    → shares bs (suc below) (v ∷ vs) ≡ shares bs below vs
shares_low [] low below v vs rising h = ap (λ (n : ℕ). n ∷ []) (omega arith)
shares_low (b ∷ bs) low below v vs (above, rising) h =
    let counted : count_below b (v ∷ vs) ≡ suc (count_below b vs) = ground arith in
    let one_each : suc (count_below b vs) - suc below ≡ count_below b vs - below = omega arith in
    rw (counted, one_each)
      (ap (λ (rest : List ℕ). (count_below b vs - below) ∷ rest)
        (shares_low bs b (count_below b vs) v vs rising (omega arith)))

-- The value is counted in its own share.
pub fetch_add_at-shares :
    (bs : List ℕ) (low below v : ℕ) (vs : List ℕ)
    → Rising low bs
    → below ≤ count_below low vs
    → below ≤ length vs
    → low ≤ v
    → suc (length vs) < u64_mod
    → fetch_add_at (find_bucket_index bs v) (shares bs below vs) ≡ some (shares bs below (v ∷ vs))
unfolding find_bucket_index fetch_add_at
fetch_add_at-shares [] low below v vs rising fewer some_below h small =
    ap (λ (n : ℕ). some (n ∷ [])) (omega arith)
fetch_add_at-shares (b ∷ bs) low below v vs (above, rising) fewer some_below h small =
    elim (Bool-cases (ltb v b)) [
      | inl lower ↦
          let counted : count_below b (v ∷ vs) ≡ suc (count_below b vs) = rw lower (omega arith) in
          let more : (count_below b vs - below + 1) % u64_mod ≡ suc (count_below b vs) - below =
            omega (arith, count_below_mono low b vs (omega arith), count_below-length b vs) in
          rw (counted, lower, more)
            (ap (λ (rest : List ℕ). some ((suc (count_below b vs) - below) ∷ rest))
              (sym (shares_low bs b (count_below b vs) v vs rising (ltb→lt v b lower))))
      | inr higher ↦
          let counted : count_below b (v ∷ vs) ≡ count_below b vs = rw higher (omega arith) in
          let rest =
            fetch_add_at-shares bs b (count_below b vs) v vs rising (omega arith)
              (count_below-length b vs) (not_ltb→le v b higher) small in
          rw (counted, higher, rest) refl
    ]

-- Values recorded one after the other; the first one of the list is the last.
unfoldable pub record_all : LockFreeHistogram → List ℕ → Option LockFreeHistogram
unfolding record_value
record_all h [] = some h
record_all h (v ∷ vs) = elim (record_all h vs) [ none ↦ none | some h' ↦ record_value h' v ]

pub exponential-Rising : Rising 0 exponential
exponential-Rising = (
  omega arith,
  (
    omega arith,
    (omega arith, (omega arith, (omega arith, (omega arith, (omega arith, (omega arith, tt)))))),
  ),
)

zeros-shares : (bs : List ℕ) → zeros bs ≡ shares bs 0 []
zeros-shares [] = refl
zeros-shares (b ∷ bs) = ap (◌∷◌ 0) (zeros-shares bs)

pub record_all-shares :
    (vs : List ℕ)
    → length vs < u64_mod
    → record_all new_exponential vs
      ≡ some (record { buckets = shares exponential 0 vs; bucket_boundaries = exponential })
unfolding record_all record_value
record_all-shares [] small = refl
record_all-shares (v ∷ vs) small =
    rw
      (
        record_all-shares vs (omega arith),
        record_value,
        fetch_add_at-shares exponential 0 0 v vs exponential-Rising (omega arith) (omega arith)
            (omega arith) small,
      )
      refl
